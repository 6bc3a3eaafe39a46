-- ===== src/Native/Steps/Total.antt =====
-- A step of native/__init__.py ends, and not at the AssertionError behind its loop.
use cobalt_wren.Prelude.{
  ℕ, zero, suc, ◌+◌, Bool, true, false, not, ◌&&◌, ◌||◌, Option, none, some, any, leb, length,
  if◌then◌else◌, ◌≡◌, refl, arith,
}
use cobalt_wren.Prelude.Action.{pure, raise, gets, modify, ◌>>=◌, ◌>>◌}
use cobalt_wren.Prelude.Action.Triple.{Triple, Triple->>=, Triple-if}
use cobalt_wren.Prelude.Equality.{◌==◌, nat_eq, list_eq}
use cobalt_wren.Prelude.Int.{ℤ, pos, negsuc}
use cobalt_wren.Prelude.Result.{Result, ok, err, guard, on_ok}
use cobalt_wren.Prelude.Text.{Text, codes}
use cobalt_wren.Core.Value.{
  Value, null, bool, int, float, str, bytes, bytearray, memoryview, list, tuple, dict, other,
}
use cobalt_wren.Core.Compare.{Number, int_lt, number_lt, number_of}
use cobalt_wren.Native.Policies.{
  Raised, RetryPolicy, Arithmetic, PolicyError, nothing, number_min, should_retry, delay_after,
  check_policy,
}
use cobalt_wren.Native.Names.{NameError, required_name, occurrence_identity}
use cobalt_wren.Native.Buffer.{Attempt, complete, fail}
use cobalt_wren.Native.Steps.{
  StepError, timeout_not_positive, timeout_not_number, retry_loop_exhausted, thrown,
  delay_unfinished, Environment, Callable, Context, Calls, caught, passed_on, observe, started_span,
  check_cancelled, retry_delay, delayed, is_exception, settle_exception, settle, attempts,
  attempt_body, admitted, first_attempt, policy_or_default, rounds, step, is_cancellation,
  with_note, as_name, checked_timeout, from_result, max_step_occurrences, slice, check_control,
  not_positive,
}
use cobalt_wren.Native.Steps.Order.{next_attempt}

-- Whether the loop of `_retry_delay` ends in so many rounds.
unfoldable pub runs_out : Arithmetic → ℕ → Number → Bool
runs_out arithmetic zero remaining = not (number_lt nothing remaining)
runs_out arithmetic (suc slices) remaining =
    not (number_lt nothing remaining)
    || runs_out arithmetic slices (arithmetic.minus remaining (number_min remaining slice))

-- An outcome that the program has.
abbrev pub ProperError : StepError → Type 0
ProperError retry_loop_exhausted = ⊥
ProperError delay_unfinished = ⊥
ProperError _ = Unit

abbrev pub Proper : {A : Type 0} → Result StepError A → Type 0
Proper (ok a) = Unit
Proper (err e) = ProperError e

as_name-Proper : {A : Type 0} (r : Result NameError A) → Proper (as_name r)
as_name-Proper (ok a) = tt
as_name-Proper (err e) = tt

checked_number-Proper :
    (o : Option Number)
    → Proper (elim o [
      | none ↦ err timeout_not_number
      | some n ↦ if not_positive n then err timeout_not_positive else ok (some n)
    ])
checked_number-Proper none = tt
checked_number-Proper (some n) = by_sign (not_positive n)
  where
    by_sign : (b : Bool) → Proper (if b then err timeout_not_positive else ok (some n))
    by_sign true = tt
    by_sign false = tt

checked_timeout-Proper : (o : Option Value) → Proper (checked_timeout o)
checked_timeout-Proper none = tt
checked_timeout-Proper (some (bool b)) = tt
checked_timeout-Proper (some null) = checked_number-Proper (number_of null)
checked_timeout-Proper (some (int n)) = checked_number-Proper (number_of (int n))
checked_timeout-Proper (some (float x)) = checked_number-Proper (number_of (float x))
checked_timeout-Proper (some (str t)) = checked_number-Proper (number_of (str t))
checked_timeout-Proper (some (bytes bs)) = checked_number-Proper (number_of (bytes bs))
checked_timeout-Proper (some (bytearray bs)) = checked_number-Proper (number_of (bytearray bs))
checked_timeout-Proper (some (memoryview bs)) = checked_number-Proper (number_of (memoryview bs))
checked_timeout-Proper (some (list vs)) = checked_number-Proper (number_of (list vs))
checked_timeout-Proper (some (tuple vs)) = checked_number-Proper (number_of (tuple vs))
checked_timeout-Proper (some (dict fs)) = checked_number-Proper (number_of (dict fs))
checked_timeout-Proper (some (other t u)) = checked_number-Proper (number_of (other t u))

module _ {S : Type 0} where
  -- A call that has proper outcomes only.
  abbrev Sound : {A : Type 0} → Calls S A → Type 0
  Sound {A} m = Triple (Context × S) StepError A (λ s. Unit) m (λ r s. Proper r)

  Sound->>= :
      {A B : Type 0} {f : A → Calls S B} (m : Calls S A)
      → Sound m
      → ((a : A) → Sound (f a))
      → Sound (m >>= f)
  Sound->>= {A} {B} m h next =
      Triple->>= m (λ r s. Proper r) h (λ e s p. p)
        (λ a. record { after = λ s p. (next a).after s tt })

  from_result-Sound : {A : Type 0} (r : Result StepError A) → Proper r → Sound (from_result r)
  from_result-Sound (ok a) h = record { after = λ s u. h }
  from_result-Sound (err e) h = record { after = λ s u. h }

module _ {S : Type 0} (env : Environment S) where
  check_cancelled-Sound : Sound (check_cancelled env)
  unfolding check_cancelled
  check_cancelled-Sound =
      Sound->>= (caught (check_control env.control)) (record { after = λ s u. tt })
        (λ r. by_result r)
    where
      by_result : (r : Result Raised (Unit {0})) → Sound {S = S} (passed_on r)
      by_result (ok u) = record { after = λ s v. tt }
      by_result (err e) = record { after = λ s v. tt }

  retry_delay-Sound :
      (slices : ℕ) (remaining : Number)
      → runs_out env.arithmetic slices remaining ≡ true
      → Sound (retry_delay env slices remaining)
  unfolding retry_delay runs_out
  retry_delay-Sound zero remaining h = by_test (number_lt nothing remaining) h
    where
      by_test :
          (b : Bool)
          → not b ≡ true
          → Sound (if b then raise delay_unfinished else check_cancelled env)
      by_test true k = absurd (ground (arith, k))
      by_test false k = check_cancelled-Sound
  retry_delay-Sound (suc slices) remaining h = by_test (number_lt nothing remaining) h (λ k.
      retry_delay-Sound slices (env.arithmetic.minus remaining (number_min remaining slice)) k)
    where
      interval : Number
      interval = number_min remaining slice

      rest : Calls S (Unit {0})
      rest = retry_delay env slices (env.arithmetic.minus remaining interval)

      by_test :
          (b : Bool) {c : Bool}
          → (not b || c) ≡ true
          → (c ≡ true → Sound rest)
          → Sound (
              if b
              then check_cancelled env >> (modify (λ s. (s.0, env.sleep interval s.1)) >> rest)
              else check_cancelled env)
      by_test true k later =
          Sound->>= {f = λ u. modify (λ s. (s.0, env.sleep interval s.1)) >> rest}
            (check_cancelled env) check_cancelled-Sound
            (λ u.
              Sound->>= {f = λ v. rest} (modify (λ s. (s.0, env.sleep interval s.1)))
                (record { after = λ s v. tt }) (λ v. later k))
      by_test false k later = check_cancelled-Sound

  module _ (slices : ℕ) (policy : RetryPolicy)
      (enough : (attempt : ℕ) (delay : Number)
        → delay_after env.arithmetic policy attempt ≡ some delay
        → runs_out env.arithmetic slices delay ≡ true) where
    delayed-Sound :
        (attempt : ℕ) → Sound (delayed env slices (delay_after env.arithmetic policy attempt))
    delayed-Sound attempt =
        by_delay (delay_after env.arithmetic policy attempt) (λ d e. enough attempt d e)
      where
        by_delay :
            (o : Option Number)
            → ((delay : Number) → o ≡ some delay → runs_out env.arithmetic slices delay ≡ true)
            → Sound (delayed env slices o)
        by_delay none h = record { after = λ s u. tt }
        by_delay (some delay) h = retry_delay-Sound slices delay (h delay refl)

    settle_exception-Sound :
        (of : Attempt) (span : ℕ) (next : Calls S Value)
        → (int_lt (pos of.attempt) policy.max_attempts ≡ true → Sound next)
        → (e : Raised) → Sound (settle_exception env slices policy of span next e)
    unfolding settle_exception should_retry
    settle_exception-Sound of span next later e =
        by_decision (not (is_cancellation env e) && should_retry policy e of.attempt) (λ h.
          later (
            middle (not (is_cancellation env e)) (int_lt (pos of.attempt) policy.max_attempts) _ h))
      where
        middle : (a b c : Bool) → (a && (b && c)) ≡ true → b ≡ true
        middle a true c h = refl
        middle true false c h = h
        middle false false c h = h

        by_decision :
            (b : Bool)
            → (b ≡ true → Sound next)
            → Sound (
                observe (fail span of b)
                >> (if b
                    then delayed env slices (delay_after env.arithmetic policy of.attempt) >> next
                    else raise (thrown (with_note env e of))))
        by_decision true h =
            Sound->>=
              {f = λ u. delayed env slices (delay_after env.arithmetic policy of.attempt) >> next}
              (observe (fail span of true)) (record { after = λ s u. tt })
              (λ u.
                Sound->>= {f = λ v. next}
                  (delayed env slices (delay_after env.arithmetic policy of.attempt))
                  (delayed-Sound of.attempt) (λ v. h refl))
        by_decision false h = record { after = λ s u. tt }

    settle-Sound :
        (of : Attempt) (span : ℕ) (next : Calls S Value)
        → (int_lt (pos of.attempt) policy.max_attempts ≡ true → Sound next)
        → (r : Result Raised Value) → Sound (settle env slices policy of span next r)
    unfolding settle
    settle-Sound of span next later (ok result) =
        Sound->>= {f = λ u. pure result} (observe (complete span of result))
          (record { after = λ s u. tt }) (λ u. record { after = λ s v. tt })
    settle-Sound of span next later (err e) =
        Triple-if (is_exception env e) (settle_exception-Sound of span next later e)
          (record { after = λ s u. tt })

    once-Sound :
        (function : Callable S) (timeout : Option Number) (input : Value) (left : ℕ) (of : Attempt)
        → (int_lt (pos of.attempt) policy.max_attempts ≡ true
            → Sound (attempts env slices policy function timeout input left (next_attempt of)))
        → Sound (attempts env slices policy function timeout input (suc left) of)
    unfolding attempts
    once-Sound function timeout input left of later =
        Sound->>= (check_cancelled env) check_cancelled-Sound (λ u.
          Sound->>= (started_span of input) (record { after = λ s v. tt })
            (λ span.
              Sound->>= (caught (attempt_body env function timeout)) (record { after = λ s v. tt })
                (settle-Sound of span
                  (attempts env slices policy function timeout input left (next_attempt of))
                  later)))

    -- An attempt that is repeated is below the limit, so one more round is left.
    attempts-Sound :
        (function : Callable S) (timeout : Option Number) (input : Value) (left : ℕ) (of : Attempt)
        → of.attempt + left ≡ rounds policy.max_attempts
        → Sound (attempts env slices policy function timeout input (suc left) of)
    attempts-Sound function timeout input zero of total =
        once-Sound function timeout input zero of
          (λ below. absurd (not_below policy.max_attempts total below))
      where
        not_below : (n : ℤ) → of.attempt + 0 ≡ rounds n → int_lt (pos of.attempt) n ≡ true → ⊥
        not_below (pos n) e h = ground arith
        not_below (negsuc n) e h = ground (arith, h)
    attempts-Sound function timeout input (suc left) of total =
        once-Sound function timeout input (suc left) of (λ below.
          attempts-Sound function timeout input left (next_attempt of) (omega (arith, total)))

admitted-Sound :
    {S : Type 0} (env : Environment S) (name : Text) (timeout : Option Value)
    (occurrence_key : Option Text)
    → Sound (admitted env name timeout occurrence_key)
admitted-Sound env name timeout occurrence_key =
    Sound->>= (from_result (as_name (required_name name (codes "step name"))))
      (from_result-Sound _ (as_name-Proper (required_name name (codes "step name"))))
      (λ step_name.
        Sound->>= (from_result (as_name (occurrence_identity step_name occurrence_key)))
          (from_result-Sound _ (as_name-Proper (occurrence_identity step_name occurrence_key)))
          (λ subject.
            Sound->>= (gets λ s. s.0.subjects) (record { after = λ s u. tt })
              (λ subjects.
                Triple-if (any (λ used. used == subject) subjects) (record { after = λ s u. tt })
                  (Triple-if (leb max_step_occurrences (length subjects))
                    (record { after = λ s u. tt })
                    (Sound->>= (from_result (checked_timeout timeout))
                      (from_result-Sound _ (checked_timeout-Proper timeout))
                      (λ seconds. record { after = λ s u. tt }))))))

-- A policy that was validated allows at least one attempt.
rounds_of_valid :
    (policy : RetryPolicy)
    → check_policy policy ≡ ok tt
    → (left : ℕ) × (rounds policy.max_attempts ≡ suc left)
unfolding check_policy
rounds_of_valid policy h =
    on_ok (guard (not (int_lt policy.max_attempts (pos 1))) _) _ h λ u first rest.
      by_limit policy.max_attempts (passed _ u (not (int_lt policy.max_attempts (pos 1))) first)
  where
    passed : (e : PolicyError) (u : Unit {0}) (b : Bool) → guard b e ≡ ok u → b ≡ true
    passed e u true k = refl
    passed e u false k = absurd (ground (arith, k))

    by_limit : (n : ℤ) → not (int_lt n (pos 1)) ≡ true → (left : ℕ) × (rounds n ≡ suc left)
    by_limit (pos zero) k = absurd (ground (arith, k))
    by_limit (pos (suc n)) k = (n, refl)
    by_limit (negsuc n) k = absurd (ground (arith, k))

-- If the policy of a step was validated, and the loop that waits out any of its delays ends in so
-- many slices, then the step ends with a result, an exception that it let through, or an error of
-- its own tests or arithmetic: never at the AssertionError behind its loop, and with no delay
-- cut short.
pub step_total :
    {S : Type 0} (env : Environment S) (slices : ℕ) (name : Text) (function : Callable S)
    (input : Value) (retry : Option RetryPolicy) (timeout : Option Value)
    (occurrence_key : Option Text) (s : Context × S)
    → check_policy (policy_or_default env retry) ≡ ok tt
    → ((attempt : ℕ) (delay : Number)
        → delay_after env.arithmetic (policy_or_default env retry) attempt ≡ some delay
        → runs_out env.arithmetic slices delay ≡ true)
    → Proper (step env slices name function input retry timeout occurrence_key s).0
unfolding step
step_total {S} env slices name function input retry timeout occurrence_key s valid enough =
    whole.after s tt
  where
    policy : RetryPolicy
    policy = policy_or_default env retry

    whole : Sound (step env slices name function input retry timeout occurrence_key)
    whole =
        Sound->>= (admitted env name timeout occurrence_key)
          (admitted-Sound env name timeout occurrence_key)
          (λ (step_name, subject, seconds).
            Sound->>= (check_cancelled env) (check_cancelled-Sound env) (λ u. record {
              after = λ s v.
                  some_left (first_attempt env step_name subject (suc s.0.sequence) policy) refl
                    seconds (rounds policy.max_attempts) refl (rounds_of_valid policy valid) _;
            }))
      where
        some_left :
            (of : Attempt)
            → of.attempt ≡ 1
            → (seconds : Option Number) (n : ℕ) → rounds policy.max_attempts ≡ n
            → (left : ℕ) × (rounds policy.max_attempts ≡ suc left)
            → (s : Context × S)
            → Proper (attempts env slices policy function seconds input n of s).0
        some_left of first seconds zero e (left, f) s = absurd (omega (arith, e, f))
        some_left of first seconds (suc n) e (left, f) s =
            (attempts-Sound env slices policy enough function seconds input n of
                (omega (arith, e, first))).after
              s tt
