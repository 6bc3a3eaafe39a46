-- ===== src/Native/Steps/Subjects.antt =====
-- The subjects of the steps of one native workflow, native/__init__.py.
use cobalt_wren.Prelude.{
  ℕ, zero, suc, ◌≤◌, Bool, true, false, not, ◌&&◌, ◌||◌, Option, List, [], ◌∷◌, ◌++◌, any, leb,
  length, if◌then◌else◌, ◌≡◌, refl, sym, arith, length-append,
}
use cobalt_wren.Prelude.Action.{pure, raise, ◌>>=◌, ◌>>◌}
use cobalt_wren.Prelude.Action.Triple.{Triple, Triple->>=, Triple-if, Keeps, Keeps->>=, Keeps-all}
use cobalt_wren.Prelude.Equality.{◌==◌, nat_eq, list_eq, list_beq_iff, beq_ne}
use cobalt_wren.Prelude.Result.{Result, ok, err}
use cobalt_wren.Prelude.Text.{Text, codes}
use cobalt_wren.Core.Value.{Value}
use cobalt_wren.Core.Compare.{Number}
use cobalt_wren.Native.Policies.{Raised, RetryPolicy, should_retry, delay_after}
use cobalt_wren.Native.Names.{required_name, occurrence_identity}
use cobalt_wren.Native.Buffer.{Attempt, Observations, complete, fail}
use cobalt_wren.Native.Steps.{
  StepError, occurrence_used, too_many_occurrences, thrown, Environment, Callable, Context, Calls,
  caught, observe, started_span, check_cancelled, delayed, is_exception, settle_exception, settle,
  attempts, attempt_body, admitted, first_attempt, policy_or_default, rounds, step, is_cancellation,
  with_note, as_name, checked_timeout, from_result, max_step_occurrences,
}
use cobalt_wren.Native.Steps.Unchanged.{check_cancelled-Keeps, delayed-Keeps, from_result-Keeps}
use cobalt_wren.Native.Steps.Order.{next_attempt}

-- Each subject differs from those after it.
abbrev pub Distinct : List Text → Type 0
Distinct [] = Unit
Distinct (x ∷ xs) = (any (λ used. used == x) xs ≡ false) × Distinct xs

any-snoc :
    (x y : Text) (xs : List Text)
    → any (λ used. used == x) xs ≡ false
    → (y == x) ≡ false
    → any (λ used. used == x) (xs ++ y ∷ []) ≡ false
any-snoc x y [] h k = rw k
any-snoc x y (z ∷ xs) h k = ground (arith, any-snoc x y xs)

differ_sym : (x y : Text) → (x == y) ≡ false → (y == x) ≡ false
differ_sym x y h = beq_ne (λ e. clash (x == y) ((list_beq_iff x y).1 (sym e)) h)
  where
    clash : (b : Bool) → b ≡ true → b ≡ false → ⊥
    clash true h k = cc
    clash false h k = cc

Distinct-snoc :
    (xs : List Text) (y : Text)
    → any (λ used. used == y) xs ≡ false
    → Distinct xs
    → Distinct (xs ++ y ∷ [])
Distinct-snoc [] y h d = (refl, tt)
Distinct-snoc (x ∷ xs) y h (fresh, d) = (
  any-snoc x y xs fresh (differ_sym x y (head_differs (x == y) _ h)),
  Distinct-snoc xs y (tail_differs (x == y) _ h) d,
)
  where
    head_differs : (b c : Bool) → (b || c) ≡ false → b ≡ false
    head_differs false c h = refl
    head_differs true c h = h

    tail_differs : (b c : Bool) → (b || c) ≡ false → c ≡ false
    tail_differs false c h = h
    tail_differs true c h = absurd (ground (arith, h))

-- The subjects are distinct and within their limit, and the sequence counts them.
abbrev pub Tallied : Context → Type 0
Tallied c =
    Distinct c.subjects
    × ((length c.subjects ≤ max_step_occurrences) × (c.sequence ≡ length c.subjects))

module _ {S : Type 0} (env : Environment S) (slices : ℕ) (policy : RetryPolicy) where
  observe-Tallied :
      (f : Observations → Observations)
      → Keeps {S = Context × S} {E = StepError} (λ s. Tallied s.0) (observe f)
  observe-Tallied f = Keeps-all λ s h. h

  settle_exception-Tallied :
      (of : Attempt) (span : ℕ) (next : Calls S Value)
      → Keeps (λ s. Tallied s.0) next
      → (e : Raised) → Keeps (λ s. Tallied s.0) (settle_exception env slices policy of span next e)
  unfolding settle_exception
  settle_exception-Tallied of span next later e =
      by_decision (not (is_cancellation env e) && should_retry policy e of.attempt)
    where
      by_decision :
          (b : Bool)
          → Keeps
              (λ s. Tallied s.0)
              (observe (fail span of b)
                >> (if b
                    then delayed env slices (delay_after env.arithmetic policy of.attempt) >> next
                    else raise (thrown (with_note env e of))))
      by_decision b =
          Keeps->>=
            {f = λ u.
              if b
              then delayed env slices (delay_after env.arithmetic policy of.attempt) >> next
              else raise (thrown (with_note env e of))}
            (observe (fail span of b)) (observe-Tallied _)
            (λ u.
              Triple-if b
                (Keeps->>= {f = λ v. next}
                  (delayed env slices (delay_after env.arithmetic policy of.attempt))
                  (delayed-Keeps env (λ c. Tallied c) slices
                    (delay_after env.arithmetic policy of.attempt))
                  (λ v. later))
                (Keeps-all λ s h. h))

  settle-Tallied :
      (of : Attempt) (span : ℕ) (next : Calls S Value)
      → Keeps (λ s. Tallied s.0) next
      → (r : Result Raised Value)
      → Keeps (λ s. Tallied s.0) (settle env slices policy of span next r)
  unfolding settle
  settle-Tallied of span next later (ok result) =
      Keeps->>= (observe (complete span of result)) (observe-Tallied _)
        (λ u. Keeps-all {m = pure result} λ s h. h)
  settle-Tallied of span next later (err e) =
      Triple-if (is_exception env e) (settle_exception-Tallied of span next later e)
        (Keeps-all λ s h. h)

  attempts-Tallied :
      (function : Callable S) (timeout : Option Number) (input : Value) (left : ℕ) (of : Attempt)
      → Keeps (λ s. Tallied s.0) (attempts env slices policy function timeout input left of)
  unfolding attempts
  attempts-Tallied function timeout input zero of = Keeps-all λ s h. h
  attempts-Tallied function timeout input (suc left) of =
      Keeps->>= (check_cancelled env) (check_cancelled-Keeps env (λ c. Tallied c)) (λ u.
        Keeps->>= (started_span of input) (Keeps-all λ s h. h) (λ span.
          Keeps->>= (caught (attempt_body env function timeout)) (Keeps-all λ s h. h) (
            settle-Tallied of span _
              (attempts-Tallied function timeout input left (next_attempt of)))))

-- A subject that is admitted is new, and there is room for it.
abbrev Admitted :
    {S : Type 0} → Result StepError (Text × Text × Option Number) → Context × S → Type 0
Admitted (ok (name, subject, seconds)) s =
    Tallied s.0
    × ((any (λ used. used == subject) s.0.subjects ≡ false)
        × (leb max_step_occurrences (length s.0.subjects) ≡ false))
Admitted (err e) s = Tallied s.0

admitted_new :
    {S : Type 0} (env : Environment S) (name : Text) (timeout : Option Value)
    (occurrence_key : Option Text)
    → Triple
        (Context × S)
        StepError
        (Text × Text × Option Number)
        (λ s. Tallied s.0)
        (admitted env name timeout occurrence_key)
        Admitted
admitted_new {S} env name timeout occurrence_key =
    Triple->>= (from_result (as_name (required_name name (codes "step name")))) (λ r s. Tallied s.0)
      (from_result-Keeps env (λ c. Tallied c) _) (λ e s h. h)
      (λ step_name.
        Triple->>= (from_result (as_name (occurrence_identity step_name occurrence_key)))
          (λ r s. Tallied s.0) (from_result-Keeps env (λ c. Tallied c) _) (λ e s h. h)
          (λ subject. record {
            after = λ s h.
                by_tests step_name subject s h (any (λ used. used == subject) s.0.subjects) refl
                  (leb max_step_occurrences (length s.0.subjects)) refl (checked_timeout timeout);
          }))
  where
    by_tests :
        (step_name subject : Text) (s : Context × S)
        → Tallied s.0
        → (b : Bool) → any (λ used. used == subject) s.0.subjects ≡ b
        → (c : Bool) → leb max_step_occurrences (length s.0.subjects) ≡ c
        → (r : Result StepError (Option Number))
        → Admitted
            ((if b
                then raise {A = Text × Text × Option Number} (occurrence_used subject)
                else if c
                then raise too_many_occurrences
                else (from_result {A = Option Number} r >>= λ seconds.
                    pure (step_name, subject, seconds)))
              s).0
            ((if b
                then raise {A = Text × Text × Option Number} (occurrence_used subject)
                else if c
                then raise too_many_occurrences
                else (from_result {A = Option Number} r >>= λ seconds.
                    pure (step_name, subject, seconds)))
              s).1
    by_tests step_name subject s h true e c f r = h
    by_tests step_name subject s h false e true f r = h
    by_tests step_name subject s h false e false f (ok seconds) = (h, (e, f))
    by_tests step_name subject s h false e false f (err x) = h

entered-Tallied :
    (c : Context) (subject : Text)
    → Tallied c
    → any (λ used. used == subject) c.subjects ≡ false
    → leb max_step_occurrences (length c.subjects) ≡ false
    → Distinct (c.subjects ++ subject ∷ [])
      × ((length (c.subjects ++ subject ∷ []) ≤ max_step_occurrences)
          × (suc c.sequence ≡ length (c.subjects ++ subject ∷ [])))
entered-Tallied c subject (d, (l, q)) fresh room = (
  Distinct-snoc c.subjects subject fresh d,
  (
    rw (length-append c.subjects (subject ∷ [])) (ground (arith, room)),
    rw (length-append c.subjects (subject ∷ [])) (omega (arith, q)),
  ),
)

-- Whatever its outcome, a step leaves the subjects of a workflow's steps distinct, at most 1000 of
-- them, and counted by the sequence of its steps, if they were so before.
pub step-Tallied :
    {S : Type 0} (env : Environment S) (slices : ℕ) (name : Text) (function : Callable S)
    (input : Value) (retry : Option RetryPolicy) (timeout : Option Value)
    (occurrence_key : Option Text) (s : Context × S)
    → Tallied s.0
    → Tallied (step env slices name function input retry timeout occurrence_key s).1.0
unfolding step
step-Tallied {S} env slices name function input retry timeout occurrence_key s h = whole.after s h
  where
    policy : RetryPolicy
    policy = policy_or_default env retry

    whole :
        Triple
          (Context × S)
          StepError
          Value
          (λ s. Tallied s.0)
          (step env slices name function input retry timeout occurrence_key)
          (λ r s. Tallied s.0)
    whole =
        Triple->>= (admitted env name timeout occurrence_key) Admitted
          (admitted_new env name timeout occurrence_key) (λ e s h. h)
          (λ (step_name, subject, seconds).
            Triple->>= (check_cancelled env) (λ r s. Admitted (ok (step_name, subject, seconds)) s)
              (check_cancelled-Keeps env (λ c.
                Tallied c
                × ((any (λ used. used == subject) c.subjects ≡ false)
                    × (leb max_step_occurrences (length c.subjects) ≡ false))))
              (λ e s h. h.0)
              (λ u. record {
                after = λ s (t, (fresh, room)).
                    (attempts-Tallied env slices policy function seconds input
                        (rounds policy.max_attempts)
                        (first_attempt env step_name subject (suc s.0.sequence) policy)).after
                      _ (entered-Tallied s.0 subject t fresh room);
              }))
