-- ===== src/Native/Steps/Order.antt =====
-- The operations that the steps of native/__init__.py record, as the runs of a state machine.
use cobalt_wren.Prelude.{
  ℕ, zero, suc, Bool, true, false, not, ◌&&◌, Option, List, [], ◌∷◌, ◌++◌, if◌then◌else◌, ◌≡◌, refl,
  ◌⊎◌, inl, inr,
}
use cobalt_wren.Prelude.Action.{raise, ◌>>◌}
use cobalt_wren.Prelude.Action.Triple.{Triple, Triple->>=}
use cobalt_wren.Prelude.Equality.{nat_eq, list_eq}
use cobalt_wren.Prelude.Int.{pos}
use cobalt_wren.Prelude.Result.{Result, ok, err}
use cobalt_wren.Prelude.Text.{Text, codes}
use cobalt_wren.Core.Compare.{Number, int_lt}
use cobalt_wren.Core.Value.{Value}
use cobalt_wren.Native.Policies.{Raised, is_instance, RetryPolicy, should_retry, delay_after}
use cobalt_wren.Native.Buffer.{
  Attempt, Operation, Happening, step_started, step_completed, step_failed, retrying, failed, start,
  complete, fail,
}
use cobalt_wren.Native.Steps.{
  StepError, thrown, retry_loop_exhausted, Environment, Callable, Context, Calls, caught, observe,
  started_span, check_cancelled, delayed, is_exception, settle_exception, settle, attempts,
  attempt_body, admitted, first_attempt, policy_or_default, rounds, step, is_cancellation,
  with_note,
}
use cobalt_wren.Native.Steps.Unchanged.{check_cancelled-Keeps, delayed-Keeps, admitted-Keeps}

-- Where the machine stands: no attempt is open, one is (with its span), or one failed and is to be
-- repeated.
pub data Stage : Type 0 where
  ready : Stage
  running : Attempt → ℕ → Stage
  waiting : Attempt → Stage

-- A step may begin in any stage but that of an open attempt: a delay may be cut off.
abbrev pub AtRest : Stage → Type 0
AtRest (running of span) = ⊥
AtRest _ = Unit

abbrev pub next_attempt : Attempt → Attempt
next_attempt of = record of { attempt = suc of.attempt }

abbrev pub operation : ℕ → Attempt → ℕ → Happening → Operation
operation span of event happening = record {
  symbolic_span = span;
  of = of;
  event_sequence = event;
  happening = happening;
}

-- The operations that the machine may record, with the numbers of events and spans so far. Events
-- and spans are numbered from 1 in their order; the first attempt of a step is 1 and each repeated
-- attempt is one more, of the same step; what closes an attempt has its span; an attempt is
-- repeated only below the limit of attempts.
pub data Trace : List Operation → ℕ → ℕ → Stage → Type 0 where
  nothing_yet : Trace [] 0 0 ready
  begins :
      {ops : List Operation} {events spans : ℕ} {stage : Stage} (of : Attempt) (input : Value)
      → Trace ops events spans stage
      → AtRest stage
      → of.attempt ≡ 1
      → Trace
          (ops ++ operation (suc spans) of (suc events) (step_started input) ∷ [])
          (suc events)
          (suc spans)
          (running of (suc spans))
  repeats :
      {ops : List Operation} {events spans : ℕ} (of : Attempt) (input : Value)
      → Trace ops events spans (waiting of)
      → Trace
          (ops ++ operation (suc spans) (next_attempt of) (suc events) (step_started input) ∷ [])
          (suc events)
          (suc spans)
          (running (next_attempt of) (suc spans))
  completes :
      {ops : List Operation} {events spans span : ℕ} (of : Attempt) (output : Value)
      → Trace ops events spans (running of span)
      → Trace
          (ops ++ operation span of (suc events) (step_completed output) ∷ [])
          (suc events)
          spans
          ready
  fails :
      {ops : List Operation} {events spans span : ℕ} (of : Attempt)
      → Trace ops events spans (running of span)
      → Trace
          (ops ++ operation span of (suc events) (step_failed failed) ∷ [])
          (suc events)
          spans
          ready
  retries :
      {ops : List Operation} {events spans span : ℕ} (of : Attempt)
      → Trace ops events spans (running of span)
      → int_lt (pos of.attempt) of.max_attempts ≡ true
      → Trace
          (ops ++ operation span of (suc events) (step_failed retrying) ∷ [])
          (suc events)
          spans
          (waiting of)

abbrev pub Reached : Stage → Context → Type 0
Reached stage c =
    Trace c.observations.operations c.observations.event_counter c.observations.span_counter stage

-- The machine is at rest, as before and after each step.
abbrev pub Orderly : Context → Type 0
Orderly c = (stage : Stage) × (AtRest stage × Reached stage c)

-- The exception of a step is beyond `Exception`, as a KeyboardInterrupt.
abbrev pub IsInterrupt : Result StepError Value → Type 0
IsInterrupt (err (thrown e)) = is_instance e (codes "Exception" ∷ []) ≡ false
IsInterrupt _ = ⊥

-- A step leaves the machine at rest, or an attempt is open that such an exception broke off.
abbrev pub Leaves : Result StepError Value → Context → Type 0
Leaves r c = (stage : Stage) × ((IsInterrupt r ⊎ AtRest stage) × Reached stage c)

at_rest : (r : Result StepError Value) (c : Context) → Orderly c → Leaves r c
at_rest r c (stage, (rest, t)) = (stage, (inr rest, t))

-- An attempt may begin here: it is the first, or repeats the one before.
abbrev MayBegin : Attempt → Context → Type 0
MayBegin of c =
    (input : Value)
    → Reached (running of (suc c.observations.span_counter))
        (record c { observations = start of input c.observations })

-- A postcondition where only results matter: a call that raises leaves the machine at rest.
abbrev Then : {S A : Type 0} → (A → Context → Type 0) → Result StepError A → Context × S → Type 0
Then Q (ok a) s = Q a s.0
Then Q (err e) s = Orderly s.0

module _ {S : Type 0} (env : Environment S) (slices : ℕ) (policy : RetryPolicy) where
  module _ (of : Attempt) (limit : of.max_attempts ≡ policy.max_attempts) (next : Calls S Value)
      (repeated : Triple
        (Context × S)
        StepError
        Value
        (λ s. Orderly s.0 × MayBegin (next_attempt of) s.0)
        next
        (λ r s. Leaves r s.0)) where
    settle_exception-Leaves :
        (span : ℕ) (e : Raised)
        → Triple
            (Context × S)
            StepError
            Value
            (λ s. Reached (running of span) s.0)
            (settle_exception env slices policy of span next e)
            (λ r s. Leaves r s.0)
    unfolding settle_exception complete fail start should_retry
    settle_exception-Leaves span e =
        by_decision (not (is_cancellation env e) && should_retry policy e of.attempt)
          (below_limit (not (is_cancellation env e)))
      where
        left_of : (a b c : Bool) → (b && (a && c)) ≡ true → a ≡ true
        left_of true b c h = refl
        left_of false true c h = h
        left_of false false c h = h

        below_limit :
            (b : Bool)
            → (b && should_retry policy e of.attempt) ≡ true
            → int_lt (pos of.attempt) of.max_attempts ≡ true
        below_limit b h = rw limit (left_of (int_lt (pos of.attempt) policy.max_attempts) b _ h)

        by_decision :
            (b : Bool)
            → (b ≡ true → int_lt (pos of.attempt) of.max_attempts ≡ true)
            → Triple
                (Context × S)
                StepError
                Value
                (λ s. Reached (running of span) s.0)
                (observe (fail span of b)
                  >> (if b
                      then delayed env slices (delay_after env.arithmetic policy of.attempt) >> next
                      else raise (thrown (with_note env e of))))
                (λ r s. Leaves r s.0)
        by_decision true h =
            Triple->>=
              {f = λ u. delayed env slices (delay_after env.arithmetic policy of.attempt) >> next}
              (observe (fail span of true)) (λ r s. Reached (waiting of) s.0)
              (record { after = λ s t. retries of t (h refl) })
              (λ e s t. at_rest (err e) s.0 (waiting of, (tt, t)))
              (λ u.
                Triple->>= {f = λ v. next}
                  (delayed env slices (delay_after env.arithmetic policy of.attempt))
                  (λ r s. Reached (waiting of) s.0)
                  (delayed-Keeps env (λ c. Reached (waiting of) c) slices
                    (delay_after env.arithmetic policy of.attempt))
                  (λ e s t. at_rest (err e) s.0 (waiting of, (tt, t)))
                  (λ v. record {
                    after = λ s t.
                        repeated.after s ((waiting of, (tt, t)), λ input. repeats of input t);
                  }))
        by_decision false h = record { after = λ s t. (ready, (inr tt, fails of t)) }

    settle-Leaves :
        (span : ℕ) (r : Result Raised Value)
        → Triple
            (Context × S)
            StepError
            Value
            (λ s. Reached (running of span) s.0)
            (settle env slices policy of span next r)
            (λ r s. Leaves r s.0)
    unfolding settle complete
    settle-Leaves span (ok result) = record {
      after = λ s t. (ready, (inr tt, completes of result t));
    }
    settle-Leaves span (err e) = by_class (is_exception env e) refl
      where
        by_class :
            (b : Bool)
            → is_exception env e ≡ b
            → Triple
                (Context × S)
                StepError
                Value
                (λ s. Reached (running of span) s.0)
                (if b then settle_exception env slices policy of span next e else raise (thrown e))
                (λ r s. Leaves r s.0)
        by_class true h = settle_exception-Leaves span e
        by_class false h = record { after = λ s t. (running of span, (inl h, t)) }

  attempts-Leaves :
      (function : Callable S) (timeout : Option Number) (input : Value) (left : ℕ) (of : Attempt)
      → of.max_attempts ≡ policy.max_attempts
      → Triple
          (Context × S)
          StepError
          Value
          (λ s. Orderly s.0 × MayBegin of s.0)
          (attempts env slices policy function timeout input left of)
          (λ r s. Leaves r s.0)
  unfolding attempts start
  attempts-Leaves function timeout input zero of limit = record {
    after = λ s h. at_rest (err retry_loop_exhausted) s.0 h.0;
  }
  attempts-Leaves function timeout input (suc left) of limit =
      Triple->>= (check_cancelled env) (λ r s. Orderly s.0 × MayBegin of s.0)
        (check_cancelled-Keeps env (λ c. Orderly c × MayBegin of c))
        (λ e s h. at_rest (err e) s.0 h.0)
        (λ u.
          Triple->>= (started_span of input) (Then λ span c. Reached (running of span) c)
            (record { after = λ s h. h.1 input }) (λ e s h. at_rest (err e) s.0 h)
            (λ span.
              Triple->>= (caught (attempt_body env function timeout))
                (Then λ r c. Reached (running of span) c) (record { after = λ s h. h })
                (λ e s h. at_rest (err e) s.0 h)
                (settle-Leaves of limit
                  (attempts env slices policy function timeout input left (next_attempt of))
                  (attempts-Leaves function timeout input left (next_attempt of) limit) span)))

-- Whatever a step's function, its control and the clock do, and whatever the step's outcome is, it
-- leaves the recorded operations as a run of the machine, if they were one at rest before: events
-- and spans are numbered in their order without gaps, attempts go up from 1 and are repeated only
-- below their limit, and each attempt that was started is closed under its own span. The last
-- attempt alone may stay open, and only if the step raises an exception that is no `Exception`.
pub step-Leaves :
    {S : Type 0} (env : Environment S) (slices : ℕ) (name : Text) (function : Callable S)
    (input : Value) (retry : Option RetryPolicy) (timeout : Option Value)
    (occurrence_key : Option Text) (s : Context × S)
    → Orderly s.0
    → Leaves
        (step env slices name function input retry timeout occurrence_key s).0
        (step env slices name function input retry timeout occurrence_key s).1.0
unfolding step start
step-Leaves {S} env slices name function input retry timeout occurrence_key s h = whole.after s h
  where
    policy : RetryPolicy
    policy = policy_or_default env retry

    whole :
        Triple
          (Context × S)
          StepError
          Value
          (λ s. Orderly s.0)
          (step env slices name function input retry timeout occurrence_key)
          (λ r s. Leaves r s.0)
    whole =
        Triple->>= (admitted env name timeout occurrence_key) (λ r s. Orderly s.0)
          (admitted-Keeps env (λ c. Orderly c) name timeout occurrence_key)
          (λ e s h. at_rest (err e) s.0 h)
          (λ (step_name, subject, seconds).
            Triple->>= (check_cancelled env) (λ r s. Orderly s.0)
              (check_cancelled-Keeps env (λ c. Orderly c)) (λ e s h. at_rest (err e) s.0 h)
              (λ u. record {
                after = λ s (stage, (rest, t)).
                    (attempts-Leaves env slices policy function seconds input
                        (rounds policy.max_attempts)
                        (first_attempt env step_name subject (suc s.0.sequence) policy) refl).after
                      _ ((stage, (rest, t)), λ input. begins _ input t rest refl);
              }))
