-- ===== src/Native/Steps.antt =====
-- `NativeWorkflowContext` of native/__init__.py: observed steps with retries, time limits and
-- cancellation. What the workflow's functions, its control and the clock do is a parameter, on a
-- state `S` of the world.
pub mod Unchanged
pub mod Order
pub mod Subjects
pub mod Total
use cobalt_wren.Prelude.{
  ℕ, zero, suc, ◌+◌, Bool, true, false, not, ◌&&◌, ◌||◌, Option, none, some, List, [], ◌∷◌, ◌++◌,
  any, leb, length, if◌then◌else◌,
}
use cobalt_wren.Prelude.Action.{Action, pure, raise, gets, modify, ◌>>=◌, ◌>>◌}
use cobalt_wren.Prelude.Equality.{◌==◌, nat_eq, list_eq}
use cobalt_wren.Prelude.Int.{ℤ, pos, negsuc}
use cobalt_wren.Prelude.Result.{Result, ok, err}
use cobalt_wren.Prelude.Text.{Text, codes}
use cobalt_wren.Core.Value.{Value, bool}
use cobalt_wren.Core.Compare.{Number, ratio, number_of, number_lt, number_beq}
use cobalt_wren.Native.Policies.{
  Raised, is_instance, RetryPolicy, Arithmetic, nothing, number_min, should_retry, delay_after,
  no_retry,
}
use cobalt_wren.Native.Names.{NameError, required_name, occurrence_identity}
use cobalt_wren.Native.Buffer.{Attempt, Observations, no_observations, start, complete, fail}

-- What a step raises: exceptions of its own, or one that it let through.
pub data StepError : Type 0 where
  bad_name : NameError → StepError
  occurrence_used : Text → StepError
  too_many_occurrences : StepError
  timeout_not_positive timeout_not_number : StepError
  delay_overflow : StepError
  retry_loop_exhausted : StepError
  thrown : Raised → StepError
  -- the model's own: the delay takes more slices than it is given
  delay_unfinished : StepError

-- `control` of the execution's context.
pub record Control (S : Type 0) : Type 0 where
  pub check : Action S Raised (Unit {0})
  pub remaining_seconds : S → Option Number

pub record Environment (S : Type 0) : Type 0 where
  pub control : Option (Control S)
  pub arithmetic : Arithmetic
  pub sleep : Number → S → S

-- A step's function with its arguments, run under a time limit if there is one.
abbrev pub Callable : Type 0 → Type 0
Callable S = Option Number → Action S Raised Value

-- `NativeWorkflowContext`, as far as steps change it.
pub record Context : Type 0 where
  pub observations : Observations
  pub sequence : ℕ
  pub subjects : List Text

abbrev pub new_context : Context
new_context = record { observations = no_observations; sequence = 0; subjects = [] }

abbrev pub max_step_occurrences : ℕ
max_step_occurrences = 1000

abbrev pub workflow_timeout_error : Raised
workflow_timeout_error = record {
  mro =
      codes "WorkflowTimeoutError"
      ∷ codes "ExecutionError"
      ∷ codes "FrameworkError"
      ∷ codes "Exception"
      ∷ [];
  message = codes "Native step execution timed out.";
  notes = [];
}

-- 0.1 as a float
abbrev pub slice : Number
slice = ratio (pos 3602879701896397) 55

-- `len(range(1, n + 1))`
abbrev pub rounds : ℤ → ℕ
rounds (pos n) = n
rounds (negsuc n) = 0

abbrev pub not_positive : Number → Bool
not_positive n = number_lt n nothing || number_beq n nothing

abbrev pub checked_timeout : Option Value → Result StepError (Option Number)
checked_timeout none = ok none
checked_timeout (some (bool b)) = err timeout_not_positive
checked_timeout (some value) = elim (number_of value) [
  | none ↦ err timeout_not_number
  | some n ↦ if not_positive n then err timeout_not_positive else ok (some n)
]

abbrev pub as_name : {A : Type 0} → Result NameError A → Result StepError A
as_name (ok a) = ok a
as_name (err e) = err (bad_name e)

abbrev pub shorter : Option Number → Option Number → Option Number
shorter none remaining = remaining
shorter (some requested) none = some requested
shorter (some requested) (some remaining) = some (number_min requested remaining)

-- Calls on the context, beside the world.
abbrev pub Calls : Type 0 → Type 0 → Type 0
Calls S A = Action (Context × S) StepError A

abbrev pub timeout_translated : {A : Type 0} → Result Raised A → Result Raised A
timeout_translated (ok a) = ok a
timeout_translated (err e) =
    if is_instance e (codes "TimeoutError" ∷ []) then err workflow_timeout_error else err e

module _ {S : Type 0} where
  abbrev pub check_control : Option (Control S) → Action S Raised (Unit {0})
  check_control none = pure tt
  check_control (some control) = control.check

  abbrev pub check_expired : Control S → Option Number → Action S Raised (Unit {0})
  check_expired control none = pure tt
  check_expired control (some remaining) = if not_positive remaining then control.check else pure tt

  -- `_effective_timeout`
  unfoldable pub effective_timeout :
      Option (Control S) → Option Number → Action S Raised (Option Number)
  effective_timeout none requested = pure requested
  effective_timeout (some control) requested = gets (control.remaining_seconds) >>= λ remaining.
      check_expired control remaining >> pure (shorter requested remaining)

  -- `_invoke_step`
  unfoldable pub invoke_step : Callable S → Option Number → Action S Raised Value
  invoke_step function timeout s =
      let done = function timeout s in (timeout_translated (done.0), done.1)

  -- The body of the `try` of an attempt.
  unfoldable pub attempt_body : Environment S → Callable S → Option Number → Action S Raised Value
  unfolding effective_timeout invoke_step
  attempt_body env function requested = effective_timeout env.control requested >>= λ timeout.
      (invoke_step function timeout >>= λ result. check_control env.control >> pure result)

  abbrev pub from_result : {A : Type 0} → Result StepError A → Calls S A
  from_result (ok a) = pure a
  from_result (err e) = raise e

  -- The outcome of a call on the world as a value.
  abbrev pub caught : {A : Type 0} → Action S Raised A → Calls S (Result Raised A)
  caught m s = let done = m (s.1) in (ok (done.0), (s.0, done.1))

  abbrev pub passed_on : {A : Type 0} → Result Raised A → Calls S A
  passed_on (ok a) = pure a
  passed_on (err e) = raise (thrown e)

  abbrev pub observe : (Observations → Observations) → Calls S (Unit {0})
  observe f = modify λ s. (record (s.0) { observations = f (s.0.observations) }, s.1)

  abbrev pub started_span : Attempt → Value → Calls S ℕ
  started_span of input = observe (start of input) >> gets λ s. s.0.observations.span_counter

module _ {S : Type 0} (env : Environment S) where
  unfoldable pub check_cancelled : Calls S (Unit {0})
  check_cancelled = caught (check_control env.control) >>= passed_on

  -- `_retry_delay`, in at most `slices` rounds of its loop.
  unfoldable pub retry_delay : ℕ → Number → Calls S (Unit {0})
  unfolding check_cancelled
  retry_delay zero remaining =
      if number_lt nothing remaining then raise delay_unfinished else check_cancelled
  retry_delay (suc slices) remaining =
      let interval = number_min remaining slice in
      let rest = retry_delay slices (env.arithmetic.minus remaining interval) in
      if number_lt nothing remaining
      then check_cancelled >> (modify (λ s. (s.0, env.sleep interval s.1)) >> rest)
      else check_cancelled

  abbrev pub delayed : ℕ → Option Number → Calls S (Unit {0})
  delayed slices none = raise delay_overflow
  delayed slices (some delay) = retry_delay slices delay

  -- `isinstance(e, Exception)`
  abbrev pub is_exception : Raised → Bool
  is_exception e = is_instance e (codes "Exception" ∷ [])

  abbrev pub is_cancellation : Raised → Bool
  is_cancellation e = is_instance e (codes "WorkflowCancelledError" ∷ [])

  abbrev pub with_note : Raised → Attempt → Raised
  with_note e of = record e { notes = e.notes ++ (of.name, of.attempt, of.max_attempts) ∷ [] }

  -- The `except Exception` of an attempt: `next` are the attempts after the delay.
  unfoldable pub settle_exception :
      ℕ → RetryPolicy → Attempt → ℕ → Calls S Value → Raised → Calls S Value
  unfolding retry_delay
  settle_exception slices policy of span next e =
      let will_retry = not (is_cancellation e) && should_retry policy e of.attempt in
      observe (fail span of will_retry)
      >> (if will_retry
          then delayed slices (delay_after env.arithmetic policy of.attempt) >> next
          else raise (thrown (with_note e of)))

  -- What follows the `try` of an attempt. A `BaseException` that is no `Exception` passes: the
  -- attempt stays open.
  unfoldable pub settle :
      ℕ → RetryPolicy → Attempt → ℕ → Calls S Value → Result Raised Value → Calls S Value
  unfolding settle_exception
  settle slices policy of span next (ok result) = observe (complete span of result) >> pure result
  settle slices policy of span next (err e) =
      if is_exception e then settle_exception slices policy of span next e else raise (thrown e)

  -- The loop of `step`, from the attempt that `of` says, for `left` more attempts.
  unfoldable pub attempts :
      ℕ → RetryPolicy → Callable S → Option Number → Value → ℕ → Attempt → Calls S Value
  unfolding check_cancelled settle
  attempts slices policy function timeout input zero of = raise retry_loop_exhausted
  attempts slices policy function timeout input (suc left) of =
      let next =
        attempts slices policy function timeout input left
          (record of { attempt = suc of.attempt }) in
      check_cancelled
      >> (started_span of input >>= λ span.
          (caught (attempt_body env function timeout) >>= settle slices policy of span next))

  -- The tests of `step` before it changes anything: its name, its subject and its time limit.
  abbrev pub admitted : Text → Option Value → Option Text → Calls S (Text × Text × Option Number)
  admitted name timeout occurrence_key =
      from_result (as_name (required_name name (codes "step name"))) >>= λ step_name.
      (from_result (as_name (occurrence_identity step_name occurrence_key)) >>= λ subject.
      (gets (λ s. s.0.subjects) >>= λ subjects.
      (if any (λ used. used == subject) subjects
        then raise (occurrence_used subject)
        else if leb max_step_occurrences (length subjects)
        then raise too_many_occurrences
        else (from_result (checked_timeout timeout) >>= λ seconds.
            pure (step_name, subject, seconds)))))

  abbrev pub entered : Text → Context → Context
  entered subject c = record c { subjects = c.subjects ++ subject ∷ []; sequence = suc c.sequence }

  abbrev pub policy_or_default : Option RetryPolicy → RetryPolicy
  policy_or_default none = no_retry
  policy_or_default (some policy) = policy

  abbrev pub first_attempt : Text → Text → ℕ → RetryPolicy → Attempt
  first_attempt step_name subject logical_sequence policy = record {
    name = step_name;
    subject_id = subject;
    logical_sequence = logical_sequence;
    attempt = 1;
    max_attempts = policy.max_attempts;
  }

  -- `step`
  unfoldable pub step :
      ℕ
      → Text
      → Callable S
      → Value
      → Option RetryPolicy
      → Option Value
      → Option Text
      → Calls S Value
  unfolding check_cancelled attempts
  step slices name function input retry timeout occurrence_key =
      let policy = policy_or_default retry in
      admitted name timeout occurrence_key >>= λ (step_name, subject, seconds).
      (check_cancelled
        >> (modify (λ s. (entered subject (s.0), s.1))
            >> (gets (λ s. s.0.sequence) >>= λ logical_sequence.
                attempts slices policy function seconds input (rounds policy.max_attempts)
                  (first_attempt step_name subject logical_sequence policy))))
