-- ===== src/Native/Examples.antt =====
-- Runs of the native authoring interface, native/, at concrete inputs.
use cobalt_wren.Prelude.{
  ℕ, zero, suc, true, none, some, [], ◌∷◌, ◌≡◌, ◌↔◌, refl, subst, arith, leb, length, if◌then◌else◌,
}
use cobalt_wren.Prelude.Int.{pos}
use cobalt_wren.Prelude.Result.{ok, err}
use cobalt_wren.Prelude.Action.{pure, ◌>>=◌}
use cobalt_wren.Prelude.Text.{codes, strip, lstrip}
use cobalt_wren.Core.Value.{null, int, str, list, dict, nil, cons, Fields, end, field, name}
use cobalt_wren.Core.Compare.{Number, ratio}
use cobalt_wren.Integrations.Emission.{emission_invalid_slot, normalize_label}
use cobalt_wren.Native.Artifacts.{artifact_slot}
use cobalt_wren.Native.Artifacts.Slots.{normalize_label-artifact_slot}
use cobalt_wren.Native.Schema.{
  validate_schema_value, fields_nesting, collect, required_issues, properties_issues, object_issues,
  nested_issues, plain_issues, matches_type,
}
use cobalt_wren.Native.Schema.Conforms.{Conforms}
use cobalt_wren.Native.Schema.Decides.{validate_schema_value_decides}
use cobalt_wren.Native.Policies.{
  RetryPolicy, exception_type, Arithmetic, nothing, check_policy, delay_after, should_retry,
}
use cobalt_wren.Native.Names.{occurrence_identity, required_name, is_occurrence_key}
use cobalt_wren.Native.Names.Identity.{occurrence_identity-injective, stripped}
use cobalt_wren.Native.Steps.{
  Environment, Callable, new_context, step, attempts, settle, check_cancelled, retry_delay,
  attempt_body, effective_timeout, invoke_step,
}
use cobalt_wren.Native.Steps.Order.{Leaves, step-Leaves, ready, nothing_yet, operation, begins}
use cobalt_wren.Native.Steps.Subjects.{Tallied, step-Tallied}
use cobalt_wren.Native.Steps.Total.{Proper, runs_out, step_total}
use cobalt_wren.Native.Executable.{NativeWorkflow, NativeResult, plain, execute, normalize_output}
use cobalt_wren.Native.Buffer.{start, complete, fail, last_step_name, attempt_count}
use cobalt_wren.Native.Replay.{replay, EventSink}
use cobalt_wren.Native.Replay.Spans.{ClosedUnder, with_output, replay_closes}
use cobalt_wren.Native.Buffer.{Attempt, step_started}
use cobalt_wren.Native.Executable.Outcomes.{ConformsTo, execute-Conforms}

abbrev object_schema : Fields
object_schema = field (name (codes "type")) (str (codes "object")) (
    field (name (codes "required")) (list (cons (str (codes "n")) nil)) (
      field (name (codes "properties"))
        (dict (
          field (name (codes "n")) (dict (field (name (codes "type")) (str (codes "integer")) end))
            end))
        end))

abbrev good_payload : Fields
good_payload = field (name (codes "n")) (int (pos 7)) end

validate_schema_value_decides_example :
    (validate_schema_value (dict end) (dict object_schema) ≡ ok tt)
    ↔ Conforms (suc (fields_nesting object_schema)) (dict end) object_schema
validate_schema_value_decides_example = validate_schema_value_decides (dict end) object_schema

-- The function fails on its first call.
abbrev flaky : Callable ℕ
flaky timeout zero = (
  err (record { mro = codes "ConnectionError" ∷ codes "Exception" ∷ []; message = []; notes = [] }),
  1,
)
flaky timeout (suc n) = (ok (int (pos 7)), suc (suc n))

-- Products that do not grow, and differences that are used up at once.
abbrev plain_arithmetic : Arithmetic
plain_arithmetic = record { minus = λ a b. nothing; scaled = λ a b n. some a }

abbrev calm : Environment ℕ
calm = record { control = none; arithmetic = plain_arithmetic; sleep = λ d s. s }

abbrev three_attempts : RetryPolicy
three_attempts = record {
  max_attempts = pos 3;
  retry_on = exception_type (codes "Exception") ∷ [];
  initial_delay_seconds = ratio (pos 1) 0;
  backoff_multiplier = ratio (pos 2) 0;
  max_delay_seconds = ratio (pos 60) 0;
}

step-Leaves_example :
    Leaves
      (step calm 1 (codes "fetch") flaky null (some three_attempts) none none (new_context, 0)).0
      (step calm 1 (codes "fetch") flaky null (some three_attempts) none none (new_context, 0)).1.0
step-Leaves_example =
    step-Leaves calm 1 (codes "fetch") flaky null (some three_attempts) none none (new_context, 0)
      (ready, (tt, nothing_yet))

step-Tallied_example :
    Tallied
      (step calm 1 (codes "fetch") flaky null (some three_attempts) none none (new_context, 0)).1.0
step-Tallied_example =
    step-Tallied calm 1 (codes "fetch") flaky null (some three_attempts) none none (new_context, 0)
      (tt, (omega arith, refl))

three_attempts_valid : check_policy three_attempts ≡ ok tt
unfolding check_policy
three_attempts_valid = refl

first_delay :
    (attempt : ℕ) → delay_after plain_arithmetic three_attempts attempt ≡ some (ratio (pos 1) 0)
unfolding delay_after
first_delay attempt = refl

delays_run_out :
    (attempt : ℕ) (delay : Number)
    → delay_after plain_arithmetic three_attempts attempt ≡ some delay
    → runs_out plain_arithmetic 1 delay ≡ true
unfolding runs_out
delays_run_out attempt delay h =
    subst (λ d. runs_out plain_arithmetic 1 d ≡ true) (same (rw (first_delay attempt) at h)) refl
  where
    same : some (ratio (pos 1) 0) ≡ some delay → ratio (pos 1) 0 ≡ delay
    same e = cc

step_total_example :
    Proper
      (step calm 1 (codes "fetch") flaky null (some three_attempts) none none (new_context, 0)).0
step_total_example =
    step_total calm 1 (codes "fetch") flaky null (some three_attempts) none none (new_context, 0)
      three_attempts_valid delays_run_out

fetch_seven : occurrence_identity (codes "fetch") (some (codes " 7 ")) ≡ ok (codes "fetch:7")
unfolding occurrence_identity strip lstrip is_occurrence_key
fetch_seven = refl

fetch_seven_again : occurrence_identity (codes "fetch") (some (codes "7")) ≡ ok (codes "fetch:7")
unfolding occurrence_identity strip lstrip is_occurrence_key
fetch_seven_again = refl

occurrence_identity-injective_example :
    (codes "fetch" ≡ codes "fetch") × (stripped (some (codes " 7 ")) ≡ stripped (some (codes "7")))
occurrence_identity-injective_example =
    occurrence_identity-injective (codes "fetch") (codes "fetch") (some (codes " 7 "))
      (some (codes "7")) (codes "fetch:7") refl refl fetch_seven fetch_seven_again

-- One step, which succeeds at its second attempt.
abbrev one_step : NativeWorkflow ℕ (Unit {0})
one_step = record {
  workflow_name = codes "count";
  function = λ input.
      step calm 1 (codes "fetch") flaky null (some three_attempts) none none >>= λ v.
      pure (plain v);
  description = [];
  version = codes "0.1.0";
  tags = [];
  input_schema = some object_schema;
  output_schema = none;
  requirements = tt;
}

abbrev counted : NativeResult
counted = record {
  output = field (name (codes "result")) (int (pos 7)) end;
  step_count = 1;
  attempt_count = 2;
  last_step_name = codes "fetch";
}

one_step-counted : (execute one_step none null good_payload 0).0 ≡ ok counted
unfolding execute validate_schema_value collect fields_nesting plain_issues nested_issues
    object_issues required_issues properties_issues matches_type step attempts settle
    check_cancelled retry_delay start complete fail required_name occurrence_identity strip lstrip
    attempt_body effective_timeout invoke_step should_retry delay_after replay normalize_output
    last_step_name attempt_count
one_step-counted = refl

execute-Conforms_example :
    ConformsTo one_step.input_schema good_payload
    × (ConformsTo one_step.output_schema counted.output
        × (counted.step_count ≡ (one_step.function good_payload (new_context, 0)).1.0.sequence))
execute-Conforms_example =
    execute-Conforms one_step none null good_payload 0 counted one_step-counted

-- A sink that counts its spans.
abbrev counting_sink : EventSink ℕ
counting_sink = record { span_started = λ op s. (some s, suc s); call = λ c s. s }

abbrev fetch_attempt : Attempt
fetch_attempt = record {
  name = codes "fetch";
  subject_id = codes "fetch";
  logical_sequence = 1;
  attempt = 1;
  max_attempts = pos 3;
}

replay_closes_example :
    ClosedUnder counting_sink
      (operation 1 fetch_attempt 1 (step_started null) ∷ [])
      1
      1
      fetch_attempt
      (with_output (int (pos 7)))
      40
replay_closes_example =
    replay_closes counting_sink (operation 1 fetch_attempt 1 (step_started null) ∷ []) 1 1 1
      fetch_attempt (with_output (int (pos 7))) 40 (λ op s. (s, refl))
      (begins fetch_attempt null nothing_yet tt refl)

normalize_label-artifact_slot_example :
    normalize_label emission_invalid_slot 64 (artifact_slot (codes "Q3 Report (final).csv")) ≡ (
      if leb (length (artifact_slot (codes "Q3 Report (final).csv"))) 64
      then ok (artifact_slot (codes "Q3 Report (final).csv"))
      else err emission_invalid_slot)
normalize_label-artifact_slot_example =
    normalize_label-artifact_slot emission_invalid_slot (codes "Q3 Report (final).csv")
