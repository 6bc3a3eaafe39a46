-- ===== src/Runs/Execution.antt =====
-- apps/automation/services/execution.py and execution_control.py: one execution of a prepared
-- workflow, its events and its entry in the registry of active executions.
pub mod Events
use cobalt_wren.Prelude.{
  ℕ, zero, suc, ◌+◌, Bool, true, false, not, ◌&&◌, Option, none, some, List, [], ◌∷◌, ◌++◌, ltb,
  if◌then◌else◌,
}
use Prim.Native.Nat.{◌^◌}
use cobalt_wren.Prelude.Result.{Result, ok, err}
use cobalt_wren.Prelude.Dict.{Dict, get, put, pop}
use cobalt_wren.Prelude.Equality.{nat_eq}
use cobalt_wren.Prelude.Int.{pos, negsuc}
use cobalt_wren.Prelude.Text.{Text, codes}
use cobalt_wren.Core.Value.{Value, int, float, dict, Fields, end, Float, nan, infinity, finite}
use cobalt_wren.Runs.Model.{RunStatus, waiting, succeeded, failed, timed_out, cancelled, Run}
use cobalt_wren.Runs.Transition.{ResultSafety, ControlPlaneExecutionResult}

-- `_ActiveControl`: the deadline is the clock at the start and the seconds that were granted.
pub record ActiveControl : Type 0 where
  pub cancelled : Bool
  pub deadline : Option (ℕ × Value)

-- `_active`, by the key of the run.
abbrev pub Active : Type 0
Active = Dict ℕ ActiveControl

unfoldable pub begin_execution_control : ℕ → Option Value → ℕ → Active → Active
begin_execution_control run_id timeout_seconds now active = put active run_id (record {
  cancelled = false;
  deadline = elim timeout_seconds [ none ↦ none | some seconds ↦ some (now, seconds) ];
})

abbrev cancel_found : ℕ → Active → Option ActiveControl → Bool × Active
cancel_found run_id active none = (false, active)
cancel_found run_id active (some control) =
    (true, put active run_id (record control { cancelled = true }))

unfoldable pub request_cancellation : ℕ → Active → Bool × Active
request_cancellation run_id active = cancel_found run_id active (get active run_id)

unfoldable pub finish_execution_control : ℕ → Active → Active
finish_execution_control run_id active = pop active run_id

-- The lifecycle events that an execution emits.
pub data Event : Type 0 where
  run_started span_started span_failed span_completed : Event
  run_cancelled run_failed run_completed : Event

-- An event with the run that it is of.
abbrev pub Log : Type 0
Log = List (ℕ × Event)

-- What the event sink does with `span_started`, and the exception that `run_cancelled` raises in
-- `cancel_run`, where nothing suppresses it. The failures of its other calls are suppressed.
pub record EventSink : Type 0 where
  pub starts_spans : Bool
  pub cancel_failure : Option Text

-- `EnginePreparedWorkflow`, as far as the execution reads it.
pub record PreparedWorkflow : Type 0 where
  pub control_plane_owns_lifecycle : Bool
  pub timeout_seconds : Value

-- An `Exception` out of the workflow: a `FrameworkError` by its class, with its safe message, or
-- any other with its text.
pub data Failure : Type 0 where
  workflow_cancelled workflow_timeout framework foreign : Text → Failure

-- `WorkflowExecutionResult`
pub record WorkflowResult : Type 0 where
  pub paused : Bool
  pub output : Value
  pub last_step_name : Text

-- A call of the workflow that `except Exception` sees the end of.
pub data Ending : Type 0 where
  returned : WorkflowResult → Ending
  raised : Failure → Ending

-- `escaped` is a `BaseException` that is no `Exception`, such as KeyboardInterrupt.
pub data Outcome : Type 0 where
  ended : Ending → Outcome
  escaped : Text → Outcome

-- The OverflowError of `float` on an integer beyond the largest double.
pub data OverflowError : Type 0 where
  overflow_error : OverflowError

-- `float(n)`, before it is rounded: from halfway between the largest double and 2 ^ 1024 it raises.
unfoldable pub float_of : ℕ → Result OverflowError (Option Value)
float_of n = if ltb (n + 2 ^ 970) (2 ^ 1024) then ok (some (int (pos n))) else err overflow_error

-- The seconds that are granted: a positive number that is no `bool`, as a float.
unfoldable pub granted_seconds : Value → Result OverflowError (Option Value)
granted_seconds (int (pos zero)) = ok none
granted_seconds (int (pos (suc n))) = float_of (suc n)
granted_seconds (int (negsuc n)) = ok none
granted_seconds (float (finite (pos zero) e)) = ok none
granted_seconds (float (finite (pos (suc m)) e)) = ok (some (float (finite (pos (suc m)) e)))
granted_seconds (float (infinity false)) = ok (some (float (infinity false)))
granted_seconds _ = ok none

-- Whether the execution reports to a sink.
abbrev pub reports : PreparedWorkflow → Option EventSink → Bool
reports prepared none = false
reports prepared (some sink) = prepared.control_plane_owns_lifecycle

-- Whether `graph_span` is set.
abbrev pub has_span : PreparedWorkflow → Option EventSink → Bool
has_span prepared none = false
has_span prepared (some sink) = prepared.control_plane_owns_lifecycle && sink.starts_spans

-- Before the workflow is called.
unfoldable pub opening_events : PreparedWorkflow → Option EventSink → List Event
opening_events prepared sink =
    (if reports prepared sink then run_started ∷ [] else [])
    ++ (if has_span prepared sink then span_started ∷ [] else [])

abbrev pub is_cancellation : Failure → Bool
is_cancellation (workflow_cancelled _) = true
is_cancellation _ = false

-- After a workflow whose end is seen.
unfoldable pub closing_events : PreparedWorkflow → Option EventSink → Ending → List Event
closing_events prepared sink (raised failure) =
    (if has_span prepared sink then span_failed ∷ [] else [])
    ++ (if reports prepared sink
        then (if is_cancellation failure then run_cancelled else run_failed) ∷ []
        else [])
closing_events prepared sink (returned result) =
    (if has_span prepared sink then span_completed ∷ [] else [])
    ++ (if reports prepared sink && not result.paused then run_completed ∷ [] else [])

-- `normalized_error.safe_message`
abbrev safe_message : ResultSafety → Failure → Text
safe_message safety (workflow_cancelled message) = message
safe_message safety (workflow_timeout message) = message
safe_message safety (framework message) = message
safe_message safety (foreign text) = safety.error_message text

abbrev pub failure_status : Failure → RunStatus
failure_status (workflow_cancelled _) = cancelled
failure_status (workflow_timeout _) = timed_out
failure_status _ = failed

unfoldable pub execution_result : ResultSafety → Ending → ControlPlaneExecutionResult
execution_result safety (raised failure) = record {
  status = failure_status failure;
  output_payload = dict end;
  error_message = safe_message safety failure;
  message = codes "run failed";
  last_step_name = [];
}
execution_result safety (returned result) = record {
  status = if result.paused then waiting else succeeded;
  output_payload = result.output;
  error_message = [];
  message = if result.paused then codes "run paused" else codes "run completed";
  last_step_name = result.last_step_name;
}
