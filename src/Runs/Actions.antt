-- ===== src/Runs/Actions.antt =====
-- apps/automation/services/runs.py: start, cancel, resume and retry.
pub mod Lifecycle
pub mod Cancellation
pub mod Commands
use cobalt_wren.Prelude.{
  ℕ, Bool, true, false, not, Option, none, some, List, [], ◌∷◌, ◌++◌, if◌then◌else◌, map,
}
use cobalt_wren.Prelude.Dict.{Dict, get, put}
use cobalt_wren.Prelude.Equality.{◌==◌, nat_eq, list_eq}
use cobalt_wren.Prelude.Result.{Result, ok, err}
use cobalt_wren.Prelude.Text.{Text, codes, decimal, strip}
use cobalt_wren.Core.Value.{Value, dict, end}
use cobalt_wren.Runs.Model.{RunStatus, running, failed, cancelled, Run}
use cobalt_wren.Runs.Policy.{
  Caller, PolicyResult, can_start_run, can_cancel_run, can_resume_run, can_retry_run,
}
use cobalt_wren.Runs.Transition.{
  ResultSafety, ControlPlaneExecutionResult, Change, transition_run, finalize_from_execution,
}
use cobalt_wren.Prelude.Action.{Action, pure, raise, gets, modify, ◌>>=◌, ◌>>◌}
use cobalt_wren.Runs.Execution.{
  Active, begin_execution_control, request_cancellation, finish_execution_control, Event, Log,
  run_failed, run_cancelled, EventSink, PreparedWorkflow, Ending, Outcome, ended, escaped,
  OverflowError, granted_seconds, opening_events, closing_events, execution_result,
}

-- The table of runs, the registry of active executions, and the events that were emitted.
pub record ControlPlane : Type 0 where
  pub runs : Dict ℕ Run
  pub active : Active
  pub log : Log

pub data RunError : Type 0 where
  run_does_not_exist : RunError
  permission_error : Text → RunError
  preparation_crashed : Text → RunError
  -- the ValueError of `WorkflowResumeRequest`, and the OverflowError of `float(raw_timeout)`
  blank_checkpoint_id timeout_overflow : RunError
  -- what `run_cancelled` of the event sink raises
  sink_raised : Text → RunError
  -- a `BaseException` out of the workflow
  interrupted : Text → RunError

abbrev pub Service : Type 0 → Type 0
Service = Action ControlPlane RunError

pub record RunActionResult : Type 0 where
  pub run : Run
  pub message : Text
  pub output_payload : Value
  pub execution_result : Option ControlPlaneExecutionResult

-- What `_prepare_workflow_for_run` gives: a `WorkflowConfigurationError` or `FrameworkError` is
-- caught, any other exception is not.
pub data Preparation : Type 0 where
  ready : PreparedWorkflow → Preparation
  refused crashed : Text → Preparation

-- api/workflow.py
pub record WorkflowResumeRequest : Type 0 where
  pub value : Value
  pub checkpoint_id : Option Text

-- The surroundings of one call. `invoke` executes the workflow, or resumes it where there is a
-- request: until it ends, other threads and
-- processes go on, so it may change the whole control plane.
pub record Session : Type 0 where
  pub caller : Caller
  pub started : ℕ
  pub finished : ℕ
  pub preparation : Preparation
  pub event_sink : Option EventSink
  pub invoke : Option WorkflowResumeRequest → ControlPlane → Outcome × ControlPlane

abbrev pub found_run : Option Run → Service Run
found_run none = raise run_does_not_exist
found_run (some run) = pure run

-- `_locked_run`
unfoldable pub locked_run : ℕ → Service Run
locked_run pk plane = found_run (get plane.runs pk) plane

unfoldable pub policy_or_raise : PolicyResult → Service (Unit {0})
policy_or_raise policy = if policy.allowed then pure tt else raise (permission_error policy.reason)

-- `run.save(...)`
unfoldable pub save_run : Run → Service Run
save_run run plane = (ok run, record plane { runs = put plane.runs run.pk run })

unfoldable pub emit : ℕ → List Event → Service (Unit {0})
emit pk events = modify (λ plane. record plane { log = plane.log ++ map (λ e. (pk, e)) events })

abbrev pub emit_to : Option EventSink → ℕ → Event → Service (Unit {0})
emit_to none pk event = pure tt
emit_to (some sink) pk event = emit pk (event ∷ [])

-- `sink.run_cancelled(...)` in `cancel_run`: the event is in the log unless the call raises.
abbrev pub cancelled_or_raise : Option Text → ℕ → Service (Unit {0})
cancelled_or_raise none pk = emit pk (run_cancelled ∷ [])
cancelled_or_raise (some exc) pk = raise (sink_raised exc)

abbrev pub emit_cancelled : Option EventSink → ℕ → Service (Unit {0})
emit_cancelled none pk = pure tt
emit_cancelled (some sink) pk = cancelled_or_raise sink.cancel_failure pk

-- The first transaction of an action: lock, ask the policy, write.
unfoldable pub begin_action : ℕ → (Run → PolicyResult) → (Run → Run) → Service Run
unfolding locked_run policy_or_raise save_run
begin_action pk policy change = do
  run ← locked_run pk
  policy_or_raise (policy run)
  save_run (change run)

abbrev pub to_running : ℕ → Option Text → Run → Run
unfolding transition_run
to_running now thread_id =
    transition_run now
      (record { status = running; thread_id = thread_id; output_payload = none; message = [] })

-- `WorkflowResumeRequest(...)`: the identifier is stripped, and must not be blank.
unfoldable pub resume_request : Value → Option Text → Result RunError (Option WorkflowResumeRequest)
resume_request value none = ok (some (record { value = value; checkpoint_id = none }))
resume_request value (some checkpoint_id) =
    if strip checkpoint_id == []
    then err blank_checkpoint_id
    else ok (some (record { value = value; checkpoint_id = some (strip checkpoint_id) }))

abbrev pub or_raise : {A : Type 0} → Result RunError A → Service A
or_raise result plane = (result, plane)

abbrev pub converted : Result OverflowError (Option Value) → Result RunError (Option Value)
converted (ok seconds) = ok seconds
converted (err e) = err timeout_overflow

-- `except Exception` sees the end of the workflow, or it does not.
abbrev pub ending_or_raise : Outcome → Result RunError Ending
ending_or_raise (ended ending) = ok ending
ending_or_raise (escaped exc) = err (interrupted exc)

module _ (safety : ResultSafety) where
  unfoldable pub handle_runtime_build_failure : Session → ℕ → Text → Service RunActionResult
  unfolding locked_run save_run emit
  handle_runtime_build_failure session pk exc = do
    let safe_message = safety.error_message exc
    run ← locked_run pk
    failed_run ← save_run (
        transition_run session.finished
          (record {
            status = failed;
            thread_id = none;
            output_payload = none;
            message = safe_message;
          })
          run)
    emit_to session.event_sink pk run_failed
    pure (record {
      run = failed_run;
      message = codes "runtime configuration failed";
      output_payload = dict end;
      execution_result = some (record {
        status = failed;
        output_payload = dict end;
        error_message = exc;
        message = codes "runtime configuration failed";
        last_step_name = [];
      });
    })

  -- `_dispatch`. What finishes the execution is in no `finally`: a workflow that is interrupted
  -- leaves its entry in the registry, and its events open.
  unfoldable pub dispatch :
      Session
      → ℕ
      → PreparedWorkflow
      → Option WorkflowResumeRequest
      → Service ControlPlaneExecutionResult
  unfolding emit
  dispatch session pk prepared request = do
    seconds ← or_raise (converted (granted_seconds prepared.timeout_seconds))
    modify (λ plane. record plane {
      active = begin_execution_control pk seconds session.started plane.active;
    })
    emit pk (opening_events prepared session.event_sink)
    outcome ← (λ plane. let (outcome, after) = session.invoke request plane in (ok outcome, after))
    ending ← or_raise (ending_or_raise outcome)
    modify (λ plane. record plane { active = finish_execution_control pk plane.active })
    emit pk (closing_events prepared session.event_sink ending)
    pure (execution_result safety ending)

  unfoldable pub complete_action :
      Session → ℕ → ControlPlaneExecutionResult → Service RunActionResult
  unfolding locked_run save_run
  complete_action session pk result = do
    run ← locked_run pk
    final ← save_run (finalize_from_execution safety session.finished result run)
    pure (record {
      run = final;
      message = result.message;
      output_payload = safety.output_payload result.output_payload;
      execution_result = some result;
    })

  -- What start, resume and retry do after their first transaction. The request of a resume is made
  -- once the workflow is prepared.
  unfoldable pub execute_run :
      Session
      → ℕ
      → Result RunError (Option WorkflowResumeRequest)
      → Preparation
      → Service RunActionResult
  execute_run session pk resumed (refused exc) = handle_runtime_build_failure session pk exc
  execute_run session pk resumed (crashed exc) = raise (preparation_crashed exc)
  execute_run session pk resumed (ready prepared) = do
    request ← or_raise resumed
    result ← dispatch session pk prepared request
    complete_action session pk result

  unfoldable pub start_run : Session → ℕ → Service RunActionResult
  start_run session pk = do
    run ← begin_action pk (can_start_run session.caller) (λ run.
        to_running session.started
          (some (if run.thread_id == [] then codes "run-" ++ decimal run.pk else run.thread_id))
          run)
    execute_run session pk (ok none) session.preparation

  unfoldable pub resume_run : Value → Option Text → Session → ℕ → Service RunActionResult
  resume_run resume_payload checkpoint_id session pk = do
    run ← begin_action pk (can_resume_run session.caller) (to_running session.started none)
    execute_run session pk (resume_request resume_payload checkpoint_id) session.preparation

  unfoldable pub retry_run : Session → ℕ → Service RunActionResult
  retry_run session pk = do
    run ← begin_action pk (can_retry_run session.caller) (to_running session.started none)
    execute_run session pk (ok none) session.preparation

-- The token of a running execution is set before the status is written.
unfoldable pub cancel_run : Session → ℕ → Service RunActionResult
unfolding locked_run policy_or_raise save_run emit
cancel_run session pk = do
  run ← locked_run pk
  policy_or_raise (can_cancel_run session.caller run)
  modify (λ plane. record plane { active = (request_cancellation pk plane.active).1 })
  cancelled_run ← save_run (
      transition_run session.started
        (record { status = cancelled; thread_id = none; output_payload = none; message = [] }) run)
  emit_cancelled session.event_sink pk
  pure (record {
    run = cancelled_run;
    message = codes "run cancelled";
    output_payload = dict end;
    execution_result = none;
  })
