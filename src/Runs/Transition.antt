-- ===== src/Runs/Transition.antt =====
-- `_transition_run` and `_finalize_from_execution` of apps/automation/services/runs.py.
use cobalt_wren.Prelude.{ℕ, Bool, true, false, ◌&&◌, ◌||◌, Option, none, some, [], if◌then◌else◌}
use cobalt_wren.Prelude.Equality.{◌==◌, nat_eq, list_eq}
use cobalt_wren.Prelude.Text.{Text}
use cobalt_wren.Core.Value.{Value}
use cobalt_wren.Runs.Model.{RunStatus, running, failed, timed_out, status_beq, is_terminal, Run}

-- core/result_safety.py, as the services use it: the bounded and redacted forms of an output and
-- of an error message.
pub record ResultSafety : Type 0 where
  pub output_payload : Value → Value
  pub error_message : Text → Text

-- services/execution_result.py
pub record ControlPlaneExecutionResult : Type 0 where
  pub status : RunStatus
  pub output_payload : Value
  pub error_message : Text
  pub message : Text
  pub last_step_name : Text

-- The keyword arguments: `none` where the caller leaves them out.
pub record Change : Type 0 where
  pub status : RunStatus
  pub thread_id : Option Text
  pub output_payload : Option Value
  pub message : Text

abbrev pub or_else {ℓ} : {A : Type ℓ} → Option A → A → A
or_else none d = d
or_else (some a) d = a

abbrev pub is_none {ℓ} : {A : Type ℓ} → Option A → Bool
is_none none = true
is_none (some a) = false

-- `now` is the clock at the call. A new value for `thread_id` that equals the old one is no change.
unfoldable pub transition_run : ℕ → Change → Run → Run
transition_run now change run = record {
  pk = run.pk;
  status = change.status;
  thread_id = or_else change.thread_id run.thread_id;
  input_payload = run.input_payload;
  output_payload = or_else change.output_payload run.output_payload;
  error_message = if change.message == [] then run.error_message else change.message;
  started_at =
      if status_beq change.status running && is_none run.started_at
      then some now
      else run.started_at;
  finished_at = if is_terminal change.status then some now else run.finished_at;
  updated_at = now;
}

unfoldable pub finalize_from_execution : ResultSafety → ℕ → ControlPlaneExecutionResult → Run → Run
unfolding transition_run
finalize_from_execution safety now execution_result run =
    let status = execution_result.status in
    transition_run now
      (record {
        status = status;
        thread_id = none;
        output_payload = some (safety.output_payload execution_result.output_payload);
        message =
            if status_beq status failed || status_beq status timed_out
            then safety.error_message execution_result.error_message
            else [];
      })
      run
