-- ===== src/Runs/Examples.antt =====
-- The theorems on runs at a concrete control plane.
use cobalt_wren.Prelude.{true, false, none, some, [], ◌∷◌, ◌++◌, ◌≡◌, refl}
use cobalt_wren.Prelude.Dict.{get}
use cobalt_wren.Prelude.Equality.{nat_eq, list_eq}
use cobalt_wren.Prelude.Result.{err}
use cobalt_wren.Prelude.Text.{codes, strip, lstrip}
use cobalt_wren.Core.Value.{dict, end, null}
use cobalt_wren.Runs.Model.{pending, waiting, succeeded, cancelled, Run}
use cobalt_wren.Runs.Policy.{
  can_start_run, can_cancel_run, can_resume_run, permission, combine, result,
}
use cobalt_wren.Runs.Transition.{ResultSafety, ControlPlaneExecutionResult}
use cobalt_wren.Runs.Execution.{
  EventSink, PreparedWorkflow, Ending, returned, ended, escaped, granted_seconds, opening_events,
  closing_events,
}
use cobalt_wren.Runs.Execution.Events.{
  observe_all, silent, going, opened, span_if, expected, observe_execution,
}
use cobalt_wren.Runs.Actions.{
  ControlPlane, permission_error, ready, Session, cancel_run, dispatch, complete_action,
}
use cobalt_wren.Runs.Actions.Lifecycle.{Settled, IsPreparable, IsSeen}
use cobalt_wren.Runs.Actions.Cancellation.{
  Leaves, dispatch-Leaves, signalled, cancel_run_lem, complete_action-cancel_run,
}
use cobalt_wren.Runs.Actions.Commands.{
  Execution, executes, starts, resumes, IsWellFormed, policy_of, execute, perform, Admits,
  policy-Admits, perform-denied, execute-Settled,
}

abbrev pending_run : Run
pending_run = record {
  pk = 3;
  status = pending;
  thread_id = [];
  input_payload = dict end;
  output_payload = dict end;
  error_message = [];
  started_at = none;
  finished_at = none;
  updated_at = 0;
}

abbrev plane_of : Run → ControlPlane
plane_of run = record { runs = (3, run) ∷ []; active = []; log = [] }

abbrev sink : EventSink
sink = record { starts_spans = true; cancel_failure = none }

abbrev prepared : PreparedWorkflow
prepared = record { control_plane_owns_lifecycle = true; timeout_seconds = null }

abbrev ending : Ending
ending = returned (record { paused = false; output = dict end; last_step_name = codes "last" })

abbrev safety : ResultSafety
safety = record { output_payload = λ v. v; error_message = λ t. t }

abbrev session : Session
session = record {
  caller = record { require_login = false; actor = none };
  started = 10;
  finished = 12;
  preparation = ready prepared;
  event_sink = some sink;
  invoke = λ request plane. (ended ending, plane);
}

-- A caller without any permission.
abbrev closed_session : Session
closed_session = record session {
  caller = record { require_login = true; actor = some (λ p. false) };
}

start_allowed : (policy_of (executes starts) session.caller pending_run).allowed ≡ true
unfolding can_start_run permission combine result
start_allowed = refl

start_denied : (policy_of (executes starts) closed_session.caller pending_run).allowed ≡ false
unfolding can_start_run permission combine result
start_denied = refl

cancel_allowed : (can_cancel_run session.caller pending_run).allowed ≡ true
unfolding can_cancel_run permission combine result
cancel_allowed = refl

is_preparable : IsPreparable session.preparation
unfolding granted_seconds
is_preparable h = cc

is_seen : IsSeen session
is_seen request plane exc h = cc

abbrev waiting_run : Run
waiting_run = record pending_run { status = waiting }

-- A resume at a checkpoint that is named.
abbrev resumed : Execution
resumed = resumes (dict end) (some (codes "c1"))

resume_allowed : (policy_of (executes resumed) session.caller waiting_run).allowed ≡ true
unfolding can_resume_run permission combine result
resume_allowed = refl

is_well_formed : IsWellFormed resumed
unfolding strip lstrip
is_well_formed = refl

execute-Settled_example : Settled 3 (execute safety resumed session 3 (plane_of waiting_run))
execute-Settled_example =
    execute-Settled resumed safety session 3 (plane_of waiting_run) waiting_run
      (λ request plane. refl) is_seen is_preparable is_well_formed refl refl resume_allowed

policy-Admits_example : Admits (executes starts) pending_run.status
policy-Admits_example = policy-Admits (executes starts) session.caller pending_run start_allowed

perform-denied_example :
    perform safety (executes starts) closed_session 3 (plane_of pending_run) ≡ (
      err (permission_error (policy_of (executes starts) closed_session.caller pending_run).reason),
      plane_of pending_run,
    )
perform-denied_example =
    perform-denied (executes starts) safety closed_session 3 (plane_of pending_run) pending_run refl
      start_denied

cancel_run_lem_example :
    (get (cancel_run session 3 (plane_of pending_run)).1.active 3 ≡ signalled none)
    × ((row : Run) × (get (cancel_run session 3 (plane_of pending_run)).1.runs 3 ≡ some row)
        × (row.status ≡ cancelled)
        × (row.finished_at ≡ some 10)
        × (row.output_payload ≡ dict end))
cancel_run_lem_example =
    cancel_run_lem session 3 (plane_of pending_run) pending_run refl refl cancel_allowed

abbrev finished_result : ControlPlaneExecutionResult
finished_result = record {
  status = succeeded;
  output_payload = dict end;
  error_message = [];
  message = codes "run completed";
  last_step_name = [];
}

complete_action-cancel_run_example :
    (row : Run) × (get
        (complete_action safety session 3 finished_result
          (cancel_run session 3 (plane_of pending_run)).1).1.runs
        3
      ≡ some row)
    × (row.status ≡ succeeded)
    × (row.status ≡ cancelled → succeeded ≡ cancelled)
complete_action-cancel_run_example =
    complete_action-cancel_run session 3 (plane_of pending_run) pending_run refl refl cancel_allowed
      safety session finished_result

-- The workflow is interrupted.
abbrev interrupted_session : Session
interrupted_session = record session {
  invoke = λ request plane. (escaped (codes "KeyboardInterrupt"), plane);
}

dispatch-Leaves_example :
    Leaves safety interrupted_session 3
      (plane_of pending_run)
      none
      (dispatch safety interrupted_session 3 prepared none (plane_of pending_run))
dispatch-Leaves_example =
    dispatch-Leaves safety interrupted_session 3 (plane_of pending_run) prepared none

observe_execution_example :
    (observe_all silent (opening_events prepared (some sink)) ≡ some (going (span_if true opened)))
    × (observe_all silent
          (opening_events prepared (some sink) ++ closing_events prepared (some sink) ending)
        ≡ some (expected true ending))
observe_execution_example = observe_execution prepared sink ending refl
