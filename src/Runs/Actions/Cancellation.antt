-- ===== src/Runs/Actions/Cancellation.antt =====
-- Cancelling a run while its workflow executes: services/runs.py and services/execution_control.py.
use cobalt_wren.Prelude.{ℕ, true, false, Option, none, some, [], ◌≡◌, refl, ◌∙◌, ap}
use cobalt_wren.Prelude.Dict.{get, put, get-put_self, get-pop}
use cobalt_wren.Prelude.Equality.{nat_eq, beq_refl}
use cobalt_wren.Prelude.Result.{Result, ok, err}
use cobalt_wren.Prelude.Action.{pure, continue}
use cobalt_wren.Prelude.Text.{Text}
use cobalt_wren.Core.Value.{Value}
use cobalt_wren.Runs.Model.{cancelled, Run}
use cobalt_wren.Runs.Policy.{can_cancel_run}
use cobalt_wren.Runs.Transition.{
  ResultSafety, ControlPlaneExecutionResult, transition_run, finalize_from_execution,
}
use cobalt_wren.Runs.Execution.{
  ActiveControl, begin_execution_control, request_cancellation, finish_execution_control,
  PreparedWorkflow, EventSink, Outcome, ended, escaped, OverflowError, overflow_error,
  granted_seconds,
}
use cobalt_wren.Runs.Actions.{
  ControlPlane, RunError, RunActionResult, timeout_overflow, interrupted, WorkflowResumeRequest,
  Session, locked_run, policy_or_raise, save_run, emit, emit_cancelled, cancelled_or_raise,
  dispatch, complete_action, cancel_run,
}
use cobalt_wren.Runs.Actions.Lifecycle.{stored_at, called}

module _ (safety : ResultSafety) (session : Session) (pk : ℕ) where
  -- How a dispatch on `plane` leaves the registry.
  abbrev pub Leaves :
      ControlPlane
      → Option WorkflowResumeRequest
      → Result RunError ControlPlaneExecutionResult × ControlPlane
      → Type 0
  Leaves plane request (ok result, after) = get after.active pk ≡ none
  Leaves plane request (err timeout_overflow, after) = after ≡ plane
  Leaves plane request (err (interrupted exc), after) =
      (between : ControlPlane) × (session.invoke request between ≡ (escaped exc, after))
      × ((control : ActiveControl) × (get between.active pk ≡ some control)
          × (control.cancelled ≡ false))
  Leaves plane request (err e, after) = ⊥

  -- A dispatch that returns leaves no entry of its run in the registry. It raises in two cases
  -- only: where the timeout does not convert, with nothing changed, and where the workflow is
  -- interrupted. The control plane is then as the workflow left it, which was called while the
  -- registry had an entry of the run that was not cancelled.
  pub dispatch-Leaves :
      (plane : ControlPlane) (prepared : PreparedWorkflow) (request : Option WorkflowResumeRequest)
      → Leaves plane request (dispatch safety session pk prepared request plane)
  dispatch-Leaves plane prepared request =
      by_seconds (granted_seconds prepared.timeout_seconds) refl
    where
      by_outcome :
          (seconds : Option Value)
          → granted_seconds prepared.timeout_seconds ≡ ok seconds
          → (outcome : Outcome)
          → (session.invoke request (called session pk plane prepared seconds)).0 ≡ outcome
          → Leaves plane request (dispatch safety session pk prepared request plane)
      by_outcome seconds e (ended ending) h =
          unfold dispatch emit finish_execution_control in
          rw e (rw h (rw (get-pop _ pk pk) (rw (beq_refl pk))))
      by_outcome seconds e (escaped exc) h =
          unfold dispatch emit begin_execution_control in
          rw e (
            rw h (
              called session pk plane prepared seconds,
              ap (λ o. (o, (session.invoke request (called session pk plane prepared seconds)).1))
                  h,
              (_, get-put_self plane.active pk _, refl),
            ))

      by_seconds :
          (seconds : Result OverflowError (Option Value))
          → granted_seconds prepared.timeout_seconds ≡ seconds
          → Leaves plane request (dispatch safety session pk prepared request plane)
      by_seconds (err overflow_error) e = unfold dispatch in rw e refl
      by_seconds (ok seconds) e = by_outcome seconds e _ refl

  -- Completing an action writes the status of the execution, whatever the row's status is.
  complete_overwrites :
      (plane : ControlPlane) (run : Run) (result : ControlPlaneExecutionResult)
      → run.pk ≡ pk
      → get plane.runs pk ≡ some run
      → get (complete_action safety session pk result plane).1.runs pk
        ≡ some (finalize_from_execution safety session.finished result run)
  unfolding complete_action locked_run save_run finalize_from_execution
  complete_overwrites plane run result same found = rw found (stored_at plane.runs _ same)

cancelled_row : ℕ → Run → Run
cancelled_row now run =
    transition_run now
      (record { status = cancelled; thread_id = none; output_payload = none; message = [] }) run

-- The entry that a cancellation makes of the entry before it.
abbrev pub signalled : Option ActiveControl → Option ActiveControl
signalled none = none
signalled (some control) = some (record control { cancelled = true })

module _ (session : Session) (pk : ℕ) (plane : ControlPlane) (run : Run) (same : run.pk ≡ pk)
    (found : get plane.runs pk ≡ some run)
    (allowed : (can_cancel_run session.caller run).allowed ≡ true) where
  -- What the row and the registry are once the status is written.
  abbrev written : ControlPlane
  written = record plane {
    runs = put plane.runs run.pk (cancelled_row session.started run);
    active = (request_cancellation pk plane.active).1;
  }

  emit_cancelled_keeps :
      (sink : Option EventSink) (before : ControlPlane)
      → ((emit_cancelled sink pk before).1.runs ≡ before.runs)
        × ((emit_cancelled sink pk before).1.active ≡ before.active)
  unfolding emit
  emit_cancelled_keeps none before = (refl, refl)
  emit_cancelled_keeps (some sink) before = by_failure sink.cancel_failure
    where
      by_failure :
          (failure : Option Text)
          → ((cancelled_or_raise failure pk before).1.runs ≡ before.runs)
            × ((cancelled_or_raise failure pk before).1.active ≡ before.active)
      by_failure none = unfold emit in (refl, refl)
      by_failure (some exc) = (refl, refl)

  -- Returning after the event, or raising, keeps what the event left.
  continue_state :
      {A B : Type 0} (r : Result RunError A) (b : B) (after : ControlPlane)
      → (continue r (λ a. pure b) after).1 ≡ after
  continue_state (ok a) b after = refl
  continue_state (err e) b after = refl

  cancel_run_after :
      (cancel_run session pk plane).1 ≡ (emit_cancelled session.event_sink pk written).1
  unfolding cancel_run locked_run policy_or_raise save_run cancelled_row transition_run
  cancel_run_after = rw found (
      rw allowed (
        continue_state {B = RunActionResult} (emit_cancelled session.event_sink pk written).0 _
          (emit_cancelled session.event_sink pk written).1))

  cancel_run_runs :
      get (cancel_run session pk plane).1.runs pk ≡ some (cancelled_row session.started run)
  unfolding cancelled_row transition_run
  cancel_run_runs =
      ap (λ p. get p.runs pk) cancel_run_after
      ∙ ap (λ rows. get rows pk) (emit_cancelled_keeps session.event_sink written).0
      ∙ stored_at plane.runs (cancelled_row session.started run) same

  request_signals :
      (o : Option ActiveControl)
      → get plane.active pk ≡ o
      → get (request_cancellation pk plane.active).1 pk ≡ signalled o
  unfolding request_cancellation
  request_signals none h = rw h h
  request_signals (some control) h = rw h (get-put_self plane.active pk _)

  cancel_run_active :
      get (cancel_run session pk plane).1.active pk ≡ signalled (get plane.active pk)
  cancel_run_active =
      ap (λ p. get p.active pk) cancel_run_after
      ∙ ap (λ active. get active pk) (emit_cancelled_keeps session.event_sink written).1
      ∙ request_signals (get plane.active pk) refl

  -- A cancellation that the policy allows, of a run that the table has under its key, signals the
  -- active execution of the run, if there is one, and writes `cancelled` with the time of the call
  -- into the row, whose output it keeps.
  pub cancel_run_lem :
      (get (cancel_run session pk plane).1.active pk ≡ signalled (get plane.active pk))
      × ((row : Run) × (get (cancel_run session pk plane).1.runs pk ≡ some row)
          × (row.status ≡ cancelled)
          × (row.finished_at ≡ some session.started)
          × (row.output_payload ≡ run.output_payload))
  cancel_run_lem = (
    cancel_run_active,
    (
      cancelled_row session.started run,
      cancel_run_runs,
      unfold cancelled_row transition_run in refl,
      unfold cancelled_row transition_run in refl,
      unfold cancelled_row transition_run in refl,
    ),
  )

  -- An execution that is completed after its run, which the table has under its key, was cancelled
  -- with the policy's permission overwrites `cancelled` with its own status: the row is cancelled
  -- then only if the execution itself ended as cancelled.
  pub complete_action-cancel_run :
      (safety : ResultSafety) (completing : Session) (result : ControlPlaneExecutionResult)
      → (row : Run) × (get
            (complete_action safety completing pk result (cancel_run session pk plane).1).1.runs
            pk
          ≡ some row)
        × (row.status ≡ result.status)
        × (row.status ≡ cancelled → result.status ≡ cancelled)
  complete_action-cancel_run safety completing result = (
    finalize_from_execution safety completing.finished result (cancelled_row session.started run),
    complete_overwrites safety completing pk (cancel_run session pk plane).1
        (cancelled_row session.started run) result (unfold cancelled_row transition_run in same)
        cancel_run_runs,
    unfold finalize_from_execution in refl,
    unfold finalize_from_execution in λ e. e,
  )
