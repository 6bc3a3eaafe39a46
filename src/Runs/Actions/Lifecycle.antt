-- ===== src/Runs/Actions/Lifecycle.antt =====
-- apps/automation/services/runs.py: what an action leaves behind.
use cobalt_wren.Prelude.{
  ℕ, Bool, true, false, ◌||◌, Option, none, some, [], ◌++◌, map, ◌≡◌, ◌≢◌, refl, ◌∙◌, arith,
}
use cobalt_wren.Prelude.Dict.{Dict, get, put, get-put_self}
use cobalt_wren.Prelude.Equality.{◌==◌, nat_eq, list_eq}
use cobalt_wren.Prelude.Result.{Result, ok, err}
use cobalt_wren.Prelude.Text.{Text, strip}
use cobalt_wren.Core.Value.{Value}
use cobalt_wren.Runs.Model.{
  RunStatus, pending, running, waiting, succeeded, failed, timed_out, cancelled, Run, is_terminal,
  status_beq,
}
use cobalt_wren.Runs.Policy.{
  Caller, PolicyResult, can_start_run, can_cancel_run, can_resume_run, can_retry_run, combine,
  result,
}
use cobalt_wren.Runs.Transition.{ResultSafety, transition_run, finalize_from_execution}
use cobalt_wren.Runs.Execution.{
  Ending, returned, raised, Outcome, ended, escaped, workflow_cancelled, workflow_timeout,
  framework, foreign, EventSink, PreparedWorkflow, OverflowError, overflow_error, granted_seconds,
  begin_execution_control, opening_events, execution_result,
}
use cobalt_wren.Prelude.Action.{continue}
use cobalt_wren.Runs.Actions.{
  ControlPlane, RunError, permission_error, RunActionResult, Preparation, ready, refused, crashed,
  WorkflowResumeRequest, Session, begin_action, locked_run, policy_or_raise, save_run, emit,
  resume_request, dispatch, complete_action, handle_runtime_build_failure, execute_run, start_run,
  resume_run, retry_run, cancel_run,
}

state_allows :
    (p : PolicyResult) (b : Bool) (reason : Text)
    → (combine p (result b reason)).allowed ≡ true
    → b ≡ true
unfolding combine result
state_allows p b reason h = ground arith

is_pending : (s : RunStatus) → status_beq s pending ≡ true → s ≡ pending
is_pending s h = ground arith

is_waiting : (s : RunStatus) → status_beq s waiting ≡ true → s ≡ waiting
is_waiting s h = ground arith

is_retryable :
    (s : RunStatus)
    → status_beq s failed || (status_beq s timed_out || status_beq s cancelled) ≡ true
    → (is_terminal s ≡ true) × (s ≢ succeeded)
is_retryable s h = ground arith

is_cancellable :
    (s : RunStatus)
    → status_beq s pending || (status_beq s running || status_beq s waiting) ≡ true
    → is_terminal s ≡ false
is_cancellable s h = ground arith

-- In each state at most one of start, resume and retry is allowed, and cancelling exactly in the
-- states before the end.
pub actions_exclusive :
    (caller : Caller) (run : Run)
    → ((can_start_run caller run).allowed ≡ true → run.status ≡ pending)
      × ((can_resume_run caller run).allowed ≡ true → run.status ≡ waiting)
      × ((can_retry_run caller run).allowed ≡ true
          → (is_terminal run.status ≡ true) × (run.status ≢ succeeded))
      × ((can_cancel_run caller run).allowed ≡ true → is_terminal run.status ≡ false)
unfolding can_start_run can_resume_run can_retry_run can_cancel_run
actions_exclusive caller run = (
  λ h. is_pending run.status (state_allows _ _ _ h),
  λ h. is_waiting run.status (state_allows _ _ _ h),
  λ h. is_retryable run.status (state_allows _ _ _ h),
  λ h. is_cancellable run.status (state_allows _ _ _ h),
)

module _ (safety : ResultSafety) (session : Session) (pk : ℕ) (plane : ControlPlane) (run : Run)
    (found : get plane.runs pk ≡ some run) where
  -- An action that the policy denies raises with the reason and changes nothing.
  pub actions_denied :
      (resume_payload : Value) (checkpoint_id : Option Text)
      → ((can_start_run session.caller run).allowed ≡ false
          → start_run safety session pk plane
            ≡ (err (permission_error (can_start_run session.caller run).reason), plane))
        × ((can_resume_run session.caller run).allowed ≡ false
            → resume_run safety resume_payload checkpoint_id session pk plane
              ≡ (err (permission_error (can_resume_run session.caller run).reason), plane))
        × ((can_retry_run session.caller run).allowed ≡ false
            → retry_run safety session pk plane
              ≡ (err (permission_error (can_retry_run session.caller run).reason), plane))
        × ((can_cancel_run session.caller run).allowed ≡ false
            → cancel_run session pk plane
              ≡ (err (permission_error (can_cancel_run session.caller run).reason), plane))
  unfolding start_run resume_run retry_run cancel_run begin_action locked_run policy_or_raise
  actions_denied resume_payload checkpoint_id =
      (λ h. rw found (rw h), λ h. rw found (rw h), λ h. rw found (rw h), λ h. rw found (rw h))

-- What one execution of a workflow makes of its run, if nothing else touches the row meanwhile.
abbrev pub IsQuiet : Session → ℕ → Type 0
IsQuiet session pk =
    (request : Option WorkflowResumeRequest) (plane : ControlPlane)
    → get (session.invoke request plane).1.runs pk ≡ get plane.runs pk

-- The workflow ends in a way that `except Exception` sees.
abbrev pub IsSeen : Session → Type 0
IsSeen session =
    (request : Option WorkflowResumeRequest) (plane : ControlPlane) (exc : Text)
    → (session.invoke request plane).0 ≢ escaped exc

-- A checkpoint that a resume names is not blank.
abbrev pub IsResumable : Option Text → Type 0
IsResumable none = Unit
IsResumable (some checkpoint_id) = (strip checkpoint_id == []) ≡ false

-- The preparation raises nothing but the two exceptions that are caught, and the timeout of what it
-- prepares is within the floats.
abbrev pub IsPreparable : Preparation → Type 0
IsPreparable (ready prepared) = granted_seconds prepared.timeout_seconds ≢ err overflow_error
IsPreparable (refused exc) = Unit
IsPreparable (crashed exc) = ⊥

execution_result-ended :
    (safety : ResultSafety) (ending : Ending) → (execution_result safety ending).status ≢ running
unfolding execution_result
execution_result-ended safety (returned r) = λ e. ground arith
execution_result-ended safety (raised (workflow_cancelled t)) = λ e. cc
execution_result-ended safety (raised (workflow_timeout t)) = λ e. cc
execution_result-ended safety (raised (framework t)) = λ e. cc
execution_result-ended safety (raised (foreign t)) = λ e. cc

pub stored_at : (d : Dict ℕ Run) (r : Run) {k : ℕ} → r.pk ≡ k → get (put d r.pk r) k ≡ some r
stored_at d r e = rw (← e) (get-put_self d r.pk r)

-- The call returned, the row of the run is the returned one, and it is not running any more.
abbrev pub Settled : ℕ → Result RunError RunActionResult × ControlPlane → Type 0
Settled pk (ok action, after) =
    (action.run.status ≢ running) × (get after.runs pk ≡ some action.run)
Settled pk (err e, after) = ⊥

-- The control plane that the workflow is called with.
abbrev pub called : Session → ℕ → ControlPlane → PreparedWorkflow → Option Value → ControlPlane
called session pk plane prepared seconds = record plane {
  active = begin_execution_control pk seconds session.started plane.active;
  log = plane.log ++ map (λ e. (pk, e)) (opening_events prepared session.event_sink);
}

module _ (safety : ResultSafety) (session : Session) (pk : ℕ) (quiet : IsQuiet session pk) where
  complete_settles :
      (plane : ControlPlane) (run : Run) (ending : Ending)
      → run.pk ≡ pk
      → get plane.runs pk ≡ some run
      → Settled pk (complete_action safety session pk (execution_result safety ending) plane)
  unfolding complete_action locked_run save_run finalize_from_execution
  complete_settles plane run ending same found =
      rw found (execution_result-ended safety ending, stored_at plane.runs _ same)

  refused_settles :
      (plane : ControlPlane) (run : Run) (exc : Text) (sink : Option EventSink)
      → session.event_sink ≡ sink
      → run.pk ≡ pk
      → get plane.runs pk ≡ some run
      → Settled pk (handle_runtime_build_failure safety session pk exc plane)
  unfolding handle_runtime_build_failure locked_run save_run transition_run emit
  refused_settles plane run exc none e same found =
      rw found (rw e (λ p. cc, stored_at plane.runs _ same))
  refused_settles plane run exc (some k) e same found =
      rw found (rw e (λ p. cc, stored_at plane.runs _ same))

  dispatch_settles :
      (plane : ControlPlane) (prepared : PreparedWorkflow) (request : Option WorkflowResumeRequest)
      → IsSeen session
      → (seconds : Option Value) → granted_seconds prepared.timeout_seconds ≡ ok seconds
      → (outcome : Outcome)
      → (session.invoke request (called session pk plane prepared seconds)).0 ≡ outcome
      → (ending : Ending) × ((dispatch safety session pk prepared request plane).0
          ≡ ok (execution_result safety ending))
        × (get (dispatch safety session pk prepared request plane).1.runs pk ≡ get plane.runs pk)
  unfolding dispatch emit
  dispatch_settles plane prepared request seen seconds e (escaped exc) h =
      absurd (seen request _ exc h)
  dispatch_settles plane prepared request seen seconds e (ended ending) h =
      (ending, rw e (rw h refl), rw e (rw h (quiet request _)))

  execute_settles :
      (plane : ControlPlane) (run : Run) (resumed : Option WorkflowResumeRequest)
      (preparation : Preparation)
      → IsSeen session
      → IsPreparable preparation
      → run.pk ≡ pk
      → get plane.runs pk ≡ some run
      → Settled pk (execute_run safety session pk (ok resumed) preparation plane)
  unfolding execute_run
  execute_settles plane run resumed (refused exc) seen intact same found =
      refused_settles plane run exc session.event_sink refl same found
  execute_settles plane run resumed (crashed exc) seen intact same found = absurd intact
  execute_settles plane run resumed (ready prepared) seen intact same found =
      by_seconds (granted_seconds prepared.timeout_seconds) refl
    where
      by_seconds :
          (seconds : Result OverflowError (Option Value))
          → granted_seconds prepared.timeout_seconds ≡ seconds
          → Settled pk (execute_run safety session pk (ok resumed) (ready prepared) plane)
      by_seconds (err overflow_error) e = absurd (intact e)
      by_seconds (ok seconds) e =
          let (ending, d, kept) =
            dispatch_settles plane prepared resumed seen seconds e
              (session.invoke resumed (called session pk plane prepared seconds)).0 refl in
          unfold execute_run in
          rw d (
            complete_settles (dispatch safety session pk prepared resumed plane).1 run ending same
              (kept ∙ found))

  begin_settles :
      (plane : ControlPlane) (run : Run) (policy : Run → PolicyResult) (change : Run → Run)
      (resumed : Option WorkflowResumeRequest)
      → IsSeen session
      → IsPreparable session.preparation
      → (change run).pk ≡ pk
      → get plane.runs pk ≡ some run
      → (policy run).allowed ≡ true
      → Settled pk (
          continue
            (begin_action pk policy change plane).0
            (λ r. execute_run safety session pk (ok resumed) session.preparation)
            (begin_action pk policy change plane).1)
  unfolding begin_action locked_run policy_or_raise save_run
  begin_settles plane run policy change resumed seen intact same found allowed = rw found (
      rw allowed (
        execute_settles (record plane { runs = put plane.runs (change run).pk (change run) })
          (change run) resumed session.preparation seen intact same
          (stored_at plane.runs (change run) same)))

  module _ (plane : ControlPlane) (run : Run) (seen : IsSeen session)
      (intact : IsPreparable session.preparation) (same : run.pk ≡ pk)
      (found : get plane.runs pk ≡ some run) where
    pub start_run-Settled :
        (can_start_run session.caller run).allowed ≡ true
        → Settled pk (start_run safety session pk plane)
    unfolding start_run transition_run
    start_run-Settled allowed = begin_settles plane run _ _ none seen intact same found allowed

    pub retry_run-Settled :
        (can_retry_run session.caller run).allowed ≡ true
        → Settled pk (retry_run safety session pk plane)
    unfolding retry_run transition_run
    retry_run-Settled allowed = begin_settles plane run _ _ none seen intact same found allowed

    pub resume_run-Settled :
        (value : Value) (checkpoint_id : Option Text)
        → IsResumable checkpoint_id
        → (can_resume_run session.caller run).allowed ≡ true
        → Settled pk (resume_run safety value checkpoint_id session pk plane)
    unfolding resume_run resume_request transition_run
    resume_run-Settled value none named allowed =
        begin_settles plane run _ _ _ seen intact same found allowed
    resume_run-Settled value (some checkpoint_id) named allowed =
        rw named (begin_settles plane run _ _ _ seen intact same found allowed)
