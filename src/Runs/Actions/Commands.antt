-- ===== src/Runs/Actions/Commands.antt =====
-- The four actions of services/runs.py side by side: when they are allowed, what they do when they
-- are denied, and how they end.
use cobalt_wren.Core.Value.{Value, dict, end}
use cobalt_wren.Prelude.{ℕ, true, false, Option, none, some, ◌≡◌, ◌≢◌}
use cobalt_wren.Prelude.Dict.{get}
use cobalt_wren.Prelude.Equality.{nat_eq}
use cobalt_wren.Prelude.Result.{Result, err}
use cobalt_wren.Prelude.Text.{Text}
use cobalt_wren.Runs.Model.{RunStatus, pending, waiting, succeeded, Run, is_terminal}
use cobalt_wren.Runs.Policy.{
  Caller, PolicyResult, can_start_run, can_cancel_run, can_resume_run, can_retry_run,
}
use cobalt_wren.Runs.Transition.{ResultSafety}
use cobalt_wren.Runs.Actions.{
  ControlPlane, RunError, permission_error, RunActionResult, Session, start_run, resume_run,
  retry_run, cancel_run,
}
use cobalt_wren.Runs.Actions.Lifecycle.{
  actions_exclusive, actions_denied, start_run-Settled, retry_run-Settled, resume_run-Settled,
  IsQuiet, IsSeen, IsPreparable, IsResumable, Settled,
}

pub data Execution : Type 0 where
  starts retries : Execution
  -- with `resume_payload` and `checkpoint_id`
  resumes : Value → Option Text → Execution

pub data Command : Type 0 where
  executes : Execution → Command
  cancels : Command

abbrev pub policy_of : Command → Caller → Run → PolicyResult
policy_of (executes starts) = can_start_run
policy_of (executes (resumes payload checkpoint_id)) = can_resume_run
policy_of (executes retries) = can_retry_run
policy_of cancels = can_cancel_run

abbrev pub execute :
    ResultSafety
    → Execution
    → Session
    → ℕ
    → ControlPlane
    → Result RunError RunActionResult × ControlPlane
execute safety starts = start_run safety
execute safety (resumes payload checkpoint_id) = resume_run safety payload checkpoint_id
execute safety retries = retry_run safety

abbrev pub perform :
    ResultSafety
    → Command
    → Session
    → ℕ
    → ControlPlane
    → Result RunError RunActionResult × ControlPlane
perform safety (executes e) = execute safety e
perform safety cancels = cancel_run

-- The states in which a command makes sense.
abbrev pub Admits : Command → RunStatus → Type 0
Admits (executes starts) status = status ≡ pending
Admits (executes (resumes payload checkpoint_id)) status = status ≡ waiting
Admits (executes retries) status = (is_terminal status ≡ true) × (status ≢ succeeded)
Admits cancels status = is_terminal status ≡ false

-- A policy that allows a command has found the run in a state for it: a start needs a pending run,
-- a resume a waiting one, a retry one that ended without success, a cancellation one that did not end.
pub policy-Admits :
    (command : Command) (caller : Caller) (run : Run)
    → (policy_of command caller run).allowed ≡ true
    → Admits command run.status
policy-Admits (executes starts) caller run h = (actions_exclusive caller run).0 h
policy-Admits (executes (resumes payload checkpoint_id)) caller run h =
    (actions_exclusive caller run).1 h
policy-Admits (executes retries) caller run h = (actions_exclusive caller run).2 h
policy-Admits cancels caller run h = (actions_exclusive caller run).3 h

-- A command that the policy denies, for a run that the table has, raises with the reason of the
-- policy, and changes no row, no execution and no event.
pub perform-denied :
    (command : Command) (safety : ResultSafety) (session : Session) (pk : ℕ) (plane : ControlPlane)
    (run : Run)
    → get plane.runs pk ≡ some run
    → (policy_of command session.caller run).allowed ≡ false
    → perform safety command session pk plane
      ≡ (err (permission_error (policy_of command session.caller run).reason), plane)
perform-denied (executes starts) safety session pk plane run found h =
    (actions_denied safety session pk plane run found (dict end) none).0 h
perform-denied (executes (resumes payload checkpoint_id)) safety session pk plane run found h =
    (actions_denied safety session pk plane run found payload checkpoint_id).1 h
perform-denied (executes retries) safety session pk plane run found h =
    (actions_denied safety session pk plane run found (dict end) none).2 h
perform-denied cancels safety session pk plane run found h =
    (actions_denied safety session pk plane run found (dict end) none).3 h

-- A checkpoint that a resume names is not blank.
abbrev pub IsWellFormed : Execution → Type 0
IsWellFormed (resumes payload checkpoint_id) = IsResumable checkpoint_id
IsWellFormed _ = Unit

-- A start, a resume or a retry that the policy allows, of a run that the table has under its key,
-- returns, and the row of the run is then the returned one and not running: waiting, or at one of
-- the ends. This needs that preparing the workflow raises no exception but those that are caught,
-- with a timeout within the floats, that a checkpoint to resume at is not blank, that no exception
-- beyond `Exception` interrupts the workflow, and that nothing else writes the row while it executes.
pub execute-Settled :
    (execution : Execution) (safety : ResultSafety) (session : Session) (pk : ℕ)
    (plane : ControlPlane) (run : Run)
    → IsQuiet session pk
    → IsSeen session
    → IsPreparable session.preparation
    → IsWellFormed execution
    → run.pk ≡ pk
    → get plane.runs pk ≡ some run
    → (policy_of (executes execution) session.caller run).allowed ≡ true
    → Settled pk (execute safety execution session pk plane)
execute-Settled starts safety session pk plane run quiet seen intact formed same found h =
    start_run-Settled safety session pk quiet plane run seen intact same found h
execute-Settled retries safety session pk plane run quiet seen intact formed same found h =
    retry_run-Settled safety session pk quiet plane run seen intact same found h
execute-Settled (resumes value checkpoint_id) safety session pk plane run quiet seen intact formed
      same found h =
    resume_run-Settled safety session pk quiet plane run seen intact same found value checkpoint_id
      formed h
