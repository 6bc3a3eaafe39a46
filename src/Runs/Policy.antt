-- ===== src/Runs/Policy.antt =====
-- apps/automation/policies/runs.py: who may start, cancel, resume and retry a run, and when.
use cobalt_wren.Prelude.{Bool, true, false, not, ◌||◌, Option, none, some, [], ◌++◌, if◌then◌else◌}
use cobalt_wren.Prelude.Text.{Text, codes}
use cobalt_wren.Runs.Model.{
  pending, running, waiting, failed, timed_out, cancelled, status_beq, status_text, Run,
}

pub record PolicyResult : Type 0 where
  pub allowed : Bool
  pub reason : Text

-- The codenames of the permissions.
pub data Permission : Type 0 where
  start_run resume_run cancel_run retry_run : Permission

-- What `has_perm` of the actor answers; an actor without that method answers false.
abbrev pub Actor : Type 0
Actor = Permission → Bool

-- `COBALT_WREN_REQUIRE_LOGIN`, and the actor of the call.
pub record Caller : Type 0 where
  pub require_login : Bool
  pub actor : Option Actor

unfoldable pub result : Bool → Text → PolicyResult
result condition reason = record { allowed = condition; reason = if condition then [] else reason }

abbrev has_perm : Option Actor → Permission → Bool
has_perm none codename = true
has_perm (some actor) codename = actor codename

unfoldable pub permission : Caller → Permission → PolicyResult
permission caller codename =
    if not caller.require_login || has_perm caller.actor codename
    then record { allowed = true; reason = [] }
    else record { allowed = false; reason = codes "Actor does not have permission" }

unfoldable pub combine : PolicyResult → PolicyResult → PolicyResult
combine permission state = if not permission.allowed then permission else state

unfoldable pub can_start_run : Caller → Run → PolicyResult
can_start_run caller run = combine (permission caller start_run) (
    result (status_beq run.status pending) (codes "Run is not pending: " ++ status_text run.status))

unfoldable pub can_cancel_run : Caller → Run → PolicyResult
can_cancel_run caller run = combine (permission caller cancel_run) (
    result
      (status_beq run.status pending
        || (status_beq run.status running || status_beq run.status waiting))
      (codes "Run cannot be cancelled from " ++ status_text run.status))

unfoldable pub can_resume_run : Caller → Run → PolicyResult
can_resume_run caller run = combine (permission caller resume_run) (
    result (status_beq run.status waiting)
      (codes "Run cannot be resumed from " ++ status_text run.status))

unfoldable pub can_retry_run : Caller → Run → PolicyResult
can_retry_run caller run = combine (permission caller retry_run) (
    result
      (status_beq run.status failed
        || (status_beq run.status timed_out || status_beq run.status cancelled))
      (codes "Run cannot be retried from " ++ status_text run.status))
