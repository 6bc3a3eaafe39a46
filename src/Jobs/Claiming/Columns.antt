-- ===== src/Jobs/Claiming/Columns.antt =====
-- `claim_next_job` of services/jobs.py: every column of the row that it takes.
use cobalt_wren.Prelude.{
  ℕ, suc, ◌≤◌, Bool, true, false, ◌&&◌, Option, none, some, [], ◌∷◌, leb, take, ◌≡◌, ◌≢◌, ◌∙◌, refl,
  sym, ap, subst, arith,
}
use mathlib.Core.Logic.{◌↔◌}
use cobalt_wren.Prelude.Dict.{get, get-put_self, get-put_other}
use cobalt_wren.Prelude.Equality.{nat_eq}
use cobalt_wren.Prelude.Text.{Text}
use cobalt_wren.Jobs.{
  ExecutionJobStatus, queued, claimed, is_queued, ExecutionJob, JobTable, is_due, claim_next_job,
  worker_identity,
}
use cobalt_wren.Jobs.Claiming.{Claims, claim_next_job-Claims}

-- A queued row whose time has come.
abbrev pub IsDue : ℕ → ExecutionJob → Type 0
IsDue queried row = (row.status ≡ queued) × (row.available_at ≤ queried)

due_cases :
    (s : ExecutionJobStatus) (available queried : ℕ)
    → (is_queued s && leb available queried ≡ true) ↔ ((s ≡ queued) × (available ≤ queried))
due_cases s available queried = ground arith

is_due_iff : (queried : ℕ) (row : ExecutionJob) → (is_due queried row ≡ true) ↔ IsDue queried row
is_due_iff queried row = due_cases row.status row.available_at queried

-- The name of the worker: the one that is given and not empty, or that of the host.
abbrev pub IsWorker : Option Text → Text → Text → Type 0
IsWorker none hostname name = name ≡ hostname
IsWorker (some []) hostname name = name ≡ hostname
IsWorker (some (c ∷ cs)) hostname name = name ≡ c ∷ cs

worker_identity-IsWorker :
    (worker_id : Option Text) (hostname : Text)
    → IsWorker worker_id hostname (worker_identity worker_id hostname)
worker_identity-IsWorker none hostname = refl
worker_identity-IsWorker (some []) hostname = refl
worker_identity-IsWorker (some (c ∷ cs)) hostname = refl

-- The row `after` is the row `before`, claimed by the worker: every column of it.
abbrev pub IsClaimed : Text → ℕ → ExecutionJob → ExecutionJob → Type 0
IsClaimed name now before after =
    (after.status ≡ claimed)
    × (after.worker_id ≡ take 255 name)
    × (after.claimed_at ≡ some now)
    × (after.heartbeat_at ≡ some now)
    × (after.attempts ≡ suc before.attempts)
    × (after.updated_at ≡ now)
    × (after.pk ≡ before.pk)
    × (after.run_id ≡ before.run_id)
    × (after.operation ≡ before.operation)
    × (after.payload ≡ before.payload)
    × (after.checkpoint_id ≡ before.checkpoint_id)
    × (after.available_at ≡ before.available_at)
    × (after.finished_at ≡ before.finished_at)
    × (after.error_message ≡ before.error_message)
    × (after.created_at ≡ before.created_at)

-- What a worker gets, and what it leaves of the table.
abbrev pub Takes : Option Text → Text → ℕ → ℕ → JobTable → Option ExecutionJob × JobTable → Type 0
Takes worker_id hostname queried now table (none, after) =
    (after ≡ table)
    × ((k : ℕ) (row : ExecutionJob) → get table.rows k ≡ some row → ¬ (IsDue queried row))
Takes worker_id hostname queried now table (some job, after) =
    (k : ℕ) × (row : ExecutionJob) × (name : Text) × (get table.rows k ≡ some row)
    × (IsDue queried row)
    × ((l : ℕ) (other : ExecutionJob)
        → get table.rows l ≡ some other
        → IsDue queried other
        → row.created_at ≤ other.created_at)
    × (IsWorker worker_id hostname name)
    × (IsClaimed name now row job)
    × (get after.rows k ≡ some job)
    × ((l : ℕ) → k ≢ l → get after.rows l ≡ get table.rows l)

truths_differ : {b : Bool} → b ≡ false → b ≡ true → ⊥
truths_differ h g = cc

Claims-Takes :
    (worker_id : Option Text) (hostname : Text) (queried now : ℕ) (table : JobTable)
    (claim : Option ExecutionJob × JobTable)
    → Claims (take 255 (worker_identity worker_id hostname)) queried now table claim
    → Takes worker_id hostname queried now table claim
Claims-Takes worker_id hostname queried now table (none, after) (same, none_due) =
    (same, λ k row f d. truths_differ (none_due k row f) ((is_due_iff queried row).1 d))
Claims-Takes worker_id hostname queried now table (some job, after)
      (k, row, (found, due, first), e, written) =
    (
      k,
      row,
      worker_identity worker_id hostname,
      found,
      (is_due_iff queried row).0 due,
      λ l other f d. first l other f ((is_due_iff queried other).1 d),
      worker_identity-IsWorker worker_id hostname,
      subst (IsClaimed (worker_identity worker_id hostname) now row) (sym e) (
        refl,
        refl,
        refl,
        refl,
        omega arith,
        refl,
        refl,
        refl,
        refl,
        refl,
        refl,
        refl,
        refl,
        refl,
        refl,
      ),
      ap (λ t. get t.rows k) written ∙ get-put_self table.rows k job,
      λ l p. ap (λ t. get t.rows l) written ∙ get-put_other table.rows k l job p,
    )

-- `claim_next_job` takes a queued row whose time has come, of these one that was created first, and
-- writes it back under its key as claimed now, by the worker that is named or else the host, cut
-- to 255 characters, with one attempt more; its other columns and the other rows stay as they are.
-- It returns none, with the table as it was, only where no such row is.
pub claim_next_job_lem :
    (worker_id : Option Text) (hostname : Text) (queried now : ℕ) (table : JobTable)
    → Takes worker_id hostname queried now table
        (claim_next_job worker_id hostname queried now table)
claim_next_job_lem worker_id hostname queried now table =
    Claims-Takes worker_id hostname queried now table
      (claim_next_job worker_id hostname queried now table)
      (claim_next_job-Claims worker_id hostname queried now table)
