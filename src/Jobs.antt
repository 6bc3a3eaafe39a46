-- ===== src/Jobs.antt =====
-- apps/automation/models/job.py and services/jobs.py: the table of execution jobs, and the calls
-- that enqueue, claim, keep alive, recover and execute one. A call is one step on the table, as it
-- is in one transaction.
pub mod Claiming
pub mod Consistency
pub mod Running
pub mod Examples
use cobalt_wren.Prelude.{
  ℕ, zero, suc, ◌+◌, ◌*◌, Bool, true, false, not, ◌&&◌, Option, none, some, List, [], ◌∷◌, ltb, leb,
  if◌then◌else◌, take, any,
}
use cobalt_wren.Prelude.Dict.{Dict, get, put, values}
use cobalt_wren.Prelude.Equality.{Eq, ◌==◌, nat_eq, list_eq}
use cobalt_wren.Prelude.Result.{Result, ok, err}
use cobalt_wren.Prelude.Text.{Text, codes}
use cobalt_wren.Core.Value.{Value}
use cobalt_wren.Runs.Transition.{ResultSafety}
use cobalt_wren.Runs.Actions.{
  ControlPlane, RunError, interrupted, RunActionResult, Session, start_run, resume_run, retry_run,
}

pub data ExecutionJobStatus : Type 0 where
  queued claimed succeeded failed cancelled : ExecutionJobStatus

pub data ExecutionJobOperation : Type 0 where
  start resume retry : ExecutionJobOperation

-- `ExecutionJobOperation.values`
abbrev pub operation_of : Text → Option ExecutionJobOperation
operation_of text =
    if text == codes "start"
    then some start
    else if text == codes "resume"
    then some resume
    else if text == codes "retry"
    then some retry
    else none

-- A row. Times are in microseconds.
pub record ExecutionJob : Type 0 where
  pub pk : ℕ
  pub run_id : ℕ
  pub operation : ExecutionJobOperation
  pub status : ExecutionJobStatus
  pub payload : Value
  pub checkpoint_id : Text
  pub worker_id : Text
  pub attempts : ℕ
  pub available_at : ℕ
  pub claimed_at : Option ℕ
  pub heartbeat_at : Option ℕ
  pub finished_at : Option ℕ
  pub error_message : Text
  pub created_at : ℕ
  pub updated_at : ℕ

pub record JobTable : Type 0 where
  pub next_pk : ℕ
  pub rows : Dict ℕ ExecutionJob

pub data JobError : Type 0 where
  -- ValueError, and the IntegrityError of one_active_execution_job_per_run
  unsupported_operation integrity_error : JobError
  -- the DatabaseError of `save(update_fields=...)` on a row that is gone
  no_rows_affected : JobError
  -- a `BaseException` out of the workflow
  job_interrupted : Text → JobError

abbrev pub is_active : ExecutionJobStatus → Bool
is_active queued = true
is_active claimed = true
is_active _ = false

abbrev pub is_queued : ExecutionJobStatus → Bool
is_queued queued = true
is_queued _ = false

abbrev pub is_claimed : ExecutionJobStatus → Bool
is_claimed claimed = true
is_claimed _ = false

-- The condition of the constraint, on a row and the run of another.
abbrev pub active_for : ℕ → ExecutionJob → Bool
active_for run_id job = is_active job.status && job.run_id == run_id

-- The arguments of `enqueue_execution_job`; the payload is `dict(payload or {})`.
pub record JobRequest : Type 0 where
  pub run_id : ℕ
  pub operation : Text
  pub payload : Value
  pub checkpoint_id : Option Text

abbrev pub queued_job : ℕ → JobRequest → ExecutionJobOperation → ℕ → ℕ → ExecutionJob
queued_job pk request operation available created = record {
  pk = pk;
  run_id = request.run_id;
  operation = operation;
  status = queued;
  payload = request.payload;
  checkpoint_id = elim request.checkpoint_id [ none ↦ [] | some id ↦ id ];
  worker_id = [];
  attempts = 0;
  available_at = available;
  claimed_at = none;
  heartbeat_at = none;
  finished_at = none;
  error_message = [];
  created_at = created;
  updated_at = created;
}

-- The insertion, under the constraint.
abbrev pub insert_job : ExecutionJob → JobTable → Result JobError ExecutionJob × JobTable
insert_job job table =
    if any (active_for job.run_id) (values table.rows)
    then (err integrity_error, table)
    else (ok job, record { next_pk = suc table.next_pk; rows = put table.rows table.next_pk job })

abbrev pub enqueue_found :
    JobRequest
    → ℕ
    → ℕ
    → JobTable
    → Option ExecutionJobOperation
    → Result JobError ExecutionJob × JobTable
enqueue_found request available created table none = (err unsupported_operation, table)
enqueue_found request available created table (some operation) =
    insert_job (queued_job table.next_pk request operation available created) table

-- `available` and `created` are two readings of the clock.
unfoldable pub enqueue_execution_job :
    JobRequest → ℕ → ℕ → JobTable → Result JobError ExecutionJob × JobTable
enqueue_execution_job request available created table =
    enqueue_found request available created table (operation_of request.operation)

abbrev pub is_due : ℕ → ExecutionJob → Bool
is_due now job = is_queued job.status && leb job.available_at now

-- `.filter(...).order_by("created_at").first()`, with the key of the row in the table.
abbrev pub keep_earlier :
    ℕ → ℕ → Option ExecutionJob → Option (ℕ × ExecutionJob) → Option (ℕ × ExecutionJob)
keep_earlier now pk none best = best
keep_earlier now pk (some job) none = if is_due now job then some (pk, job) else none
keep_earlier now pk (some job) (some (other, best)) =
    if is_due now job && leb job.created_at best.created_at
    then some (pk, job)
    else some (other, best)

unfoldable pub first_due : ℕ → Dict ℕ ExecutionJob → Dict ℕ ExecutionJob → Option (ℕ × ExecutionJob)
first_due now rows [] = none
first_due now rows ((pk, _) ∷ rest) = keep_earlier now pk (get rows pk) (first_due now rows rest)

-- `worker_id or socket.gethostname()`
abbrev pub worker_identity : Option Text → Text → Text
worker_identity none hostname = hostname
worker_identity (some []) hostname = hostname
worker_identity (some (c ∷ cs)) hostname = c ∷ cs

abbrev pub claimed_job : Text → ℕ → ExecutionJob → ExecutionJob
claimed_job identity now job = record job {
  status = claimed;
  worker_id = identity;
  claimed_at = some now;
  heartbeat_at = some now;
  attempts = job.attempts + 1;
  updated_at = now;
}

abbrev pub claim_found :
    Text → ℕ → JobTable → Option (ℕ × ExecutionJob) → Option ExecutionJob × JobTable
claim_found identity now table none = (none, table)
claim_found identity now table (some (pk, job)) = (
  some (claimed_job identity now job),
  record table { rows = put table.rows pk (claimed_job identity now job) },
)

-- `queried` and `now` are two readings of the clock.
unfoldable pub claim_next_job :
    Option Text → Text → ℕ → ℕ → JobTable → Option ExecutionJob × JobTable
claim_next_job worker_id hostname queried now table =
    claim_found (take 255 (worker_identity worker_id hostname)) now table
      (first_due queried table.rows table.rows)

-- `QuerySet.update` on every row.
unfoldable pub update_rows :
    (ExecutionJob → ExecutionJob) → Dict ℕ ExecutionJob → Dict ℕ ExecutionJob
update_rows f [] = []
update_rows f ((pk, job) ∷ rows) = (pk, f job) ∷ update_rows f rows

abbrev pub beaten : ℕ → ℕ → ExecutionJob → ExecutionJob
beaten pk now row =
    if row.pk == pk && is_claimed row.status then record row { heartbeat_at = some now } else row

unfoldable pub heartbeat_job : ExecutionJob → ℕ → JobTable → JobTable
heartbeat_job job now table = record table { rows = update_rows (beaten job.pk now) table.rows }

-- `heartbeat_at < now - stale_after_seconds`; a NULL is not.
abbrev pub is_late : ℕ → ℕ → Option ℕ → Bool
is_late now stale_after_seconds none = false
is_late now stale_after_seconds (some beat) = ltb (beat + 1000000 * stale_after_seconds) now

abbrev pub is_stale : ℕ → ℕ → ExecutionJob → Bool
is_stale now stale_after_seconds row =
    is_claimed row.status && is_late now stale_after_seconds row.heartbeat_at

abbrev pub recovered : ℕ → ℕ → ℕ → ExecutionJob → ExecutionJob
recovered stale_after_seconds now later row =
    if is_stale now stale_after_seconds row
    then record row {
      status = queued;
      worker_id = [];
      claimed_at = none;
      heartbeat_at = none;
      available_at = later;
    }
    else row

abbrev pub count_if : (ExecutionJob → Bool) → List ExecutionJob → ℕ
count_if p [] = 0
count_if p (row ∷ rows) = if p row then suc (count_if p rows) else count_if p rows

-- The number of rows that were updated comes back.
unfoldable pub recover_stale_jobs : ℕ → ℕ → ℕ → JobTable → ℕ × JobTable
recover_stale_jobs stale_after_seconds now later table = (
  count_if (is_stale now stale_after_seconds) (values table.rows),
  record table { rows = update_rows (recovered stale_after_seconds now later) table.rows },
)

-- `job.save(update_fields=["status", "error_message", "finished_at", "updated_at"])`
abbrev pub finished_job : ExecutionJobStatus → Text → ℕ → ExecutionJob → ExecutionJob
finished_job status message now job = record job {
  status = status;
  error_message = message;
  finished_at = some now;
  updated_at = now;
}

abbrev pub save_found :
    ExecutionJob
    → ExecutionJobStatus
    → Text
    → ℕ
    → JobTable
    → Option ExecutionJob
    → Result JobError ExecutionJob × JobTable
save_found job status message now table none = (err no_rows_affected, table)
save_found job status message now table (some row) = (
  ok (finished_job status message now job),
  record table { rows = put table.rows job.pk (finished_job status message now row) },
)

unfoldable pub save_finished :
    ExecutionJobStatus
    → Text
    → ℕ
    → ExecutionJob
    → JobTable
    → Result JobError ExecutionJob × JobTable
save_finished status message now job table =
    save_found job status message now table (get table.rows job.pk)

-- The `except` clause, for the exceptions of the run and of the first `save`.
abbrev pub or_save_failed :
    (JobError → Text)
    → ℕ
    → ExecutionJob
    → Result JobError ExecutionJob × JobTable
    → Result JobError ExecutionJob × JobTable
or_save_failed message now job (ok saved, table) = (ok saved, table)
or_save_failed message now job (err e, table) =
    save_finished failed (take 500 (message e)) now job table

-- Exceptions, in the form that `safe_run_error_message` gives them.
pub record SafeMessages : Type 0 where
  pub run_error : RunError → Text
  pub job_error : JobError → Text

-- What surrounds one call of `execute_job`: the session of the run's service, what other workers
-- do to the table before the job is saved, and two readings of the clock.
pub record JobSession : Type 0 where
  pub run_session : Session
  pub meanwhile : JobTable → JobTable
  pub succeeded_at : ℕ
  pub failed_at : ℕ

module _ (safety : ResultSafety) (messages : SafeMessages) where
  -- The service that the operation stands for. It looks the run up, and raises the same
  -- exception as the lookup before it when there is none.
  abbrev pub run_operation :
      ExecutionJobOperation
      → ExecutionJob
      → Session
      → ControlPlane
      → Result RunError RunActionResult × ControlPlane
  run_operation start job session = start_run safety session job.run_id
  run_operation resume job session =
      resume_run safety job.payload
        (if job.checkpoint_id == [] then none else some job.checkpoint_id) session job.run_id
  run_operation retry job session = retry_run safety session job.run_id

  -- `except Exception` lets a `BaseException` pass.
  abbrev pub save_outcome :
      JobSession
      → ExecutionJob
      → Result RunError RunActionResult
      → JobTable
      → Result JobError ExecutionJob × JobTable
  save_outcome session job (ok result) table =
      or_save_failed messages.job_error session.failed_at job
        (save_finished succeeded [] session.succeeded_at job table)
  save_outcome session job (err (interrupted exc)) table = (err (job_interrupted exc), table)
  save_outcome session job (err e) table =
      save_finished failed (take 500 (messages.run_error e)) session.failed_at job table

  unfoldable pub execute_job :
      JobSession
      → ExecutionJob
      → JobTable
      → ControlPlane
      → Result JobError ExecutionJob × JobTable × ControlPlane
  execute_job session job table plane =
      let (result, after) = run_operation job.operation job session.run_session plane in
      let (saved, table_after) = save_outcome session job result (session.meanwhile table) in
      (saved, table_after, after)
