-- ===== src/Jobs/Running.antt =====
-- `execute_job` of services/jobs.py: how a job ends.
use cobalt_wren.Prelude.{
  ℕ, false, Option, none, some, [], take, ◌≡◌, ◌∙◌, refl, sym, ap, subst, ◌⊎◌, inl, inr,
}
use cobalt_wren.Prelude.Dict.{get, get-put_self}
use cobalt_wren.Prelude.Equality.{◌==◌, nat_eq, list_eq}
use cobalt_wren.Prelude.Result.{Result, ok, err}
use cobalt_wren.Prelude.Text.{Text}
use cobalt_wren.Runs.Transition.{ResultSafety}
use cobalt_wren.Runs.Actions.{
  ControlPlane, RunError, run_does_not_exist, permission_error, preparation_crashed,
  blank_checkpoint_id, timeout_overflow, sink_raised, interrupted, RunActionResult, Session,
  start_run, resume_run, retry_run,
}
use cobalt_wren.Jobs.{
  ExecutionJobStatus, succeeded, failed, start, resume, retry, ExecutionJob, JobTable, JobError,
  no_rows_affected, job_interrupted, SafeMessages, JobSession, finished_job, save_found,
  save_finished, or_save_failed, run_operation, save_outcome, execute_job,
}
use cobalt_wren.Jobs.Consistency.{Reachable, and_then, succeeds, fails}

-- The row `after` is the row `before`, finished: every column of it.
abbrev pub IsFinished : ExecutionJobStatus → Text → ℕ → ExecutionJob → ExecutionJob → Type 0
IsFinished status message now before after =
    (after.status ≡ status)
    × (after.error_message ≡ message)
    × (after.finished_at ≡ some now)
    × (after.updated_at ≡ now)
    × (after.pk ≡ before.pk)
    × (after.run_id ≡ before.run_id)
    × (after.operation ≡ before.operation)
    × (after.payload ≡ before.payload)
    × (after.checkpoint_id ≡ before.checkpoint_id)
    × (after.worker_id ≡ before.worker_id)
    × (after.attempts ≡ before.attempts)
    × (after.available_at ≡ before.available_at)
    × (after.claimed_at ≡ before.claimed_at)
    × (after.heartbeat_at ≡ before.heartbeat_at)
    × (after.created_at ≡ before.created_at)

-- How a save of a job as succeeded or failed ends, on the table it finds: the row is there and is
-- finished, as the job is that comes back, or it is gone and nothing is written.
abbrev pub Saves :
    ExecutionJobStatus
    → Text
    → ℕ
    → ExecutionJob
    → JobTable
    → Result JobError ExecutionJob × JobTable
    → Type 0
Saves status message now job table (result, after) =
    ((row saved new : ExecutionJob) × (get table.rows job.pk ≡ some row)
      × (result ≡ ok saved)
      × IsFinished status message now job saved
      × (get after.rows job.pk ≡ some new)
      × IsFinished status message now row new)
    ⊎ ((get table.rows job.pk ≡ none) × (result ≡ err no_rows_affected) × (after ≡ table))

save_finished-Saves :
    (status : ExecutionJobStatus) (message : Text) (now : ℕ) (job : ExecutionJob) (table : JobTable)
    → Saves status message now job table (save_finished status message now job table)
unfolding save_finished
save_finished-Saves status message now job table = by_row (get table.rows job.pk) refl
  where
    by_row :
        (o : Option ExecutionJob)
        → get table.rows job.pk ≡ o
        → Saves status message now job table (save_found job status message now table o)
    by_row none e = inr (e, refl, refl)
    by_row (some row) e = inl (
      row,
      finished_job status message now job,
      finished_job status message now row,
      e,
      refl,
      (refl, refl, refl, refl, refl, refl, refl, refl, refl, refl, refl, refl, refl, refl, refl),
      get-put_self table.rows job.pk _,
      (refl, refl, refl, refl, refl, refl, refl, refl, refl, refl, refl, refl, refl, refl, refl),
    )

save_finished_gone :
    (status : ExecutionJobStatus) (message : Text) (now : ℕ) (job : ExecutionJob) (table : JobTable)
    → get table.rows job.pk ≡ none
    → save_finished status message now job table ≡ (err no_rows_affected, table)
unfolding save_finished
save_finished_gone status message now job table gone =
    ap (save_found job status message now table) gone

ok_absurd :
    {a : ExecutionJob} {e : JobError} → ◌≡◌ {A = Result JobError ExecutionJob} (ok a) (err e) → ⊥
ok_absurd h = cc

-- The service that a job stands for, by its operation; a resume takes the payload of the job, and
-- its checkpoint if it names one.
pub data Runs (safety : ResultSafety) (job : ExecutionJob)
    : (Session → ℕ → ControlPlane → Result RunError RunActionResult × ControlPlane) → Type 0 where
  starts_run : job.operation ≡ start → Runs safety job (start_run safety)
  retries_run : job.operation ≡ retry → Runs safety job (retry_run safety)
  resumes_latest :
      job.operation ≡ resume
      → job.checkpoint_id ≡ []
      → Runs safety job (resume_run safety job.payload none)
  resumes_at :
      job.operation ≡ resume
      → (job.checkpoint_id == []) ≡ false
      → Runs safety job (resume_run safety job.payload (some job.checkpoint_id))

module _ (safety : ResultSafety) (messages : SafeMessages) where
  -- What the exception handler of `execute_job` leaves of a first save.
  save_succeeded_lem :
      (first second : ℕ) (job : ExecutionJob) (table : JobTable)
      → Saves succeeded [] first job table (
          or_save_failed messages.job_error second job (save_finished succeeded [] first job table))
  save_succeeded_lem first second job table =
      by_save (save_finished succeeded [] first job table)
        (save_finished-Saves succeeded [] first job table)
    where
      by_save :
          (r : Result JobError ExecutionJob × JobTable)
          → Saves succeeded [] first job table r
          → Saves succeeded [] first job table (or_save_failed messages.job_error second job r)
      by_save (ok saved, after) s = s
      by_save (err e, after) (inl (_, _, _, _, r, _, _, _)) = absurd (ok_absurd (sym r))
      by_save (err e, after) (inr (gone, _, a)) =
          subst (Saves succeeded [] first job table)
            (sym (
              save_finished_gone failed (take 500 (messages.job_error e)) second job after
                (ap (λ t. get t.rows job.pk) a ∙ gone)))
            (inr (gone, refl, a))

  module _ (session : JobSession) (job : ExecutionJob) (table : JobTable)
      (plane : ControlPlane) where
    -- How an execution ends, by the result of the run's service.
    abbrev pub Ends :
        Result RunError RunActionResult → Result JobError ExecutionJob × JobTable → Type 0
    Ends (ok result) saved =
        Saves succeeded [] session.succeeded_at job (session.meanwhile table) saved
    Ends (err (interrupted exc)) (result, after) =
        (result ≡ err (job_interrupted exc)) × (after ≡ session.meanwhile table)
    Ends (err e) saved =
        Saves failed (take 500 (messages.run_error e)) session.failed_at job
          (session.meanwhile table) saved

    save_outcome-Ends :
        (r : Result RunError RunActionResult)
        → Ends r (save_outcome safety messages session job r (session.meanwhile table))
    save_outcome-Ends (ok r) =
        save_succeeded_lem session.succeeded_at session.failed_at job (session.meanwhile table)
    save_outcome-Ends (err run_does_not_exist) =
        save_finished-Saves failed _ session.failed_at job _
    save_outcome-Ends (err (permission_error t)) =
        save_finished-Saves failed _ session.failed_at job _
    save_outcome-Ends (err (preparation_crashed t)) =
        save_finished-Saves failed _ session.failed_at job _
    save_outcome-Ends (err blank_checkpoint_id) =
        save_finished-Saves failed _ session.failed_at job _
    save_outcome-Ends (err timeout_overflow) = save_finished-Saves failed _ session.failed_at job _
    save_outcome-Ends (err (sink_raised t)) = save_finished-Saves failed _ session.failed_at job _
    save_outcome-Ends (err (interrupted t)) = (refl, refl)

    run_operation-Runs :
        (service : Session → ℕ → ControlPlane → Result RunError RunActionResult × ControlPlane)
        → Runs safety job service
        → run_operation safety messages job.operation job session.run_session plane
          ≡ service session.run_session job.run_id plane
    run_operation-Runs _ (starts_run e) = rw e refl
    run_operation-Runs _ (retries_run e) = rw e refl
    run_operation-Runs _ (resumes_latest e named) = rw e (rw named refl)
    run_operation-Runs _ (resumes_at e named) = rw e (rw named refl)

    -- The service that the job stands for is called with its run, and how it ends is written to the
    -- row that the table has by then: the job succeeds if the service returns, whatever the status
    -- of the run, and fails with the message of its exception otherwise, cut to 500 characters. The
    -- call raises only where that row is gone, or where the workflow is interrupted, and then
    -- writes nothing.
    pub execute_job-Ends :
        (service : Session → ℕ → ControlPlane → Result RunError RunActionResult × ControlPlane)
        → Runs safety job service
        → Ends (service session.run_session job.run_id plane).0 (
          (execute_job safety messages session job table plane).0,
          (execute_job safety messages session job table plane).1,
        )
          × ((execute_job safety messages session job table plane).2
              ≡ (service session.run_session job.run_id plane).1)
    unfolding execute_job
    execute_job-Ends service runs = rw (run_operation-Runs service runs) (save_outcome-Ends _, refl)

    -- An execution is a number of steps on the table that the other workers leave.
    execute_job-Reachable :
        Reachable (session.meanwhile table)
        → Reachable (execute_job safety messages session job table plane).1
    unfolding execute_job
    execute_job-Reachable reach =
        by_result (run_operation safety messages job.operation job session.run_session plane).0
      where
        by_save :
            (r : Result JobError ExecutionJob × JobTable)
            → Reachable r.1
            → Reachable (or_save_failed messages.job_error session.failed_at job r).1
        by_save (ok saved, after) h = h
        by_save (err e, after) h = and_then h (fails _ session.failed_at job)

        by_result :
            (r : Result RunError RunActionResult)
            → Reachable (save_outcome safety messages session job r (session.meanwhile table)).1
        by_result (ok r) =
            by_save (save_finished succeeded [] session.succeeded_at job (session.meanwhile table))
              (and_then reach (succeeds [] session.succeeded_at job))
        by_result (err run_does_not_exist) = and_then reach (fails _ session.failed_at job)
        by_result (err (permission_error t)) = and_then reach (fails _ session.failed_at job)
        by_result (err (preparation_crashed t)) = and_then reach (fails _ session.failed_at job)
        by_result (err blank_checkpoint_id) = and_then reach (fails _ session.failed_at job)
        by_result (err timeout_overflow) = and_then reach (fails _ session.failed_at job)
        by_result (err (sink_raised t)) = and_then reach (fails _ session.failed_at job)
        by_result (err (interrupted t)) = reach
