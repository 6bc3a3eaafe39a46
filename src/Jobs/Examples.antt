-- ===== src/Jobs/Examples.antt =====
-- The theorems on jobs at concrete tables.
use cobalt_wren.Prelude.{ℕ, false, Option, none, some, [], ◌∷◌, ◌≡◌, ◌≢◌, refl}
use cobalt_wren.Prelude.Dict.{put}
use cobalt_wren.Prelude.Equality.{nat_eq, list_eq}
use cobalt_wren.Prelude.Text.{codes}
use cobalt_wren.Core.Value.{dict, end}
use cobalt_wren.Runs.Transition.{ResultSafety}
use cobalt_wren.Runs.Execution.{returned, ended}
use cobalt_wren.Runs.Actions.{ControlPlane, refused, start_run}
use cobalt_wren.Jobs.{
  ExecutionJob, JobTable, JobRequest, JobSession, SafeMessages, start, enqueue_execution_job,
  claim_next_job, execute_job, first_due, claimed_job, queued_job,
}
use cobalt_wren.Jobs.Claiming.{IsKeyed, put-IsKeyed, claims_differ}
use cobalt_wren.Jobs.Claiming.Columns.{Takes, claim_next_job_lem}
use cobalt_wren.Jobs.Consistency.{
  IsConsistent, Reachable, Reachable-IsConsistent, enqueues, claims, at_start, and_then,
  empty_table,
}
use cobalt_wren.Jobs.Running.{starts_run, Ends, execute_job-Ends}

abbrev request_for : ℕ → JobRequest
request_for run_id = record {
  run_id = run_id;
  operation = codes "start";
  payload = dict end;
  checkpoint_id = none;
}

abbrev first_job : ExecutionJob
first_job = queued_job 1 (request_for 5) start 100 101

abbrev second_job : ExecutionJob
second_job = queued_job 2 (request_for 6) start 200 201

abbrev two_jobs : JobTable
two_jobs = record { next_pk = 3; rows = (1, first_job) ∷ (2, second_job) ∷ [] }

abbrev worked_table : JobTable
worked_table =
    (claim_next_job (some (codes "w")) [] 300 301
      (enqueue_execution_job (request_for 5) 102 103
        (enqueue_execution_job (request_for 5) 100 101 empty_table).1).1).1

worked : Reachable worked_table
worked =
    and_then
      (and_then (and_then at_start (enqueues (request_for 5) 100 101))
        (enqueues (request_for 5) 102 103))
      (claims (some (codes "w")) [] 300 301)

Reachable-IsConsistent_example : IsConsistent worked_table
Reachable-IsConsistent_example = Reachable-IsConsistent worked

claim_next_job_lem_example :
    Takes
      (some (codes "w"))
      []
      300
      301
      two_jobs
      (claim_next_job (some (codes "w")) [] 300 301 two_jobs)
claim_next_job_lem_example = claim_next_job_lem (some (codes "w")) [] 300 301 two_jobs

abbrev first_claimed : ExecutionJob
first_claimed = claimed_job (codes "w") 301 first_job

abbrev second_claimed : ExecutionJob
second_claimed = claimed_job (codes "x") 303 second_job

abbrev one_claimed : JobTable
one_claimed = record { next_pk = 3; rows = (1, first_claimed) ∷ (2, second_job) ∷ [] }

abbrev both_claimed : JobTable
both_claimed = record { next_pk = 3; rows = (1, first_claimed) ∷ (2, second_claimed) ∷ [] }

claims_first :
    claim_next_job (some (codes "w")) [] 300 301 two_jobs ≡ (some first_claimed, one_claimed)
unfolding claim_next_job first_due put
claims_first = refl

claims_second :
    claim_next_job (some (codes "x")) [] 302 303 one_claimed ≡ (some second_claimed, both_claimed)
unfolding claim_next_job first_due put
claims_second = refl

none_absurd : {x : ExecutionJob} → ◌≡◌ {A = Option ExecutionJob} none (some x) → ⊥
none_absurd h = cc

two_jobs-IsKeyed : IsKeyed two_jobs.rows
unfolding put
two_jobs-IsKeyed =
    put-IsKeyed ((1, first_job) ∷ []) 2 second_job refl
      (put-IsKeyed [] 1 first_job refl (λ k job f. absurd (none_absurd f)))

claims_differ_example : first_claimed.pk ≢ second_claimed.pk
claims_differ_example =
    claims_differ (some (codes "w")) (some (codes "x")) [] [] 300 301 302 303 two_jobs one_claimed
      both_claimed first_claimed second_claimed two_jobs-IsKeyed claims_first claims_second

abbrev plane : ControlPlane
plane = record { runs = []; active = []; log = [] }

abbrev safety : ResultSafety
safety = record { output_payload = λ v. v; error_message = λ t. t }

abbrev messages : SafeMessages
messages = record { run_error = λ e. codes "run failed"; job_error = λ e. codes "job failed" }

abbrev session : JobSession
session = record {
  run_session = record {
    caller = record { require_login = false; actor = none };
    started = 400;
    finished = 401;
    preparation = refused (codes "no such kind");
    event_sink = none;
    invoke = λ request plane. (
      ended (returned (record { paused = false; output = dict end; last_step_name = [] })),
      plane,
    );
  };
  meanwhile = λ table. table;
  succeeded_at = 402;
  failed_at = 403;
}

execute_job-Ends_example :
    Ends safety messages session first_claimed one_claimed plane
      (start_run safety session.run_session 5 plane).0
      (
        (execute_job safety messages session first_claimed one_claimed plane).0,
        (execute_job safety messages session first_claimed one_claimed plane).1,
      )
    × ((execute_job safety messages session first_claimed one_claimed plane).2
        ≡ (start_run safety session.run_session 5 plane).1)
execute_job-Ends_example =
    execute_job-Ends safety messages session first_claimed one_claimed plane (start_run safety)
      (starts_run refl)
