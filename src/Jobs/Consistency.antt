-- ===== src/Jobs/Consistency.antt =====
-- services/jobs.py: at most one job of a run is active, whatever calls were made.
use cobalt_wren.Prelude.{
  ℕ, suc, ◌<◌, take, Bool, true, false, Option, none, some, [], ◌∷◌, if◌then◌else◌, any, ◌≡◌, ◌∙◌,
  refl, sym, ap, subst, ◌⊎◌, inl, inr, arith, Bool-cases, Option-cases,
}
use cobalt_wren.Prelude.Dict.{Dict, get, put, values, get-put}
use cobalt_wren.Prelude.Equality.{◌==◌, nat_eq, beq_refl}
use cobalt_wren.Prelude.Result.{Result, ok, err}
use cobalt_wren.Prelude.Text.{Text}
use cobalt_wren.Jobs.Claiming.{IsKeyed, put-IsKeyed, Claims, claim_next_job-Claims}
use cobalt_wren.Jobs.{
  integrity_error, save_found, finished_job, worker_identity, ExecutionJobStatus,
  ExecutionJobOperation, ExecutionJob, JobTable, JobError, JobRequest, is_active, active_for,
  operation_of, insert_job, enqueue_execution_job, enqueue_found, claim_next_job, update_rows,
  heartbeat_job, recover_stale_jobs, save_finished, beaten, recovered, is_due, succeeded, failed,
}

-- Two active rows of one run are one row.
abbrev pub OneActive : Dict ℕ ExecutionJob → Type 0
OneActive rows =
    (k l : ℕ) (i j : ExecutionJob)
    → get rows k ≡ some i
    → get rows l ≡ some j
    → is_active i.status ≡ true
    → is_active j.status ≡ true
    → i.run_id ≡ j.run_id
    → k ≡ l

-- And every row stands under its own key, below the next key.
abbrev pub IsConsistent : JobTable → Type 0
IsConsistent table =
    OneActive table.rows
    × IsKeyed table.rows
    × ((k : ℕ) (job : ExecutionJob) → get table.rows k ≡ some job → k < table.next_pk)

-- A change of a row that keeps its run and key and makes no finished job active.
abbrev pub Harmless : ExecutionJob → ExecutionJob → Type 0
Harmless old new =
    (is_active new.status ≡ true → is_active old.status ≡ true)
    × (new.run_id ≡ old.run_id)
    × (new.pk ≡ old.pk)

-- Every row of the second table is a harmless change of the row of that key in the first.
abbrev pub ComesFrom : Dict ℕ ExecutionJob → Dict ℕ ExecutionJob → Type 0
ComesFrom rows changed =
    (k : ℕ) (new : ExecutionJob)
    → get changed k ≡ some new
    → (old : ExecutionJob) × (get rows k ≡ some old) × Harmless old new

ComesFrom-IsConsistent :
    (table : JobTable) (changed : Dict ℕ ExecutionJob)
    → ComesFrom table.rows changed
    → IsConsistent table
    → IsConsistent (record table { rows = changed })
ComesFrom-IsConsistent table changed from c = (
  λ k l i j f g a b r.
      let (i', f', h) = from k i f in
      let (j', g', h') = from l j g in c.0 k l i' j' f' g' (h.0 a) (h'.0 b) (sym h.1 ∙ r ∙ h'.1),
  (λ k job f. let (old, f', h) = from k job f in h.2 ∙ c.1 k old f'),
  λ k job f. let (old, f', h) = from k job f in c.2 k old f',
)

get-put_here :
    (rows : Dict ℕ ExecutionJob) (pk k : ℕ) (new : ExecutionJob)
    → (pk == k) ≡ true
    → get (put rows pk new) k ≡ some new
get-put_here rows pk k new same = get-put rows pk k new ∙ rw same refl

get-put_elsewhere :
    (rows : Dict ℕ ExecutionJob) (pk k : ℕ) (new : ExecutionJob)
    → (pk == k) ≡ false
    → get (put rows pk new) k ≡ get rows k
get-put_elsewhere rows pk k new other = get-put rows pk k new ∙ rw other refl

some-injective : {x y : ExecutionJob} → some x ≡ some y → x ≡ y
some-injective h = cc

put-ComesFrom :
    (rows : Dict ℕ ExecutionJob) (pk : ℕ) (old new : ExecutionJob)
    → get rows pk ≡ some old
    → Harmless old new
    → ComesFrom rows (put rows pk new)
put-ComesFrom rows pk old new found h k job f = elim (Bool-cases (pk == k)) [
  | inl same ↦ (
    old,
    ap (get rows) (sym ((nat_eq.beq_iff pk k).0 same)) ∙ found,
    subst (Harmless old) (some-injective (sym (get-put_here rows pk k new same) ∙ f)) h,
  )
  | inr other ↦ (job, sym (get-put_elsewhere rows pk k new other) ∙ f, ((λ a. a), refl, refl))
]

get-update_rows :
    (f : ExecutionJob → ExecutionJob) (rows : Dict ℕ ExecutionJob) (k : ℕ)
    → get (update_rows f rows) k ≡ (elim (get rows k) [ none ↦ none | some job ↦ some (f job) ])
unfolding update_rows
get-update_rows f [] k = refl
get-update_rows f ((pk, job) ∷ rows) k = ground (arith, get-update_rows f rows k)

get_updated :
    (f : ExecutionJob → ExecutionJob) (rows : Dict ℕ ExecutionJob) (k : ℕ) (o : Option ExecutionJob)
    → get rows k ≡ o
    → get (update_rows f rows) k ≡ (elim o [ none ↦ none | some job ↦ some (f job) ])
get_updated f rows k o e =
    get-update_rows f rows k ∙ ap (λ o. elim o [ none ↦ none | some job ↦ some (f job) ]) e

missing_absurd : {x : ExecutionJob} → ◌≡◌ {A = Option ExecutionJob} none (some x) → ⊥
missing_absurd h = cc

update_rows-ComesFrom :
    (f : ExecutionJob → ExecutionJob) (rows : Dict ℕ ExecutionJob)
    → ((job : ExecutionJob) → Harmless job (f job))
    → ComesFrom rows (update_rows f rows)
update_rows-ComesFrom f rows h k new found = elim (Option-cases (get rows k)) [
  | inl missing ↦ absurd (missing_absurd (sym (get_updated f rows k none missing) ∙ found))
  | inr (old, there) ↦ (
    old,
    there,
    subst (Harmless old) (some-injective (sym (get_updated f rows k (some old) there) ∙ found))
        (h old),
  )
]

-- The constraint holds of a run: none of its rows is active.
none_active :
    (rows : Dict ℕ ExecutionJob) (run_id k : ℕ) (job : ExecutionJob)
    → any (active_for run_id) (values rows) ≡ false
    → get rows k ≡ some job
    → active_for run_id job ≡ false
none_active [] run_id k job h f = absurd (cc)
none_active ((pk, row) ∷ rows) run_id k job h f = ground (arith, none_active rows run_id k job)

due_active : (now : ℕ) (row : ExecutionJob) → is_due now row ≡ true → is_active row.status ≡ true
due_active now row h = ground arith

distinct_truths : false ≡ true → ⊥
distinct_truths h = cc

entry_put :
    (rows : Dict ℕ ExecutionJob) (pk k : ℕ) (new job : ExecutionJob)
    → get (put rows pk new) k ≡ some job
    → ((pk ≡ k) × (new ≡ job)) ⊎ (get rows k ≡ some job)
entry_put rows pk k new job f =
    by_test (pk == k) (nat_eq.beq_iff pk k).0 (sym (get-put rows pk k new) ∙ f)
  where
    by_test :
        (b : Bool)
        → (b ≡ true → pk ≡ k)
        → (if b then some new else get rows k) ≡ some job
        → ((pk ≡ k) × (new ≡ job)) ⊎ (get rows k ≡ some job)
    by_test true p g = inl (p refl, some-injective g)
    by_test false p g = inr g

-- A row that is active for the run breaks the constraint.
clash :
    (rows : Dict ℕ ExecutionJob) (run_id k : ℕ) (job : ExecutionJob)
    → any (active_for run_id) (values rows) ≡ false
    → get rows k ≡ some job
    → is_active job.status ≡ true
    → job.run_id ≡ run_id
    → ⊥
clash rows run_id k job h f a r =
    distinct_truths (sym (none_active rows run_id k job h f) ∙ rw a (rw r (beq_refl run_id)))

put_new-IsConsistent :
    (table : JobTable) (job : ExecutionJob)
    → job.pk ≡ table.next_pk
    → any (active_for job.run_id) (values table.rows) ≡ false
    → IsConsistent table
    → IsConsistent (record { next_pk = suc table.next_pk; rows = put table.rows table.next_pk job })
put_new-IsConsistent table job e h (one, keyed, below) = (
  (λ k l i j f g a b r. elim (entry_put table.rows table.next_pk k job i f) [
    | inl (p, is_i) ↦ elim (entry_put table.rows table.next_pk l job j g) [
      | inl (q, _) ↦ sym p ∙ q
      | inr g' ↦
          absurd (clash table.rows job.run_id l j h g' b (sym r ∙ sym (ap (λ x. x.run_id) is_i)))
    ]
    | inr f' ↦ elim (entry_put table.rows table.next_pk l job j g) [
      | inl (q, is_j) ↦
          absurd (clash table.rows job.run_id k i h f' a (r ∙ sym (ap (λ x. x.run_id) is_j)))
      | inr g' ↦ one k l i j f' g' a b r
    ]
  ]),
  put-IsKeyed table.rows table.next_pk job e keyed,
  λ k i f. elim (entry_put table.rows table.next_pk k job i f) [
    | inl (p, _) ↦ omega (arith, p)
    | inr f' ↦ omega (arith, below k i f')
  ],
)

insert_job-IsConsistent :
    (table : JobTable) (job : ExecutionJob)
    → job.pk ≡ table.next_pk
    → IsConsistent table
    → IsConsistent (insert_job job table).1
insert_job-IsConsistent table job e c =
    by_constraint (any (active_for job.run_id) (values table.rows)) refl
  where
    by_constraint :
        (b : Bool)
        → any (active_for job.run_id) (values table.rows) ≡ b
        → IsConsistent
            (if◌then◌else◌ {A = Result JobError ExecutionJob × JobTable} b
              (err integrity_error, table)
              (
                ok job,
                record { next_pk = suc table.next_pk; rows = put table.rows table.next_pk job },
              )).1
    by_constraint true h = c
    by_constraint false h = put_new-IsConsistent table job e h c

enqueue_execution_job-IsConsistent :
    (request : JobRequest) (available created : ℕ) (table : JobTable)
    → IsConsistent table
    → IsConsistent (enqueue_execution_job request available created table).1
unfolding enqueue_execution_job
enqueue_execution_job-IsConsistent request available created table c =
    by_operation (operation_of request.operation)
  where
    by_operation :
        (o : Option ExecutionJobOperation)
        → IsConsistent (enqueue_found request available created table o).1
    by_operation none = c
    by_operation (some o) = insert_job-IsConsistent table _ refl c

claim_next_job-IsConsistent :
    (worker_id : Option Text) (hostname : Text) (queried now : ℕ) (table : JobTable)
    → IsConsistent table
    → IsConsistent (claim_next_job worker_id hostname queried now table).1
claim_next_job-IsConsistent worker_id hostname queried now table c =
    by_claim (take 255 (worker_identity worker_id hostname))
      (claim_next_job worker_id hostname queried now table)
      (claim_next_job-Claims worker_id hostname queried now table)
  where
    by_claim :
        (identity : Text) (r : Option ExecutionJob × JobTable)
        → Claims identity queried now table r
        → IsConsistent r.1
    by_claim identity (none, after) (e, _) = subst IsConsistent (sym e) c
    by_claim identity (some job, after) (k, row, f, e, a) = subst IsConsistent (sym a) (
        ComesFrom-IsConsistent table (put table.rows k job)
          (put-ComesFrom table.rows k row job f.0
            (subst (Harmless row) (sym e) ((λ _. due_active queried row f.1), refl, refl)))
          c)

heartbeat_job-IsConsistent :
    (job : ExecutionJob) (now : ℕ) (table : JobTable)
    → IsConsistent table
    → IsConsistent (heartbeat_job job now table)
unfolding heartbeat_job
heartbeat_job-IsConsistent job now table c =
    ComesFrom-IsConsistent table _
      (update_rows-ComesFrom (beaten job.pk now) table.rows λ row. ground arith) c

recover_stale_jobs-IsConsistent :
    (stale_after_seconds now later : ℕ) (table : JobTable)
    → IsConsistent table
    → IsConsistent (recover_stale_jobs stale_after_seconds now later table).1
unfolding recover_stale_jobs
recover_stale_jobs-IsConsistent stale_after_seconds now later table c =
    ComesFrom-IsConsistent table _
      (update_rows-ComesFrom (recovered stale_after_seconds now later) table.rows
        λ row. ground arith)
      c

save_finished-IsConsistent :
    (status : ExecutionJobStatus) (message : Text) (now : ℕ) (job : ExecutionJob) (table : JobTable)
    → is_active status ≡ false
    → IsConsistent table
    → IsConsistent (save_finished status message now job table).1
unfolding save_finished
save_finished-IsConsistent status message now job table s c = by_row (get table.rows job.pk) refl
  where
    by_row :
        (o : Option ExecutionJob)
        → get table.rows job.pk ≡ o
        → IsConsistent (save_found job status message now table o).1
    by_row none e = c
    by_row (some row) e =
        ComesFrom-IsConsistent table _
          (put-ComesFrom table.rows job.pk row (finished_job status message now row) e
            ((λ a. absurd (distinct_truths (sym s ∙ a))), refl, refl))
          c

-- The calls on the table: what an execution writes is one of its two ways to save the job.
pub data Step : JobTable → JobTable → Type 0 where
  enqueues :
      {table : JobTable} (request : JobRequest) (available created : ℕ)
      → Step table (enqueue_execution_job request available created table).1
  claims :
      {table : JobTable} (worker_id : Option Text) (hostname : Text) (queried now : ℕ)
      → Step table (claim_next_job worker_id hostname queried now table).1
  beats :
      {table : JobTable} (job : ExecutionJob) (now : ℕ) → Step table (heartbeat_job job now table)
  recovers :
      {table : JobTable} (stale_after_seconds now later : ℕ)
      → Step table (recover_stale_jobs stale_after_seconds now later table).1
  succeeds :
      {table : JobTable} (message : Text) (now : ℕ) (job : ExecutionJob)
      → Step table (save_finished succeeded message now job table).1
  fails :
      {table : JobTable} (message : Text) (now : ℕ) (job : ExecutionJob)
      → Step table (save_finished failed message now job table).1

abbrev pub empty_table : JobTable
empty_table = record { next_pk = 1; rows = [] }

-- The tables that calls of any number of workers, in any order, lead to.
pub data Reachable : JobTable → Type 0 where
  at_start : Reachable empty_table
  and_then : {table next : JobTable} → Reachable table → Step table next → Reachable next

Step-IsConsistent :
    {table next : JobTable} → Step table next → IsConsistent table → IsConsistent next
Step-IsConsistent {table} (enqueues request available created) c =
    enqueue_execution_job-IsConsistent request available created table c
Step-IsConsistent {table} (claims worker_id hostname queried now) c =
    claim_next_job-IsConsistent worker_id hostname queried now table c
Step-IsConsistent {table} (beats job now) c = heartbeat_job-IsConsistent job now table c
Step-IsConsistent {table} (recovers stale now later) c =
    recover_stale_jobs-IsConsistent stale now later table c
Step-IsConsistent {table} (succeeds message now job) c =
    save_finished-IsConsistent succeeded message now job table refl c
Step-IsConsistent {table} (fails message now job) c =
    save_finished-IsConsistent failed message now job table refl c

-- However the calls of the workers follow each other, no run ever has two jobs that are queued or
-- claimed, every row stands under its own key, and the next key is free.
pub Reachable-IsConsistent : {table : JobTable} → Reachable table → IsConsistent table
Reachable-IsConsistent at_start = (
  (λ k l i j f g a b r. absurd (missing_absurd f)),
  (λ k job f. absurd (missing_absurd f)),
  λ k job f. absurd (missing_absurd f),
)
Reachable-IsConsistent (and_then r s) = Step-IsConsistent s (Reachable-IsConsistent r)
