-- ===== src/Jobs/Claiming.antt =====
-- `claim_next_job` of services/jobs.py: which row it takes.
pub mod Columns
use cobalt_wren.Prelude.{
  ℕ, ◌≤◌, Bool, true, false, ◌&&◌, Option, none, some, [], ◌∷◌, leb, if◌then◌else◌, ◌≡◌, ◌≢◌, ◌∙◌,
  refl, sym, ap, subst, leb→le, ◌⊎◌, inl, inr, arith, take,
}
use cobalt_wren.Prelude.Dict.{Dict, get, put, get-put}
use cobalt_wren.Prelude.Equality.{◌==◌, nat_eq, beq_refl}
use cobalt_wren.Prelude.Text.{Text}
use cobalt_wren.Jobs.{
  ExecutionJob, JobTable, is_due, first_due, keep_earlier, claimed_job, claim_next_job,
  worker_identity, claim_found,
}

-- The row is due, and none that is due was created before it.
abbrev pub IsFirstDue : ℕ → Dict ℕ ExecutionJob → ℕ → ExecutionJob → Type 0
IsFirstDue now rows pk job =
    (get rows pk ≡ some job)
    × (is_due now job ≡ true)
    × ((k : ℕ) (other : ExecutionJob)
        → get rows k ≡ some other
        → is_due now other ≡ true
        → job.created_at ≤ other.created_at)

-- What `first_due` means, on the entries that were looked at.
abbrev Means : ℕ → Dict ℕ ExecutionJob → Dict ℕ ExecutionJob → Option (ℕ × ExecutionJob) → Type 0
Means now rows seen none =
    (k : ℕ) (other : ExecutionJob) (w : ExecutionJob)
    → get seen k ≡ some w
    → get rows k ≡ some other
    → is_due now other ≡ false
Means now rows seen (some (pk, job)) =
    (get rows pk ≡ some job)
    × (is_due now job ≡ true)
    × ((k : ℕ) (other w : ExecutionJob)
        → get seen k ≡ some w
        → get rows k ≡ some other
        → is_due now other ≡ true
        → job.created_at ≤ other.created_at)

-- An entry is the first one or a later one.
entry_cases :
    (seen : Dict ℕ ExecutionJob) (pk k : ℕ) (entry w : ExecutionJob)
    → get ((pk, entry) ∷ seen) k ≡ some w
    → (pk ≡ k) ⊎ (get seen k ≡ some w)
entry_cases seen pk k entry w f = by_test (pk == k) (nat_eq.beq_iff pk k).0 f
  where
    by_test :
        (b : Bool)
        → (b ≡ true → pk ≡ k)
        → (if b then some entry else get seen k) ≡ some w
        → (pk ≡ k) ⊎ (get seen k ≡ some w)
    by_test true h g = inl (h refl)
    by_test false h g = inr g

some-injective : {x y : ExecutionJob} → some x ≡ some y → x ≡ y
some-injective h = cc

none_absurd : {x : ExecutionJob} → ◌≡◌ {A = Option ExecutionJob} none (some x) → ⊥
none_absurd h = cc

same_row :
    (rows : Dict ℕ ExecutionJob) (pk k : ℕ) (row other : ExecutionJob)
    → pk ≡ k
    → get rows pk ≡ some row
    → get rows k ≡ some other
    → row ≡ other
same_row rows pk k row other p e g = some-injective (sym e ∙ ap (get rows) p ∙ g)

module _ (now : ℕ) (rows seen : Dict ℕ ExecutionJob) (pk : ℕ) (entry : ExecutionJob) where
  keep_nothing :
      get rows pk ≡ none → Means now rows seen none → Means now rows ((pk, entry) ∷ seen) none
  keep_nothing e m k other w f g = elim (entry_cases seen pk k entry w f) [
    | inl p ↦ absurd (none_absurd (sym e ∙ ap (get rows) p ∙ g))
    | inr f' ↦ m k other w f' g
  ]

  skip_first :
      (row : ExecutionJob)
      → get rows pk ≡ some row
      → is_due now row ≡ false
      → Means now rows seen none
      → Means now rows ((pk, entry) ∷ seen) none
  skip_first row e d m k other w f g = elim (entry_cases seen pk k entry w f) [
    | inl q ↦ subst (λ r. is_due now r ≡ false) (same_row rows pk k row other q e g) d
    | inr f' ↦ m k other w f' g
  ]

  keep_best :
      (p : ℕ) (job : ExecutionJob)
      → ((other : ExecutionJob)
          → get rows pk ≡ some other
          → is_due now other ≡ true
          → job.created_at ≤ other.created_at)
      → Means now rows seen (some (p, job))
      → Means now rows ((pk, entry) ∷ seen) (some (p, job))
  keep_best p job h (found, is_due_job, m) = (
    found,
    is_due_job,
    λ k other w f g d. elim (entry_cases seen pk k entry w f) [
      | inl q ↦ h other (ap (get rows) q ∙ g) d
      | inr f' ↦ m k other w f' g d
    ],
  )

  -- The first entry is the one to keep.
  keep_first :
      (row : ExecutionJob)
      → get rows pk ≡ some row
      → is_due now row ≡ true
      → ((k : ℕ) (other w : ExecutionJob)
          → get seen k ≡ some w
          → get rows k ≡ some other
          → is_due now other ≡ true
          → row.created_at ≤ other.created_at)
      → Means now rows ((pk, entry) ∷ seen) (some (pk, row))
  keep_first row e d m = (
    e,
    d,
    λ k other w f g d'. elim (entry_cases seen pk k entry w f) [
      | inl q ↦
          subst (λ r. row.created_at ≤ r.created_at) (same_row rows pk k row other q e g)
            (omega arith)
      | inr f' ↦ m k other w f' g d'
    ],
  )

  some_first :
      (row : ExecutionJob) (b : Bool)
      → is_due now row ≡ b
      → get rows pk ≡ some row
      → Means now rows seen none
      → Means now rows ((pk, entry) ∷ seen) (if b then some (pk, row) else none)
  some_first row true d e m =
      keep_first row e d (λ k other w f g d'. absurd (distinct_truths (sym d' ∙ m k other w f g)))
    where
      distinct_truths : true ≡ false → ⊥
      distinct_truths h = cc
  some_first row false d e m = skip_first row e d m

  earlier_first :
      (row job : ExecutionJob) (p : ℕ) (b c : Bool)
      → is_due now row ≡ b
      → leb row.created_at job.created_at ≡ c
      → get rows pk ≡ some row
      → Means now rows seen (some (p, job))
      → Means now rows ((pk, entry) ∷ seen) (if b && c then some (pk, row) else some (p, job))
  earlier_first row job p true true d l e m = keep_first row e d (λ k other w f g d'.
      omega (arith, leb→le row.created_at job.created_at l, m.2 k other w f g d'))
  earlier_first row job p true false d l e m =
      keep_best p job (λ other g d'. later other (some-injective (sym e ∙ g))) m
    where
      later : (other : ExecutionJob) → row ≡ other → job.created_at ≤ other.created_at
      later other q = subst (λ r. job.created_at ≤ r.created_at) q (ground arith)
  earlier_first row job p false c d l e m =
      keep_best p job
        (λ other g d'. absurd (
          distinct_truths
            (sym d' ∙ subst (λ r. is_due now r ≡ false) (some-injective (sym e ∙ g)) d)))
        m
    where
      distinct_truths : true ≡ false → ⊥
      distinct_truths h = cc

  keep_earlier-Means :
      (row : Option ExecutionJob) (best : Option (ℕ × ExecutionJob))
      → get rows pk ≡ row
      → Means now rows seen best
      → Means now rows ((pk, entry) ∷ seen) (keep_earlier now pk row best)
  keep_earlier-Means none none e m = keep_nothing e m
  keep_earlier-Means none (some (p, job)) e m =
      keep_best p job (λ other g d. absurd (none_absurd (sym e ∙ g))) m
  keep_earlier-Means (some row) none e m = some_first row (is_due now row) refl e m
  keep_earlier-Means (some row) (some (p, job)) e m =
      earlier_first row job p (is_due now row) (leb row.created_at job.created_at) refl refl e m

first_due-Means :
    (now : ℕ) (rows seen : Dict ℕ ExecutionJob) → Means now rows seen (first_due now rows seen)
unfolding first_due
first_due-Means now rows [] = λ k other w f g. absurd (none_absurd f)
first_due-Means now rows ((pk, entry) ∷ seen) =
    keep_earlier-Means now rows seen pk entry (get rows pk) (first_due now rows seen) refl
      (first_due-Means now rows seen)

-- What a call of `claim_next_job` makes of a table.
abbrev pub Claims : Text → ℕ → ℕ → JobTable → Option ExecutionJob × JobTable → Type 0
Claims identity queried now table (none, after) =
    (after ≡ table)
    × ((k : ℕ) (row : ExecutionJob) → get table.rows k ≡ some row → is_due queried row ≡ false)
Claims identity queried now table (some job, after) =
    (k : ℕ) × (row : ExecutionJob) × IsFirstDue queried table.rows k row
    × (job ≡ claimed_job identity now row)
    × (after ≡ record table { rows = put table.rows k job })

claim_found-Claims :
    (identity : Text) (queried now : ℕ) (table : JobTable) (found : Option (ℕ × ExecutionJob))
    → Means queried table.rows table.rows found
    → Claims identity queried now table (claim_found identity now table found)
claim_found-Claims identity queried now table none m = (refl, λ k row f. m k row row f f)
claim_found-Claims identity queried now table (some (pk, job)) m =
    (pk, job, (m.0, m.1, λ k other f d. m.2 k other other f f d), refl, refl)

pub claim_next_job-Claims :
    (worker_id : Option Text) (hostname : Text) (queried now : ℕ) (table : JobTable)
    → Claims
        (take 255 (worker_identity worker_id hostname))
        queried
        now
        table
        (claim_next_job worker_id hostname queried now table)
unfolding claim_next_job
claim_next_job-Claims worker_id hostname queried now table =
    claim_found-Claims (take 255 (worker_identity worker_id hostname)) queried now table
      (first_due queried table.rows table.rows) (first_due-Means queried table.rows table.rows)

abbrev pub IsKeyed : Dict ℕ ExecutionJob → Type 0
IsKeyed rows = (k : ℕ) (job : ExecutionJob) → get rows k ≡ some job → job.pk ≡ k

pub put-IsKeyed :
    (rows : Dict ℕ ExecutionJob) (pk : ℕ) (new : ExecutionJob)
    → new.pk ≡ pk
    → IsKeyed rows
    → IsKeyed (put rows pk new)
put-IsKeyed rows pk new e h k job f =
    by_test (pk == k) (nat_eq.beq_iff pk k).0 (sym (get-put rows pk k new) ∙ f)
  where
    by_test :
        (b : Bool)
        → (b ≡ true → pk ≡ k)
        → (if b then some new else get rows k) ≡ some job
        → job.pk ≡ k
    by_test true p g = ap (λ j. j.pk) (sym (some-injective g)) ∙ e ∙ p refl
    by_test false p g = h k job g

distinct_truths : false ≡ true → ⊥
distinct_truths h = cc

-- The row that was claimed is not due any more.
not_first :
    (rows : Dict ℕ ExecutionJob) (k l later now : ℕ) (row other : ExecutionJob) (identity : Text)
    → IsFirstDue later (put rows k (claimed_job identity now row)) l other
    → k ≢ l
not_first rows k l later now row other identity (found, d, _) p =
    claimed_not_due other
      (some-injective (sym (get-put rows k l _ ∙ rw p (rw (beq_refl l) refl)) ∙ found)) d
  where
    claimed_not_due :
        (o : ExecutionJob) → claimed_job identity now row ≡ o → is_due later o ≡ true → ⊥
    claimed_not_due o e h = distinct_truths (subst (λ r. is_due later r ≡ true) (sym e) h)

-- Two workers that claim one after the other get different jobs, where the rows are under their keys.
pub claims_differ :
    (first_id second_id : Option Text) (first_host second_host : Text)
    (first_queried first_now second_queried second_now : ℕ) (table between after : JobTable)
    (first second : ExecutionJob)
    → IsKeyed table.rows
    → claim_next_job first_id first_host first_queried first_now table ≡ (some first, between)
    → claim_next_job second_id second_host second_queried second_now between ≡ (some second, after)
    → first.pk ≢ second.pk
claims_differ first_id second_id first_host second_host first_queried first_now second_queried
      second_now table between after first second keyed one two same =
    let one_id = take 255 (worker_identity first_id first_host) in
    let two_id = take 255 (worker_identity second_id second_host) in
    let (k, row, f, e, b) =
      subst (Claims one_id first_queried first_now table) one
        (claim_next_job-Claims first_id first_host first_queried first_now table) in
    let (l, other, g, e', _) =
      subst (Claims two_id second_queried second_now between) two
        (claim_next_job-Claims second_id second_host second_queried second_now between) in
    let rows_are : between.rows ≡ put table.rows k (claimed_job one_id first_now row) =
      ap (λ t. t.rows) b ∙ ap (put table.rows k) e in
    let g' = subst (λ rows. IsFirstDue second_queried rows l other) rows_are g in
    let first_key = ap (λ j. j.pk) e ∙ keyed k row f.0 in
    let second_key =
      ap (λ j. j.pk) e'
      ∙ put-IsKeyed table.rows k (claimed_job one_id first_now row) (keyed k row f.0) keyed l other
          g'.0 in
    not_first table.rows k l second_queried first_now row other one_id g'
      (sym first_key ∙ same ∙ second_key)
