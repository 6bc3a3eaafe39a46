-- ===== src/Checkpoint/MemoryStore/Reads.antt =====
-- The reads of integrations/checkpoint/memory_store.py on the stream of a history.
use cobalt_wren.Prelude.{
  ℕ, zero, suc, ◌+◌, ◌≤◌, true, Option, none, some, List, [], ◌∷◌, ◌++◌, ◌≡◌, refl, ap, length,
  arith, ◌∙◌,
}
use cobalt_wren.Prelude.Dict.{get, get-put}
use cobalt_wren.Prelude.Equality.{◌==◌, nat_eq, list_eq, list_beq_iff, beq_refl}
use cobalt_wren.Prelude.Text.{Text}
use cobalt_wren.Prelude.Result.{ok, on_ok, ok-injective}
use cobalt_wren.Checkpoint.Normalize.{normalize_checkpoint_body}
use cobalt_wren.Checkpoint.Types.{StoredCheckpoint, CheckpointReadResult, read_result}
use cobalt_wren.Checkpoint.MemoryStore.{
  Sha256, MemoryCheckpointRecord, MemoryCheckpointStream, clone_checkpoint, clone_read_result,
  latest_of, checkpoint_of, list_revisions, sorted, insert_sorted, verify_listing_record,
  verified_read, record_read, head_read, listed, listed_id, list_of,
}
use cobalt_wren.Checkpoint.MemoryStore.History.{
  History, record_id, by_revision, stream_of, find, Extends, IsHistory, find-Extends, get-by_id,
  keys-by_revision, up_to,
}
use cobalt_wren.Checkpoint.MemoryStore.Refinement.{verify_intact}

-- What a reader gets of a record.
abbrev pub as_read : MemoryCheckpointRecord → CheckpointReadResult
as_read r = record { checkpoint = r.descriptor; body = r.body }

abbrev pub read_found : Option MemoryCheckpointRecord → Option CheckpointReadResult
read_found none = none
read_found (some r) = some (as_read r)

abbrev pub newest : History → Option MemoryCheckpointRecord
newest [] = none
newest (r ∷ c) = some r

-- The descriptors, the oldest first.
abbrev pub listing : History → List StoredCheckpoint
listing [] = []
listing (r ∷ c) = listing c ++ r.descriptor ∷ []

module _ (sha256 : Sha256) where
  verified_read_lem :
      (c : History) (r : MemoryCheckpointRecord)
      → Extends sha256 c r
      → verified_read sha256 r ≡ ok (some (as_read r))
  unfolding verified_read clone_read_result clone_checkpoint read_result normalize_checkpoint_body
  verified_read_lem c r h = rw (verify_intact sha256 c r h) (rw h.normal)

  record_read_lem :
      (c : History) (id : Text) (o : Option MemoryCheckpointRecord)
      → IsHistory sha256 c
      → find c id ≡ o
      → record_read sha256 o ≡ ok (read_found o)
  unfolding record_read
  record_read_lem c id none h e = refl
  record_read_lem c id (some r) h e =
      let (d, ext, _) = find-Extends sha256 c id r h e in verified_read_lem d r ext

  pub checkpoint_of_lem :
      (c : History) (id : Text)
      → IsHistory sha256 c
      → checkpoint_of sha256 id (some (stream_of c)) ≡ ok (read_found (find c id))
  checkpoint_of_lem c id h =
      unfold checkpoint_of stream_of in
      rw (get-by_id c id) (record_read_lem c id (find c id) h refl)

  pub latest_of_lem :
      (c : History)
      → IsHistory sha256 c
      → latest_of sha256 (some (stream_of c)) ≡ ok (read_found (newest c))
  unfolding latest_of stream_of
  latest_of_lem [] h = refl
  latest_of_lem (r ∷ c) h =
      rw (get-by_id (r ∷ c) (record_id r), head_read)
        (rw (beq_refl (record_id r)) (verified_read_lem c r h.0))

  size_matches :
      (c : History) (r : MemoryCheckpointRecord)
      → Extends sha256 c r
      → (r.descriptor.size == length r.body) ≡ true
  size_matches c r h = rw h.size (beq_refl (length r.body))

  listed_lem :
      (c : History) (r : MemoryCheckpointRecord)
      → Extends sha256 c r
      → listed (some r) ≡ ok r.descriptor
  unfolding listed clone_checkpoint verify_listing_record
  listed_lem c r h = rw (size_matches c r h) h.normal

  -- The older part `c` of the history that `stream` stands for.
  pub record IsOlder (c : History) (stream : MemoryCheckpointStream) : Type 0 where
    pub revisions :
        (n : ℕ) → n ≤ length c → get stream.records_by_revision n ≡ get (by_revision c) n
    pub ids :
        (id : Text) (r : MemoryCheckpointRecord)
        → find c id ≡ some r
        → get stream.records_by_id id ≡ some r

  IsOlder-tail :
      (c : History) (r : MemoryCheckpointRecord) (stream : MemoryCheckpointStream)
      → Extends sha256 c r
      → IsOlder (r ∷ c) stream
      → IsOlder c stream
  IsOlder-tail c r stream x h = record {
    revisions = λ n b.
        h.revisions n (omega arith)
        ∙ (unfold by_revision in
            rw (get-put (by_revision c) (suc (length c)) n (record_id r)) (ground arith));
    ids = λ id s e. h.ids id s (ground (arith, list_beq_iff (record_id r) id, x.fresh));
  }

  list_revisions_snoc :
      (stream : MemoryCheckpointStream) (ns : List ℕ) (n : ℕ) (ds : List StoredCheckpoint)
      (d : StoredCheckpoint)
      → list_revisions stream ns ≡ ok ds
      → listed_id stream (get stream.records_by_revision n) ≡ ok d
      → list_revisions stream (ns ++ n ∷ []) ≡ ok (ds ++ d ∷ [])
  unfolding list_revisions
  list_revisions_snoc stream [] n ds d h k = rw k (rw (← ok-injective h))
  list_revisions_snoc stream (m ∷ ns) n ds d h k =
      on_ok (listed_id stream (get stream.records_by_revision m)) _ h λ c e h1.
        on_ok (list_revisions stream ns) _ h1 λ rest e' h2.
          rw e (rw (list_revisions_snoc stream ns n rest d e' k) (rw (← ok-injective h2)))

  last_listed :
      (c : History) (r : MemoryCheckpointRecord) (stream : MemoryCheckpointStream)
      → Extends sha256 c r
      → IsOlder (r ∷ c) stream
      → listed_id stream (get stream.records_by_revision (suc (length c))) ≡ ok r.descriptor
  last_listed c r stream h o = rw (o.revisions (suc (length c)) (omega arith)) (
      unfold by_revision in
      rw (get-put (by_revision c) (suc (length c)) (suc (length c)) (record_id r)) (
        rw (beq_refl (suc (length c))) (
          unfold listed_id in
          rw (o.ids (record_id r) r (rw (beq_refl (record_id r)))) (listed_lem c r h))))

  list_older :
      (c : History) (stream : MemoryCheckpointStream)
      → IsHistory sha256 c
      → IsOlder c stream
      → list_revisions stream (up_to (length c)) ≡ ok (listing c)
  list_older [] stream h o = unfold list_revisions in refl
  list_older (r ∷ c) stream h o =
      list_revisions_snoc stream (up_to (length c)) (suc (length c)) (listing c) r.descriptor
        (list_older c stream h.1 (IsOlder-tail c r stream h.0 o)) (last_listed c r stream h.0 o)

-- a, a + 1, ..., a + k - 1
run_from : ℕ → ℕ → List ℕ
run_from a zero = []
run_from a (suc k) = a ∷ run_from (suc a) k

run_from_snoc : (a k : ℕ) → run_from a k ++ (a + k) ∷ [] ≡ run_from a (suc k)
unfolding run_from
run_from_snoc a zero = ap (λ (n : ℕ). n ∷ []) (omega arith)
run_from_snoc a (suc k) =
    ap (λ (l : List ℕ). a ∷ l)
      (ap (λ (n : ℕ). run_from (suc a) k ++ n ∷ []) (omega arith) ∙ run_from_snoc (suc a) k)

up_to-run : (n : ℕ) → up_to n ≡ run_from 1 n
unfolding run_from
up_to-run zero = refl
up_to-run (suc n) =
    rw (up_to-run n) (ap (λ (m : ℕ). run_from 1 n ++ m ∷ []) (omega arith) ∙ run_from_snoc 1 n)

insert_sorted_run : (a k : ℕ) → insert_sorted a (run_from (suc a) k) ≡ a ∷ run_from (suc a) k
unfolding insert_sorted run_from
insert_sorted_run a zero = refl
insert_sorted_run a (suc k) = ground arith

sorted_run : (a k : ℕ) → sorted (run_from a k) ≡ run_from a k
unfolding sorted run_from
sorted_run a zero = refl
sorted_run a (suc k) = rw (sorted_run (suc a) k) (insert_sorted_run a k)

sorted-up_to : (n : ℕ) → sorted (up_to n) ≡ up_to n
sorted-up_to n = rw (up_to-run n) (sorted_run 1 n)

-- Listing the stream of a history never fails, and gives its descriptors in the order of their
-- revisions.
pub list_of_lem :
    (sha256 : Sha256) (c : History)
    → IsHistory sha256 c
    → list_of (some (stream_of c)) ≡ ok (listing c)
list_of_lem sha256 c h =
    unfold list_of stream_of in
    rw (keys-by_revision c) (
      rw (sorted-up_to (length c)) (
        list_older sha256 c (stream_of c) h (
          unfold stream_of in
          record { revisions = λ n b. refl; ids = λ id r e. rw (get-by_id c id) e })))
