-- ===== src/Checkpoint/MemoryStore/Refinement.antt =====
-- `save` of integrations/checkpoint/memory_store.py on one stream, against its specification on
-- histories.
use cobalt_wren.Prelude.{
  ℕ, suc, Bool, true, false, Option, none, some, List, [], ◌∷◌, ◌≡◌, refl, ap, length, arith,
  if◌then◌else◌,
}
use cobalt_wren.Prelude.Equality.{nat_eq, list_eq, list_beq_iff, beq_refl}
use cobalt_wren.Prelude.Text.{Text}
use cobalt_wren.Prelude.Result.{ok, err, ◌>>=◌}
use cobalt_wren.Checkpoint.Errors.{Checked, conflict, store_conflict, stale_parent}
use cobalt_wren.Checkpoint.Types.{CheckpointWriteRequest, StoredCheckpoint, is_digest}
use cobalt_wren.Checkpoint.Types.Normal.{IsRequest, stored_checkpoint_normal}
use cobalt_wren.Checkpoint.MemoryStore.{
  Sha256, MemoryCheckpointRecord, body_digest, verify_record, option_beq, clone_checkpoint,
  same_canonical_request, save_existing, next_revision, revision_after, build_descriptor,
  write_record, finish_save, save_found, save_stream,
}
use cobalt_wren.Checkpoint.MemoryStore.History.{
  History, record_id, head_id, stream_of, find, Extends, IsHistory, find-Extends, get-by_id,
}

-- What a request that repeats an identifier gets.
unfoldable pub replay : MemoryCheckpointRecord → CheckpointWriteRequest → Checked StoredCheckpoint
replay existing request = do
  same ← same_canonical_request existing request
  if same then ok existing.descriptor else err (conflict store_conflict)

pub option_beq→eq : (a b : Option Text) → option_beq a b ≡ true → a ≡ b
option_beq→eq none none h = refl
option_beq→eq (some s) (some t) h = ap some ((list_beq_iff s t).0 h)
option_beq→eq none (some t) h = cc
option_beq→eq (some s) none h = cc

module _ (sha256 : Sha256) where
  -- The record that a request makes.
  abbrev pub new_record : CheckpointWriteRequest → ℕ → MemoryCheckpointRecord
  new_record request revision = record {
    descriptor = record {
      run_id = request.run_id;
      checkpoint_namespace = request.checkpoint_namespace;
      checkpoint_id = request.checkpoint_id;
      parent_checkpoint_id = request.parent_checkpoint_id;
      revision = revision;
      serializer_name = request.serializer_name;
      serializer_version = request.serializer_version;
      content_type = request.content_type;
      size = length request.body;
      digest = body_digest sha256 request.body;
      metadata = request.metadata;
    };
    body = request.body;
  }

  -- The specification: compare and append.
  unfoldable pub append :
      CheckpointWriteRequest → History → Bool → Checked StoredCheckpoint × History
  append request c true = let r = new_record request (suc (length c)) in (ok r.descriptor, r ∷ c)
  append request c false = (err (conflict stale_parent), c)

  unfoldable pub spec_found :
      CheckpointWriteRequest
      → History
      → Option MemoryCheckpointRecord
      → Checked StoredCheckpoint × History
  unfolding append
  spec_found request c (some existing) = (replay existing request, c)
  spec_found request c none = append request c (option_beq request.parent_checkpoint_id (head_id c))

  unfoldable pub spec_save : CheckpointWriteRequest → History → Checked StoredCheckpoint × History
  unfolding spec_found
  spec_save request c = spec_found request c (find c request.checkpoint_id)

  pub verify_intact :
      (c : History) (r : MemoryCheckpointRecord)
      → Extends sha256 c r
      → verify_record sha256 r ≡ ok tt
  unfolding verify_record
  verify_intact c r h =
      rw (h.size, h.digest) (rw (beq_refl (length r.body), beq_refl (body_digest sha256 r.body)))

  digest-IsDigest : (body : List ℕ) → is_digest (body_digest sha256 body) ≡ true
  unfolding body_digest
  digest-IsDigest body = rw (sha256.hexdigest_length body)

  pub build_descriptor_lem :
      (r : CheckpointWriteRequest) (n : ℕ)
      → IsRequest r
      → build_descriptor sha256 r (suc n) ≡ ok (new_record r (suc n)).descriptor
  unfolding build_descriptor
  build_descriptor_lem r n h =
      stored_checkpoint_normal _ h.run_id h.checkpoint_namespace h.checkpoint_id h.parent
        (omega arith) h.serializer_name h.serializer_version h.content_type (digest-IsDigest r.body)
        h.metadata

  pub new_record-Extends :
      (c : History) (r : CheckpointWriteRequest)
      → IsRequest r
      → find c r.checkpoint_id ≡ none
      → option_beq r.parent_checkpoint_id (head_id c) ≡ true
      → Extends sha256 c (new_record r (suc (length c)))
  new_record-Extends c r h fresh parent = record {
    fresh = fresh;
    parent = option_beq→eq r.parent_checkpoint_id (head_id c) parent;
    revision = refl;
    size = refl;
    digest = refl;
    normal = unfold build_descriptor in build_descriptor_lem r (length c) h;
  }

  save_existing_lem :
      (c : History) (e : MemoryCheckpointRecord) (r : CheckpointWriteRequest)
      → Extends sha256 c e
      → save_existing sha256 e r ≡ replay e r
  unfolding save_existing replay clone_checkpoint
  save_existing_lem c e r h = rw (verify_intact c e h) (rw h.normal)

  next_revision_lem :
      (c : History) (r : CheckpointWriteRequest)
      → IsHistory sha256 c
      → next_revision sha256 (stream_of c) r (head_id c) ≡ (
          if option_beq r.parent_checkpoint_id (head_id c)
          then ok (suc (length c))
          else err (conflict stale_parent))
  unfolding next_revision stream_of
  next_revision_lem [] r h = refl
  next_revision_lem (e ∷ c) r h =
      rw (get-by_id (e ∷ c) (record_id e), revision_after)
        (rw (beq_refl (record_id e)) (rw (verify_intact c e h.0) (rw h.0.revision (ground arith))))

  save_new_lem :
      (c : History) (r : CheckpointWriteRequest) (b : Bool)
      → IsHistory sha256 c
      → IsRequest r
      → find c r.checkpoint_id ≡ none
      → option_beq r.parent_checkpoint_id (head_id c) ≡ b
      → finish_save sha256 r (stream_of c) (do
        revision ← (if b then ok (suc (length c)) else err (conflict stale_parent))
        build_descriptor sha256 r revision)
        ≡ ((append r c b).0, stream_of (append r c b).1)
  unfolding finish_save append
  save_new_lem c r true h k fresh e = rw (build_descriptor_lem r (length c) k) (
      unfold clone_checkpoint write_record stream_of in
      rw (new_record-Extends c r k fresh e).normal)
  save_new_lem c r false h k fresh e = refl

  save_found_lem :
      (c : History) (r : CheckpointWriteRequest) (o : Option MemoryCheckpointRecord)
      → IsHistory sha256 c
      → IsRequest r
      → find c r.checkpoint_id ≡ o
      → save_found sha256 r (stream_of c) o ≡ ((spec_found r c o).0, stream_of (spec_found r c o).1)
  unfolding stream_of next_revision
  save_found_lem c r (some e) h k p =
      let (d, ext, _) = find-Extends sha256 c r.checkpoint_id e h p in
      unfold save_found spec_found in rw (save_existing_lem d e r ext)
  save_found_lem c r none h k p =
      unfold save_found spec_found in
      rw (next_revision_lem c r h, stream_of) (save_new_lem c r _ h k p refl)

  -- On the stream of a history, and for a request that its constructor made, the store's `save`
  -- gives the result of the specification, and leaves the stream of the specification's history.
  pub save_stream-spec :
      (c : History) (r : CheckpointWriteRequest)
      → IsHistory sha256 c
      → IsRequest r
      → save_stream sha256 r (stream_of c) ≡ ((spec_save r c).0, stream_of (spec_save r c).1)
  save_stream-spec c r h k =
      unfold save_stream spec_save stream_of in
      rw (get-by_id c r.checkpoint_id) (save_found_lem c r (find c r.checkpoint_id) h k refl)

  append-IsHistory :
      (c : History) (r : CheckpointWriteRequest) (b : Bool)
      → IsHistory sha256 c
      → IsRequest r
      → find c r.checkpoint_id ≡ none
      → option_beq r.parent_checkpoint_id (head_id c) ≡ b
      → IsHistory sha256 (append r c b).1
  unfolding append
  append-IsHistory c r true h k fresh e = (new_record-Extends c r k fresh e, h)
  append-IsHistory c r false h k fresh e = h

  spec_found-IsHistory :
      (c : History) (r : CheckpointWriteRequest) (o : Option MemoryCheckpointRecord)
      → IsHistory sha256 c
      → IsRequest r
      → find c r.checkpoint_id ≡ o
      → IsHistory sha256 (spec_found r c o).1
  unfolding spec_found
  spec_found-IsHistory c r (some e) h k p = h
  spec_found-IsHistory c r none h k p = append-IsHistory c r _ h k p refl

  pub spec_save-IsHistory :
      (c : History) (r : CheckpointWriteRequest)
      → IsHistory sha256 c
      → IsRequest r
      → IsHistory sha256 (spec_save r c).1
  unfolding spec_save
  spec_save-IsHistory c r h k = spec_found-IsHistory c r (find c r.checkpoint_id) h k refl
