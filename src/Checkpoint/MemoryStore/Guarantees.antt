-- ===== src/Checkpoint/MemoryStore/Guarantees.antt =====
-- What a client of integrations/checkpoint/memory_store.py relies on, for any store that
-- represents histories; every store that is built from the empty one by saving does.
use cobalt_wren.Prelude.{
  suc, Bool, true, false, Option, none, some, ◌∷◌, ◌≡◌, refl, sym, ap, ◌∙◌, arith, length,
  if◌then◌else◌, fun_ext, subst,
}
use cobalt_wren.Prelude.Dict.{put, get-put_self, put_same}
use cobalt_wren.Prelude.Equality.{
  ◌==◌, nat_eq, list_eq, list_beq_iff, pair_eq, pair_beq_iff, beq_refl,
}
use cobalt_wren.Prelude.Text.{Text, strip}
use cobalt_wren.Prelude.Result.{ok, err, on_ok, ok-injective}
use cobalt_wren.Core.Value.{Value, str}
use cobalt_wren.Checkpoint.Errors.{CheckpointError, Checked}
use cobalt_wren.Checkpoint.Normalize.{normalize_checkpoint_id}
use cobalt_wren.Checkpoint.Normalize.Stable.{run_id_value}
use cobalt_wren.Checkpoint.Types.{
  CheckpointWriteRequest, StoredCheckpoint, CheckpointReadResult, run_id_eq,
}
use cobalt_wren.Checkpoint.Types.Normal.{IsRequest}
use cobalt_wren.Checkpoint.MemoryStore.{
  Sha256, MemoryCheckpointRecord, MemoryCheckpointStream, MemoryCheckpointStore, ensure_stream,
  StreamKey, stream_key, save, load_checkpoint, requested_id,
}
use cobalt_wren.Checkpoint.MemoryStore.History.{History, find, stream_of}
use cobalt_wren.Checkpoint.MemoryStore.Refinement.{
  replay, new_record, append, spec_found, spec_save,
}
use cobalt_wren.Checkpoint.MemoryStore.Reads.{read_found}
use cobalt_wren.Checkpoint.MemoryStore.Abstract.{
  AbstractStore, update, key_of, Represents, save_in_lem, save-refines, stream_key-request,
  load_checkpoint-refines,
}
use cobalt_wren.Checkpoint.MemoryStore.Replay.{replay-eq-ok, same_canonical_request-new}

requested_id-request :
    (r : CheckpointWriteRequest)
    → IsRequest r
    → requested_id (str r.checkpoint_id) ≡ ok r.checkpoint_id
requested_id-request r h = from_normal r.checkpoint_id h.checkpoint_id
  where
    from_normal : (t : Text) → normalize_checkpoint_id (str t) ≡ ok t → requested_id (str t) ≡ ok t
    from_normal t e =
        unfold requested_id normalize_checkpoint_id in
        ground (arith, list_beq_iff t (strip t), list_beq_iff (strip t) t)

put_again :
    (s : MemoryCheckpointStore) (k : StreamKey) (t : MemoryCheckpointStream)
    → put (ensure_stream k (put s k t)) k t ≡ put s k t
unfolding ensure_stream
put_again s k t = rw (get-put_self s k t) (put_same (put s k t) k t (get-put_self s k t))

module _ (sha256 : Sha256) where
  -- After a save that succeeds the history finds the record that was asked for.
  appended :
      (c : History) (r : CheckpointWriteRequest) (d : StoredCheckpoint) (b : Bool)
      → (append sha256 r c b).0 ≡ ok d
      → find (append sha256 r c b).1 r.checkpoint_id
        ≡ some (record { descriptor = d; body = r.body })
  unfolding append
  appended c r d true h = rw (beq_refl r.checkpoint_id) (cc)
  appended c r d false h = cc

  found_saved :
      (c : History) (r : CheckpointWriteRequest) (d : StoredCheckpoint)
      (o : Option MemoryCheckpointRecord)
      → find c r.checkpoint_id ≡ o
      → (spec_found sha256 r c o).0 ≡ ok d
      → find (spec_found sha256 r c o).1 r.checkpoint_id
        ≡ some (record { descriptor = d; body = r.body })
  unfolding spec_found
  found_saved c r d (some e) p h = p ∙ (let (same, body) = replay-eq-ok e r d h in cc)
  found_saved c r d none p h = appended c r d _ h

  spec_saved :
      (c : History) (r : CheckpointWriteRequest) (d : StoredCheckpoint)
      → (spec_save sha256 r c).0 ≡ ok d
      → find (spec_save sha256 r c).1 r.checkpoint_id
        ≡ some (record { descriptor = d; body = r.body })
  unfolding spec_save
  spec_saved c r d h = found_saved c r d (find c r.checkpoint_id) refl h

  append_keeps :
      (c : History) (r : CheckpointWriteRequest) (b : Bool) (id : Text) (e : MemoryCheckpointRecord)
      → find c r.checkpoint_id ≡ none
      → find c id ≡ some e
      → find (append sha256 r c b).1 id ≡ some e
  unfolding append
  append_keeps c r true id e fresh found = ground (arith, list_beq_iff r.checkpoint_id id)
  append_keeps c r false id e fresh found = found

  found_keeps :
      (c : History) (r : CheckpointWriteRequest) (o : Option MemoryCheckpointRecord) (id : Text)
      (e : MemoryCheckpointRecord)
      → find c r.checkpoint_id ≡ o
      → find c id ≡ some e
      → find (spec_found sha256 r c o).1 id ≡ some e
  unfolding spec_found
  found_keeps c r (some e') id e p found = found
  found_keeps c r none id e p found = append_keeps c r _ id e p found

  -- A history keeps each of its records.
  spec_keeps :
      (c : History) (r : CheckpointWriteRequest) (id : Text) (x : CheckpointReadResult)
      → read_found (find c id) ≡ some x
      → read_found (find (spec_save sha256 r c).1 id) ≡ some x
  unfolding spec_save
  spec_keeps c r id x p = by_found (find c id) refl p
    where
      by_found :
          (o : Option MemoryCheckpointRecord)
          → find c id ≡ o
          → read_found o ≡ some x
          → read_found (find (spec_found sha256 r c (find c r.checkpoint_id)).1 id) ≡ some x
      by_found none q p = absurd (cc)
      by_found (some e) q p = rw (found_keeps c r (find c r.checkpoint_id) id e refl q) p

  append_failed :
      (c : History) (r : CheckpointWriteRequest) (b : Bool) {f : CheckpointError}
      → (append sha256 r c b).0 ≡ err f
      → (append sha256 r c b).1 ≡ c
  unfolding append
  append_failed c r true h = cc
  append_failed c r false h = refl

  found_failed :
      (c : History) (r : CheckpointWriteRequest) (o : Option MemoryCheckpointRecord)
      {f : CheckpointError}
      → (spec_found sha256 r c o).0 ≡ err f
      → (spec_found sha256 r c o).1 ≡ c
  unfolding spec_found
  found_failed c r (some e) h = refl
  found_failed c r none h = append_failed c r _ h

  appended_again :
      (c : History) (r : CheckpointWriteRequest) (d : StoredCheckpoint) (b : Bool)
      → IsRequest r
      → (append sha256 r c b).0 ≡ ok d
      → spec_save sha256 r (append sha256 r c b).1 ≡ (ok d, (append sha256 r c b).1)
  unfolding append spec_save spec_found replay
  appended_again c r d true k h =
      rw (beq_refl r.checkpoint_id, spec_found)
        (rw (same_canonical_request-new sha256 r (suc (length c)) k)
          (ap (λ (x : Checked StoredCheckpoint). (x, new_record sha256 r (suc (length c)) ∷ c)) h))
  appended_again c r d false k h = cc

  found_again :
      (c : History) (r : CheckpointWriteRequest) (d : StoredCheckpoint)
      (o : Option MemoryCheckpointRecord)
      → IsRequest r
      → find c r.checkpoint_id ≡ o
      → (spec_found sha256 r c o).0 ≡ ok d
      → spec_save sha256 r (spec_found sha256 r c o).1 ≡ (ok d, (spec_found sha256 r c o).1)
  found_again c r d (some e) k p h =
      unfold spec_save spec_found in
      rw (p, spec_found) (ap (λ (x : Checked StoredCheckpoint). (x, c)) (unfold spec_found in h))
  found_again c r d none k p h =
      unfold spec_found in appended_again c r d _ k (unfold spec_found in h)

  spec_failed :
      (c : History) (r : CheckpointWriteRequest) {f : CheckpointError}
      → (spec_save sha256 r c).0 ≡ err f
      → (spec_save sha256 r c).1 ≡ c
  unfolding spec_save
  spec_failed c r h = found_failed c r (find c r.checkpoint_id) h

  spec_again :
      (c : History) (r : CheckpointWriteRequest) (d : StoredCheckpoint)
      → IsRequest r
      → (spec_save sha256 r c).0 ≡ ok d
      → spec_save sha256 r (spec_save sha256 r c).1 ≡ (ok d, (spec_save sha256 r c).1)
  spec_again c r d k h = again_at (spec_save sha256 r c) (unfold spec_save in refl)
    where
      again_at :
          (p : Checked StoredCheckpoint × History)
          → p ≡ spec_found sha256 r c (find c r.checkpoint_id)
          → spec_save sha256 r p.1 ≡ (ok d, p.1)
      again_at p e =
          rw e (found_again c r d (find c r.checkpoint_id) k refl (unfold spec_save in h))

  module _ (s : MemoryCheckpointStore) (h : AbstractStore) (rep : Represents sha256 s h)
      (r : CheckpointWriteRequest) (k : IsRequest r) where
    -- In a store that represents histories, for a request as its constructor makes it: a save that
    -- returns a descriptor makes the checkpoint readable, and loading it by its identifier gives
    -- that descriptor and the body of the request.
    pub load_checkpoint-save :
        (d : StoredCheckpoint)
        → (save sha256 r s).0 ≡ ok d
        → load_checkpoint sha256
            (run_id_value r.run_id)
            (str r.checkpoint_id)
            (str r.checkpoint_namespace)
            (save sha256 r s).1
          ≡ ok (some (record { checkpoint = d; body = r.body }))
    load_checkpoint-save d e =
        let (same, rep') = save-refines sha256 s h r rep k in
        load_checkpoint-refines sha256 (save sha256 r s).1 _ rep' (run_id_value r.run_id)
          (str r.checkpoint_namespace) (str r.checkpoint_id)
        ∙ rw (stream_key-request r k) (
            rw (requested_id-request r k)
              (rw (beq_refl (key_of r)) (rw (spec_saved (h (key_of r)) r d (sym same ∙ e)) refl)))

    -- In a store that represents histories, for a request as its constructor makes it: saving it,
    -- whatever the outcome, never changes what a checkpoint that can be read gives.
    pub load_checkpoint-save_kept :
        (run_id checkpoint_id checkpoint_namespace : Value) (x : CheckpointReadResult)
        → load_checkpoint sha256 run_id checkpoint_id checkpoint_namespace s ≡ ok (some x)
        → load_checkpoint sha256 run_id checkpoint_id checkpoint_namespace (save sha256 r s).1
          ≡ ok (some x)
    load_checkpoint-save_kept run_id checkpoint_id checkpoint_namespace x e =
        let rep' = (save-refines sha256 s h r rep k).1 in
        load_checkpoint-refines sha256 (save sha256 r s).1 _ rep' run_id checkpoint_namespace
          checkpoint_id
        ∙ (on_ok (stream_key run_id checkpoint_namespace) _
            (sym (load_checkpoint-refines sha256 s h rep run_id checkpoint_namespace checkpoint_id)
              ∙ e)
            λ key e1 k1.
              on_ok (requested_id checkpoint_id) _ k1
                λ id e2 k2. rw e1 (rw e2 (kept key id (key_of r == key) refl k2)))
      where
        kept :
            (key : StreamKey) (id : Text) (b : Bool)
            → (key_of r == key) ≡ b
            → ◌≡◌ {A = Checked (Option CheckpointReadResult)}
                (ok (read_found (find (h key) id)))
                (ok (some x))
            → ◌≡◌ {A = Checked (Option CheckpointReadResult)}
                (ok (
                  read_found
                    (find (if b then (spec_save sha256 r (h (key_of r))).1 else h key) id)))
                (ok (some x))
        kept key id true t found = ap ok (
            spec_keeps (h (key_of r)) r id x
              (rw (← (pair_beq_iff (key_of r) key).0 t) at (ok-injective found)))
        kept key id false t found = found

    -- In a store that represents histories, for a request as its constructor makes it: after a
    -- save that returned a descriptor, saving the request again changes nothing and returns the
    -- same descriptor.
    pub save_again :
        (d : StoredCheckpoint)
        → (save sha256 r s).0 ≡ ok d
        → save sha256 r (save sha256 r s).1 ≡ (ok d, (save sha256 r s).1)
    save_again d e =
        let c : History = h (key_of r) in
        let again : spec_save sha256 r (spec_save sha256 r c).1 ≡ (ok d, (spec_save sha256 r c).1) =
          spec_again c r d k (sym (save-refines sha256 s h r rep k).0 ∙ e) in
        save_in_lem sha256 (save sha256 r s).1 _ r (save-refines sha256 s h r rep k).1 k
        ∙ rw (beq_refl (key_of r)) (
            rw again (
              rw (save_in_lem sha256 s h r rep k) (
                rw (
                  put_again (ensure_stream (key_of r) s) (key_of r)
                    (stream_of (spec_save sha256 r c).1)))))

    unchanged :
        (failure : CheckpointError)
        → (save sha256 r s).0 ≡ err failure
        → update h (key_of r) (spec_save sha256 r (h (key_of r))).1 ≡ h
    unchanged failure e = fun_ext λ j. by_test j (key_of r == j) refl
      where
        by_test :
            (j : StreamKey) (b : Bool)
            → (key_of r == j) ≡ b
            → (if b then (spec_save sha256 r (h (key_of r))).1 else h j) ≡ h j
        by_test j true t =
            spec_failed (h (key_of r)) r (sym (save-refines sha256 s h r rep k).0 ∙ e)
            ∙ ap h ((pair_beq_iff (key_of r) j).0 t)
        by_test j false t = refl

    -- In a store that represents histories, for a request as its constructor makes it: a save that
    -- raises leaves every load by an identifier as it was.
    pub load_checkpoint-save_failed :
        (failure : CheckpointError)
        → (save sha256 r s).0 ≡ err failure
        → (run_id checkpoint_id checkpoint_namespace : Value)
        → load_checkpoint sha256 run_id checkpoint_id checkpoint_namespace (save sha256 r s).1
          ≡ load_checkpoint sha256 run_id checkpoint_id checkpoint_namespace s
    load_checkpoint-save_failed failure e run_id checkpoint_id checkpoint_namespace =
        load_checkpoint-refines sha256 (save sha256 r s).1 h
          (subst (Represents sha256 (save sha256 r s).1) (unchanged failure e)
            (save-refines sha256 s h r rep k).1)
          run_id checkpoint_namespace checkpoint_id
        ∙ sym (load_checkpoint-refines sha256 s h rep run_id checkpoint_namespace checkpoint_id)
