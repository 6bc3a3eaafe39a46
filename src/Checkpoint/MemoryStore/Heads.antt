-- ===== src/Checkpoint/MemoryStore/Heads.antt =====
-- Stale parents and the latest checkpoint, integrations/checkpoint/memory_store.py.
use cobalt_wren.Prelude.{
  Bool, true, false, Option, none, some, List, [], ◌∷◌, ◌≡◌, ◌≢◌, refl, sym, ◌∙◌, arith, All,
}
use cobalt_wren.Prelude.Equality.{◌==◌, nat_eq, list_eq, pair_eq, pair_beq_iff, beq_ne}
use cobalt_wren.Prelude.Text.{Text}
use cobalt_wren.Prelude.Result.{ok, err}
use cobalt_wren.Core.Value.{Value}
use cobalt_wren.Checkpoint.Errors.{conflict, stale_parent}
use cobalt_wren.Checkpoint.Types.{
  CheckpointWriteRequest, StoredCheckpoint, CheckpointReadResult, run_id_eq,
}
use cobalt_wren.Checkpoint.Types.Normal.{IsRequest}
use cobalt_wren.Checkpoint.MemoryStore.{
  Sha256, MemoryCheckpointStore, StreamKey, stream_key, option_beq, save, load_latest,
}
use cobalt_wren.Checkpoint.MemoryStore.History.{History, head_id, find}
use cobalt_wren.Checkpoint.MemoryStore.Refinement.{append, spec_found, spec_save, option_beq→eq}
use cobalt_wren.Checkpoint.MemoryStore.Reads.{read_found, newest}
use cobalt_wren.Checkpoint.MemoryStore.Abstract.{
  AbstractStore, key_of, Represents, empty-Represents, save-refines, load_latest-refines,
}

module _ (sha256 : Sha256) where
  head-ne-fresh :
      (c : History) (id : Text) → find c id ≡ none → option_beq (head_id c) (some id) ≡ false
  head-ne-fresh [] id h = refl
  head-ne-fresh (e ∷ c) id h = ground arith

  append_stale :
      (c : History) (r q : CheckpointWriteRequest) (d : StoredCheckpoint) (b : Bool)
      → q.parent_checkpoint_id ≡ r.parent_checkpoint_id
      → (r.checkpoint_id == q.checkpoint_id) ≡ false
      → find c r.checkpoint_id ≡ none
      → find c q.checkpoint_id ≡ none
      → option_beq r.parent_checkpoint_id (head_id c) ≡ b
      → (append sha256 r c b).0 ≡ ok d
      → (spec_save sha256 q (append sha256 r c b).1).0 ≡ err (conflict stale_parent)
  append_stale c r q d false same other fresh_r fresh_q e h = absurd (unfold append in cc)
  append_stale c r q d true same other fresh_r fresh_q e h =
      unfold append spec_save spec_found in
      rw (other, spec_found)
        (rw (fresh_q, spec_found)
          (rw (same ∙ option_beq→eq r.parent_checkpoint_id (head_id c) e)
            (rw (head-ne-fresh c r.checkpoint_id fresh_r))))

  spec_fresh :
      (c : History) (r : CheckpointWriteRequest)
      → find c r.checkpoint_id ≡ none
      → spec_save sha256 r c ≡ append sha256 r c (option_beq r.parent_checkpoint_id (head_id c))
  unfolding spec_save spec_found
  spec_fresh c r h = rw (h, spec_found)

  spec_stale :
      (c : History) (r q : CheckpointWriteRequest) (d : StoredCheckpoint)
      → q.parent_checkpoint_id ≡ r.parent_checkpoint_id
      → q.checkpoint_id ≢ r.checkpoint_id
      → find c r.checkpoint_id ≡ none
      → find c q.checkpoint_id ≡ none
      → (spec_save sha256 r c).0 ≡ ok d
      → (spec_save sha256 q (spec_save sha256 r c).1).0 ≡ err (conflict stale_parent)
  spec_stale c r q d same other fresh_r fresh_q h = rw (spec_fresh c r fresh_r) (
      append_stale c r q d _ same (beq_ne (λ e. other (sym e))) fresh_r fresh_q refl
        (rw (spec_fresh c r fresh_r) at h))

  -- In a store that represents histories, of two requests as their constructor makes them, for the
  -- same stream and the same parent and with different identifiers that the stream does not hold,
  -- the second is refused as stale once the first has succeeded.
  pub stale_parent-save :
      (s : MemoryCheckpointStore) (h : AbstractStore) (rep : Represents sha256 s h)
      (r q : CheckpointWriteRequest) (d : StoredCheckpoint)
      → IsRequest r
      → IsRequest q
      → key_of q ≡ key_of r
      → q.parent_checkpoint_id ≡ r.parent_checkpoint_id
      → q.checkpoint_id ≢ r.checkpoint_id
      → find (h (key_of r)) r.checkpoint_id ≡ none
      → find (h (key_of r)) q.checkpoint_id ≡ none
      → (save sha256 r s).0 ≡ ok d
      → (save sha256 q (save sha256 r s).1).0 ≡ err (conflict stale_parent)
  stale_parent-save s h rep r q d kr kq same_key same_parent other fresh_r fresh_q saved =
      (save-refines sha256 (save sha256 r s).1 _ q (save-refines sha256 s h r rep kr).1 kq).0
      ∙ rw ((pair_beq_iff (key_of r) (key_of q)).1 (sym same_key)) (
          spec_stale (h (key_of r)) r q d same_parent other fresh_r fresh_q
            (sym (save-refines sha256 s h r rep kr).0 ∙ saved))

  -- A program run: requests saved one after another.
  unfoldable pub save_all :
      List CheckpointWriteRequest → MemoryCheckpointStore → MemoryCheckpointStore
  save_all [] s = s
  save_all (r ∷ rs) s = save_all rs (save sha256 r s).1

  save_all-Represents :
      (rs : List CheckpointWriteRequest) (s : MemoryCheckpointStore) (h : AbstractStore)
      → Represents sha256 s h
      → All IsRequest rs
      → (h' : AbstractStore) × Represents sha256 (save_all rs s) h'
  unfolding save_all
  save_all-Represents [] s h rep k = (h, rep)
  save_all-Represents (r ∷ rs) s h rep k =
      save_all-Represents rs (save sha256 r s).1 _ (save-refines sha256 s h r rep k.0).1 k.1

  -- Whatever requests, as their constructor makes them, were saved from the empty store on,
  -- whether or not they succeeded, loading the latest checkpoint for a valid run and namespace
  -- returns: no integrity failure is reachable.
  pub load_latest-total :
      (rs : List CheckpointWriteRequest) (run_id checkpoint_namespace : Value) (key : StreamKey)
      → All IsRequest rs
      → stream_key run_id checkpoint_namespace ≡ ok key
      → (x : Option CheckpointReadResult) × (load_latest sha256 run_id checkpoint_namespace
            (save_all rs [])
          ≡ ok x)
  load_latest-total rs run_id checkpoint_namespace key k e =
      let (h, rep) = save_all-Represents rs [] (λ j. []) (empty-Represents sha256) k in
      (
        read_found (newest (h key)),
        load_latest-refines sha256 (save_all rs []) h rep run_id checkpoint_namespace ∙ rw e,
      )
