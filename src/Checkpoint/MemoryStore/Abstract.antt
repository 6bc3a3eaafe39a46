-- ===== src/Checkpoint/MemoryStore/Abstract.antt =====
-- integrations/checkpoint/memory_store.py as a whole, against an abstract store: a history for
-- each pair of a run and a namespace.
use cobalt_wren.Prelude.{Bool, true, false, Option, none, some, [], ◌≡◌, refl, ◌∙◌, if◌then◌else◌}
use cobalt_wren.Prelude.Dict.{get, put, get-put}
use cobalt_wren.Prelude.Equality.{◌==◌, nat_eq, list_eq, pair_eq, pair_beq_iff}
use cobalt_wren.Prelude.Text.{Text}
use cobalt_wren.Prelude.Result.{ok, err, ◌>>=◌}
use cobalt_wren.Core.Value.{Value, str}
use cobalt_wren.Checkpoint.Errors.{Checked}
use cobalt_wren.Checkpoint.Normalize.Stable.{run_id_value}
use cobalt_wren.Checkpoint.Types.{CheckpointWriteRequest, run_id_eq}
use cobalt_wren.Checkpoint.Types.Normal.{IsRequest}
use cobalt_wren.Checkpoint.MemoryStore.{
  Sha256, MemoryCheckpointStream, MemoryCheckpointStore, StreamKey, stream_key, empty_stream,
  ensure_stream, ensured, stream_or_empty, save, save_in, load_latest, load_checkpoint,
  list_for_run, latest_of, checkpoint_of, list_of, requested_id,
}
use cobalt_wren.Checkpoint.MemoryStore.History.{History, stream_of, find, IsHistory}
use cobalt_wren.Checkpoint.MemoryStore.Refinement.{spec_save, save_stream-spec, spec_save-IsHistory}
use cobalt_wren.Checkpoint.MemoryStore.Reads.{
  read_found, newest, listing, latest_of_lem, checkpoint_of_lem, list_of_lem,
}

abbrev pub AbstractStore : Type 0
AbstractStore = StreamKey → History

abbrev pub update : AbstractStore → StreamKey → History → AbstractStore
update h key c = λ j. if key == j then c else h j

abbrev pub key_of : CheckpointWriteRequest → StreamKey
key_of r = (r.run_id, r.checkpoint_namespace)

pub stream_key-request :
    (r : CheckpointWriteRequest)
    → IsRequest r
    → stream_key (run_id_value r.run_id) (str r.checkpoint_namespace) ≡ ok (key_of r)
unfolding stream_key
stream_key-request r h = rw h.run_id (rw h.checkpoint_namespace)

get-ensure_stream :
    (s : MemoryCheckpointStore) (k j : StreamKey)
    → stream_or_empty (get (ensure_stream k s) j) ≡ stream_or_empty (get s j)
get-ensure_stream s k j = unfold ensure_stream in by_found (get s k) refl
  where
    by_found :
        (o : Option MemoryCheckpointStream)
        → get s k ≡ o
        → stream_or_empty (get (ensured k s o) j) ≡ stream_or_empty (get s j)
    by_found (some t) e = refl
    by_found none e = rw (get-put s k j empty_stream) (by_test (k == j) refl)
      where
        by_test :
            (b : Bool)
            → (k == j) ≡ b
            → stream_or_empty (if b then some empty_stream else get s j) ≡ stream_or_empty (get s j)
        by_test true t = rw (← (pair_beq_iff k j).0 t) (rw e)
        by_test false t = refl

module _ (sha256 : Sha256) where
  -- The streams are those of the histories, and each record continues the ones before it.
  pub record Represents (s : MemoryCheckpointStore) (h : AbstractStore) : Type 0 where
    pub stream : (k : StreamKey) → stream_or_empty (get s k) ≡ stream_of (h k)
    pub history : (k : StreamKey) → IsHistory sha256 (h k)

  pub empty-Represents : Represents [] (λ k. [])
  unfolding stream_of
  empty-Represents = record { stream = λ k. refl; history = λ k. tt }

  pub save_in_lem :
      (s : MemoryCheckpointStore) (h : AbstractStore) (r : CheckpointWriteRequest)
      → Represents s h
      → IsRequest r
      → save sha256 r s ≡ (
        (spec_save sha256 r (h (key_of r))).0,
        put
            (ensure_stream (key_of r) s)
            (key_of r)
            (stream_of (spec_save sha256 r (h (key_of r))).1),
      )
  unfolding save
  save_in_lem s h r rep k = rw (stream_key-request r k) (
      unfold save_in in
      rw (rep.stream (key_of r))
        (rw (save_stream-spec sha256 (h (key_of r)) r (rep.history (key_of r)) k)))

  -- On a store that represents histories, and for a request as its constructor makes it, saving
  -- gives the result that the specification gives on the history of the request's stream, and
  -- leaves a store that represents that history as the specification leaves it and every other
  -- history as it was.
  pub save-refines :
      (s : MemoryCheckpointStore) (h : AbstractStore) (r : CheckpointWriteRequest)
      → Represents s h
      → IsRequest r
      → ((save sha256 r s).0 ≡ (spec_save sha256 r (h (key_of r))).0)
        × Represents (save sha256 r s).1 (update h (key_of r) (spec_save sha256 r (h (key_of r))).1)
  save-refines s h r rep k = (
    rw (save_in_lem s h r rep k),
    rw (save_in_lem s h r rep k) (record {
      stream = λ j.
          rw (get-put (ensure_stream (key_of r) s) (key_of r) j _)
            (stream_after j (key_of r == j) refl);
      history = λ j. history_after j (key_of r == j);
    }),
  )
    where
      c' : History
      c' = (spec_save sha256 r (h (key_of r))).1

      stream_after :
          (j : StreamKey) (b : Bool)
          → (key_of r == j) ≡ b
          → stream_or_empty (if b then some (stream_of c') else get (ensure_stream (key_of r) s) j)
            ≡ stream_of (if b then c' else h j)
      stream_after j true e = refl
      stream_after j false e = get-ensure_stream s (key_of r) j ∙ rep.stream j

      history_after : (j : StreamKey) (b : Bool) → IsHistory sha256 (if b then c' else h j)
      history_after j true = spec_save-IsHistory sha256 (h (key_of r)) r (rep.history (key_of r)) k
      history_after j false = rep.history j

  latest_of_empty :
      (o : Option MemoryCheckpointStream)
      → latest_of sha256 o ≡ latest_of sha256 (some (stream_or_empty o))
  unfolding latest_of
  latest_of_empty none = refl
  latest_of_empty (some t) = refl

  checkpoint_of_empty :
      (id : Text) (o : Option MemoryCheckpointStream)
      → checkpoint_of sha256 id o ≡ checkpoint_of sha256 id (some (stream_or_empty o))
  unfolding checkpoint_of
  checkpoint_of_empty id none = refl
  checkpoint_of_empty id (some t) = refl

  list_of_empty :
      (o : Option MemoryCheckpointStream) → list_of o ≡ list_of (some (stream_or_empty o))
  unfolding list_of
  list_of_empty none = refl
  list_of_empty (some t) = refl

  module _ (s : MemoryCheckpointStore) (h : AbstractStore) (rep : Represents s h)
      (run_id checkpoint_namespace : Value) where
    -- On a store that represents histories, loading the latest checkpoint raises the error of a
    -- run or a namespace that the normalizers reject; with any other it gives the newest record of
    -- the history, or nothing if there is none.
    pub load_latest-refines :
        load_latest sha256 run_id checkpoint_namespace s
        ≡ (do key ← stream_key run_id checkpoint_namespace; ok (read_found (newest (h key))))
    unfolding load_latest
    load_latest-refines = by_key (stream_key run_id checkpoint_namespace)
      where
        by_key :
            (key : Checked StreamKey)
            → (key >>= λ k. latest_of sha256 (get s k))
              ≡ (key >>= λ k. ok (read_found (newest (h k))))
        by_key (err e) = refl
        by_key (ok k) =
            rw (latest_of_empty (get s k))
              (rw (rep.stream k) (latest_of_lem sha256 (h k) (rep.history k)))

    -- On a store that represents histories, loading by an identifier raises the error of the first
    -- argument that is rejected; otherwise it gives the record of that identifier in the history,
    -- or nothing if there is none.
    pub load_checkpoint-refines :
        (checkpoint_id : Value)
        → load_checkpoint sha256 run_id checkpoint_id checkpoint_namespace s ≡ (do
          key ← stream_key run_id checkpoint_namespace
          requested ← requested_id checkpoint_id
          ok (read_found (find (h key) requested)))
    unfolding load_checkpoint
    load_checkpoint-refines checkpoint_id =
        by_key (stream_key run_id checkpoint_namespace) (requested_id checkpoint_id)
      where
        by_key :
            (key : Checked StreamKey) (id : Checked Text)
            → (key >>= λ k. id >>= λ i. checkpoint_of sha256 i (get s k))
              ≡ (key >>= λ k. id >>= λ i. ok (read_found (find (h k) i)))
        by_key (err e) id = refl
        by_key (ok k) (err e) = refl
        by_key (ok k) (ok i) =
            rw (checkpoint_of_empty i (get s k))
              (rw (rep.stream k) (checkpoint_of_lem sha256 (h k) i (rep.history k)))

    -- On a store that represents histories, listing raises the error of the first argument that is
    -- rejected; otherwise it gives the descriptors of the history in the order of their revisions.
    pub list_for_run-refines :
        list_for_run run_id checkpoint_namespace s
        ≡ (do key ← stream_key run_id checkpoint_namespace; ok (listing (h key)))
    unfolding list_for_run
    list_for_run-refines = by_key (stream_key run_id checkpoint_namespace)
      where
        by_key :
            (key : Checked StreamKey)
            → (key >>= λ k. list_of (get s k)) ≡ (key >>= λ k. ok (listing (h k)))
        by_key (err e) = refl
        by_key (ok k) =
            rw (list_of_empty (get s k))
              (rw (rep.stream k) (list_of_lem sha256 (h k) (rep.history k)))
