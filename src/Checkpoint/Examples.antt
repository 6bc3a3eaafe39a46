-- ===== src/Checkpoint/Examples.antt =====
-- The theorems on checkpoints at concrete requests and stores.
use cobalt_wren.Prelude.{
  ℕ, zero, suc, true, false, Option, none, some, [], ◌∷◌, ◌++◌, ◌≡◌, ◌≢◌, refl,
}
use cobalt_wren.Prelude.Equality.{nat_eq, list_eq, pair_eq}
use cobalt_wren.Prelude.Int.{pos}
use cobalt_wren.Prelude.Result.{ok, err, ◌>>=◌}
use cobalt_wren.Prelude.Text.{Text, codes, lstrip, strip}
use cobalt_wren.Core.Value.{null, int, str, bytes, dict, Fields, end, field, name}
use cobalt_wren.Checkpoint.Errors.{conflict, stale_parent}
use cobalt_wren.Checkpoint.Normalize.{
  number, normalize_checkpoint_run_id, normalize_checkpoint_namespace, normalize_checkpoint_id,
  normalize_checkpoint_body, normalize_checkpoint_serializer_name,
  normalize_checkpoint_serializer_version, normalize_checkpoint_content_type,
  normalize_checkpoint_metadata, normalize_metadata_value,
}
use cobalt_wren.Checkpoint.Types.{
  WriteArguments, CheckpointWriteRequest, StoredCheckpoint, CheckpointReadResult, write_request,
  stored_checkpoint, normalize_parent, run_id_eq,
}
use cobalt_wren.Checkpoint.Types.Normal.{IsRequest, write_request-IsRequest}
use cobalt_wren.Checkpoint.MemoryStore.{
  Sha256, MemoryCheckpointStore, stream_key, save, save_in, save_stream, save_found, save_new,
  finish_save, next_revision, build_descriptor, body_digest, clone_checkpoint, write_record,
  ensure_stream, load_latest, load_checkpoint, list_for_run, requested_id,
}
use cobalt_wren.Checkpoint.MemoryStore.History.{find}
use cobalt_wren.Checkpoint.MemoryStore.Reads.{read_found, newest, listing}
use cobalt_wren.Checkpoint.MemoryStore.Refinement.{spec_save}
use cobalt_wren.Checkpoint.MemoryStore.Abstract.{
  AbstractStore, update, Represents, empty-Represents, key_of, save-refines, load_latest-refines,
  load_checkpoint-refines, list_for_run-refines,
}
use cobalt_wren.Checkpoint.MemoryStore.Guarantees.{
  load_checkpoint-save, load_checkpoint-save_kept, save_again, load_checkpoint-save_failed,
}
use cobalt_wren.Checkpoint.MemoryStore.Heads.{stale_parent-save, save_all, load_latest-total}

abbrev zeros : ℕ → Text
zeros zero = []
zeros (suc n) = 48 ∷ zeros n

-- A function with digests of the right length.
abbrev digests : Sha256
digests = record { hexdigest = λ body. zeros 64; hexdigest_length = λ body. refl }

abbrev first_arguments : WriteArguments
first_arguments = record {
  run_id = int (pos 7);
  checkpoint_id = str (codes "a");
  body = bytes (1 ∷ 2 ∷ []);
  serializer_name = str (codes "json");
  serializer_version = int (pos 1);
  content_type = str (codes "application/json");
  checkpoint_namespace = str (codes "ns");
  parent_checkpoint_id = null;
  metadata = dict (field (name (codes "step")) (int (pos 1)) end);
}

abbrev first_request : CheckpointWriteRequest
first_request = record {
  run_id = number (pos 7);
  checkpoint_id = codes "a";
  body = 1 ∷ 2 ∷ [];
  serializer_name = codes "json";
  serializer_version = pos 1;
  content_type = codes "application/json";
  checkpoint_namespace = codes "ns";
  parent_checkpoint_id = none;
  metadata = field (name (codes "step")) (int (pos 1)) end;
}

abbrev second_request : CheckpointWriteRequest
second_request = record first_request { checkpoint_id = codes "b" }

abbrev first_stored : StoredCheckpoint
first_stored = record {
  run_id = number (pos 7);
  checkpoint_namespace = codes "ns";
  checkpoint_id = codes "a";
  parent_checkpoint_id = none;
  revision = 1;
  serializer_name = codes "json";
  serializer_version = pos 1;
  content_type = codes "application/json";
  size = 2;
  digest = codes "sha256:" ++ zeros 64;
  metadata = field (name (codes "step")) (int (pos 1)) end;
}

abbrev second_arguments : WriteArguments
second_arguments = record first_arguments { checkpoint_id = str (codes "b") }

abbrev other_run_request : CheckpointWriteRequest
other_run_request = record first_request { run_id = number (pos 8) }

abbrev other_run_arguments : WriteArguments
other_run_arguments = record first_arguments { run_id = int (pos 8) }

first_made : write_request first_arguments ≡ ok first_request
unfolding write_request normalize_checkpoint_run_id normalize_checkpoint_namespace
    normalize_checkpoint_id normalize_parent normalize_checkpoint_body
    normalize_checkpoint_serializer_name normalize_checkpoint_serializer_version
    normalize_checkpoint_content_type normalize_checkpoint_metadata normalize_metadata_value strip
    lstrip
first_made = refl

second_made : write_request second_arguments ≡ ok second_request
unfolding write_request normalize_checkpoint_run_id normalize_checkpoint_namespace
    normalize_checkpoint_id normalize_parent normalize_checkpoint_body
    normalize_checkpoint_serializer_name normalize_checkpoint_serializer_version
    normalize_checkpoint_content_type normalize_checkpoint_metadata normalize_metadata_value strip
    lstrip
second_made = refl

other_run_made : write_request other_run_arguments ≡ ok other_run_request
unfolding write_request normalize_checkpoint_run_id normalize_checkpoint_namespace
    normalize_checkpoint_id normalize_parent normalize_checkpoint_body
    normalize_checkpoint_serializer_name normalize_checkpoint_serializer_version
    normalize_checkpoint_content_type normalize_checkpoint_metadata normalize_metadata_value strip
    lstrip
other_run_made = refl

first_normal : IsRequest first_request
first_normal = write_request-IsRequest first_arguments first_request first_made

second_normal : IsRequest second_request
second_normal = write_request-IsRequest second_arguments second_request second_made

other_run_normal : IsRequest other_run_request
other_run_normal = write_request-IsRequest other_run_arguments other_run_request other_run_made

first_saved : (save digests first_request []).0 ≡ ok first_stored
unfolding save save_in save_stream save_found save_new finish_save next_revision build_descriptor
    body_digest clone_checkpoint write_record ensure_stream stream_key stored_checkpoint
    normalize_checkpoint_run_id normalize_checkpoint_namespace normalize_checkpoint_id
    normalize_parent normalize_checkpoint_body normalize_checkpoint_serializer_name
    normalize_checkpoint_serializer_version normalize_checkpoint_content_type
    normalize_checkpoint_metadata normalize_metadata_value strip lstrip
first_saved = refl

-- The store and the histories after the first request.
abbrev one_saved : MemoryCheckpointStore
one_saved = (save digests first_request []).1

abbrev one_history : AbstractStore
one_history = update (λ k. []) (key_of first_request) (spec_save digests first_request []).1

one_Represents : Represents digests one_saved one_history
one_Represents =
    (save-refines digests [] (λ k. []) first_request (empty-Represents digests) first_normal).1

abbrev first_read : CheckpointReadResult
first_read = record { checkpoint = first_stored; body = 1 ∷ 2 ∷ [] }

save-refines_example :
    ((save digests second_request one_saved).0
      ≡ (spec_save digests second_request (one_history (key_of second_request))).0)
    × Represents digests (save digests second_request one_saved).1 (
        update one_history
          (key_of second_request)
          (spec_save digests second_request (one_history (key_of second_request))).1)
save-refines_example =
    save-refines digests one_saved one_history second_request one_Represents second_normal

load_checkpoint-save_example :
    load_checkpoint digests (int (pos 7)) (str (codes "a")) (str (codes "ns")) one_saved
    ≡ ok (some first_read)
load_checkpoint-save_example =
    load_checkpoint-save digests [] (λ k. []) (empty-Represents digests) first_request first_normal
      first_stored first_saved

readable :
    load_checkpoint digests (int (pos 7)) (str (codes "a")) (str (codes "ns")) one_saved
    ≡ ok (some first_read)
readable =
    load_checkpoint-save digests [] (λ k. []) (empty-Represents digests) first_request first_normal
      first_stored first_saved

load_checkpoint-save_kept_example :
    load_checkpoint digests
      (int (pos 7))
      (str (codes "a"))
      (str (codes "ns"))
      (save digests other_run_request one_saved).1
    ≡ ok (some first_read)
load_checkpoint-save_kept_example =
    load_checkpoint-save_kept digests one_saved one_history one_Represents other_run_request
      other_run_normal (int (pos 7)) (str (codes "a")) (str (codes "ns")) first_read readable

save_again_example : save digests first_request one_saved ≡ (ok first_stored, one_saved)
save_again_example =
    save_again digests [] (λ k. []) (empty-Represents digests) first_request first_normal
      first_stored first_saved

distinct_truths : false ≡ true → ⊥
distinct_truths h = cc

b_is_not_a : codes "b" ≢ codes "a"
b_is_not_a h = distinct_truths ((list_eq.beq_iff (codes "b") (codes "a")).1 h)

-- Both requests ask for an empty parent: the second comes too late.
stale_parent-save_example : (save digests second_request one_saved).0 ≡ err (conflict stale_parent)
stale_parent-save_example =
    stale_parent-save digests [] (λ k. []) (empty-Represents digests) first_request second_request
      first_stored first_normal second_normal refl refl b_is_not_a refl refl first_saved

second_refused : (save digests second_request one_saved).0 ≡ err (conflict stale_parent)
second_refused =
    stale_parent-save digests [] (λ k. []) (empty-Represents digests) first_request second_request
      first_stored first_normal second_normal refl refl b_is_not_a refl refl first_saved

load_checkpoint-save_failed_example :
    load_checkpoint digests
      (int (pos 7))
      (str (codes "a"))
      (str (codes "ns"))
      (save digests second_request one_saved).1
    ≡ load_checkpoint digests (int (pos 7)) (str (codes "a")) (str (codes "ns")) one_saved
load_checkpoint-save_failed_example =
    load_checkpoint-save_failed digests one_saved one_history one_Represents second_request
      second_normal (conflict stale_parent) second_refused (int (pos 7)) (str (codes "a"))
      (str (codes "ns"))

key_made : stream_key (int (pos 7)) (str (codes "ns")) ≡ ok (key_of first_request)
unfolding stream_key normalize_checkpoint_run_id normalize_checkpoint_namespace
    normalize_checkpoint_id normalize_parent normalize_checkpoint_body
    normalize_checkpoint_serializer_name normalize_checkpoint_serializer_version
    normalize_checkpoint_content_type normalize_checkpoint_metadata normalize_metadata_value strip
    lstrip
key_made = refl

load_latest-total_example :
    (x : Option CheckpointReadResult) × (load_latest digests
        (int (pos 7))
        (str (codes "ns"))
        (save_all digests (first_request ∷ second_request ∷ []) [])
      ≡ ok x)
load_latest-total_example =
    load_latest-total digests (first_request ∷ second_request ∷ []) (int (pos 7)) (str (codes "ns"))
      (key_of first_request) (first_normal, (second_normal, tt)) key_made

load_latest-refines_example : load_latest digests (int (pos 7)) (str (codes "ns")) one_saved ≡ (do
  key ← stream_key (int (pos 7)) (str (codes "ns"))
  ok (read_found (newest (one_history key))))
load_latest-refines_example =
    load_latest-refines digests one_saved one_history one_Represents (int (pos 7))
      (str (codes "ns"))

load_checkpoint-refines_example :
    load_checkpoint digests (int (pos 7)) (str (codes "a")) (str (codes "ns")) one_saved ≡ (do
      key ← stream_key (int (pos 7)) (str (codes "ns"))
      requested ← requested_id (str (codes "a"))
      ok (read_found (find (one_history key) requested)))
load_checkpoint-refines_example =
    load_checkpoint-refines digests one_saved one_history one_Represents (int (pos 7))
      (str (codes "ns")) (str (codes "a"))

list_for_run-refines_example :
    list_for_run (int (pos 7)) (str (codes "ns")) one_saved
    ≡ (do key ← stream_key (int (pos 7)) (str (codes "ns")); ok (listing (one_history key)))
list_for_run-refines_example =
    list_for_run-refines digests one_saved one_history one_Represents (int (pos 7))
      (str (codes "ns"))

write_request-IsRequest_example : IsRequest first_request
write_request-IsRequest_example = write_request-IsRequest first_arguments first_request first_made

abbrev step_metadata : Fields
step_metadata = field (name (codes "step")) (int (pos 1)) end

accepted : normalize_checkpoint_metadata (dict step_metadata) ≡ ok step_metadata
unfolding normalize_checkpoint_run_id normalize_checkpoint_namespace normalize_checkpoint_id
    normalize_parent normalize_checkpoint_body normalize_checkpoint_serializer_name
    normalize_checkpoint_serializer_version normalize_checkpoint_content_type
    normalize_checkpoint_metadata normalize_metadata_value strip lstrip
accepted = refl
