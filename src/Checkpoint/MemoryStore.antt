-- ===== src/Checkpoint/MemoryStore.antt =====
-- integrations/checkpoint/memory_store.py. `_lock` makes each call one step, so a call is a
-- function from the store to its result and the next store. SHA-256 (`hashlib`) is a parameter.
pub mod History
pub mod Refinement
pub mod Reads
pub mod Abstract
pub mod Replay
pub mod Guarantees
pub mod Heads
use mathlib.Core.Bool.{decide}
use cobalt_wren.Prelude.{
  ℕ, ◌+◌, Bool, true, false, ◌&&◌, Option, none, some, List, [], ◌∷◌, ◌++◌, ◌≡◌, length, leb,
  if◌then◌else◌,
}
use cobalt_wren.Prelude.Dict.{Dict, get, put, keys}
use cobalt_wren.Prelude.Equality.{Eq, ◌==◌, nat_eq, list_eq, pair_eq}
use cobalt_wren.Prelude.Int.{int_eq}
use cobalt_wren.Prelude.Result.{Result, ok, err, ◌>>=◌, ◌>>◌, guard}
use cobalt_wren.Prelude.Text.{Text, codes, strip}
use cobalt_wren.Core.Value.{Value, str, dict}
use cobalt_wren.Checkpoint.Errors.{
  Checked, CheckpointError, conflict, integrity, reject, invalid_checkpoint_id, store_conflict,
  stale_parent, integrity_failure,
}
use cobalt_wren.Checkpoint.Normalize.{
  RunId, normalize_checkpoint_run_id, normalize_checkpoint_namespace,
}
use cobalt_wren.Checkpoint.Normalize.Stable.{run_id_value}
use cobalt_wren.Checkpoint.Canonical.{
  Canonical, Canonical-discrete, canonicalize_checkpoint_metadata,
}
use cobalt_wren.Checkpoint.Types.{
  CheckpointWriteRequest, StoredCheckpoint, CheckpointReadResult, stored_checkpoint, read_result,
  run_id_eq,
}

-- `sha256(body).hexdigest()`: 64 hexadecimal digits.
pub record Sha256 : Type 0 where
  pub hexdigest : List ℕ → Text
  pub hexdigest_length : (body : List ℕ) → length (hexdigest body) ≡ 64

pub record MemoryCheckpointRecord : Type 0 where
  pub descriptor : StoredCheckpoint
  pub body : List ℕ

pub record MemoryCheckpointStream : Type 0 where
  pub records_by_id : Dict Text MemoryCheckpointRecord
  pub records_by_revision : Dict ℕ Text
  pub head_checkpoint_id : Option Text

abbrev pub empty_stream : MemoryCheckpointStream
empty_stream = record { records_by_id = []; records_by_revision = []; head_checkpoint_id = none }

abbrev pub StreamKey : Type 0
StreamKey = RunId × Text

-- `_streams`
abbrev pub MemoryCheckpointStore : Type 0
MemoryCheckpointStore = Dict StreamKey MemoryCheckpointStream

-- `==` on `str | None`
abbrev pub option_beq : Option Text → Option Text → Bool
option_beq none none = true
option_beq none (some t) = false
option_beq (some s) none = false
option_beq (some s) (some t) = s == t

unfoldable pub canonical_beq : Canonical → Canonical → Bool
canonical_beq a b = decide (Canonical-discrete a b)

-- The copies are equal to what they copy, since values do not change: what stays of
-- `_clone_checkpoint` is the constructor, with its checks.
unfoldable pub clone_checkpoint : StoredCheckpoint → Checked StoredCheckpoint
clone_checkpoint checkpoint = stored_checkpoint checkpoint

abbrev pub same_fields : MemoryCheckpointRecord → CheckpointWriteRequest → Bool
same_fields existing request =
    let descriptor = existing.descriptor in
    (descriptor.run_id == request.run_id)
    && ((descriptor.checkpoint_namespace == request.checkpoint_namespace)
        && ((descriptor.checkpoint_id == request.checkpoint_id)
            && (option_beq descriptor.parent_checkpoint_id request.parent_checkpoint_id
                && ((existing.body == request.body)
                    && ((descriptor.serializer_name == request.serializer_name)
                        && ((descriptor.serializer_version == request.serializer_version)
                            && (descriptor.content_type == request.content_type)))))))

unfoldable pub same_metadata : MemoryCheckpointRecord → CheckpointWriteRequest → Checked Bool
unfolding canonical_beq
same_metadata existing request = do
  stored ← canonicalize_checkpoint_metadata (dict existing.descriptor.metadata)
  requested ← canonicalize_checkpoint_metadata (dict request.metadata)
  ok (canonical_beq stored requested)

unfoldable pub same_canonical_request :
    MemoryCheckpointRecord → CheckpointWriteRequest → Checked Bool
unfolding same_metadata
same_canonical_request existing request =
    if same_fields existing request then same_metadata existing request else ok false

unfoldable pub verify_listing_record : MemoryCheckpointRecord → Checked (Unit {0})
verify_listing_record r = guard (r.descriptor.size == length r.body) (integrity integrity_failure)

unfoldable pub stream_key : Value → Value → Checked StreamKey
stream_key run_id checkpoint_namespace = do
  r ← normalize_checkpoint_run_id run_id
  n ← normalize_checkpoint_namespace checkpoint_namespace
  ok (r, n)

abbrev pub ensured :
    StreamKey → MemoryCheckpointStore → Option MemoryCheckpointStream → MemoryCheckpointStore
ensured key streams (some stream) = streams
ensured key streams none = put streams key empty_stream

unfoldable pub ensure_stream : StreamKey → MemoryCheckpointStore → MemoryCheckpointStore
ensure_stream key streams = ensured key streams (get streams key)

abbrev pub stream_or_empty : Option MemoryCheckpointStream → MemoryCheckpointStream
stream_or_empty none = empty_stream
stream_or_empty (some stream) = stream

-- `sorted` on the revisions
insert_sorted : ℕ → List ℕ → List ℕ
insert_sorted n [] = n ∷ []
insert_sorted n (m ∷ ms) = if leb n m then n ∷ m ∷ ms else m ∷ insert_sorted n ms

unfoldable pub sorted : List ℕ → List ℕ
unfolding insert_sorted
sorted [] = []
sorted (n ∷ ns) = insert_sorted n (sorted ns)

-- The identifier is tested after the stream's key: a `str` with no white space around it.
unfoldable pub requested_id : Value → Checked Text
requested_id (str s) =
    if (strip s == s) && (if s == [] then false else true)
    then ok s
    else reject invalid_checkpoint_id
requested_id _ = reject invalid_checkpoint_id

module _ (sha256 : Sha256) where
  unfoldable pub body_digest : List ℕ → Text
  body_digest body = codes "sha256:" ++ sha256.hexdigest body

  unfoldable pub verify_record : MemoryCheckpointRecord → Checked (Unit {0})
  verify_record r =
      guard ((r.descriptor.size == length r.body) && (r.descriptor.digest == body_digest r.body))
        (integrity integrity_failure)

  unfoldable pub build_descriptor : CheckpointWriteRequest → ℕ → Checked StoredCheckpoint
  build_descriptor request revision = stored_checkpoint (record {
    run_id = request.run_id;
    checkpoint_namespace = request.checkpoint_namespace;
    checkpoint_id = request.checkpoint_id;
    parent_checkpoint_id = request.parent_checkpoint_id;
    revision = revision;
    serializer_name = request.serializer_name;
    serializer_version = request.serializer_version;
    content_type = request.content_type;
    size = length request.body;
    digest = body_digest request.body;
    metadata = request.metadata;
  })

  -- `save`, where the identifier is in the stream.
  unfoldable pub save_existing :
      MemoryCheckpointRecord → CheckpointWriteRequest → Checked StoredCheckpoint
  save_existing existing request = do
    verify_record existing
    same ← same_canonical_request existing request
    if same then clone_checkpoint existing.descriptor else err (conflict store_conflict)

  -- `save`: the test against the head of the stream, and the new revision.
  unfoldable pub revision_after :
      CheckpointWriteRequest → Text → Option MemoryCheckpointRecord → Checked ℕ
  revision_after request head none = err (integrity integrity_failure)
  revision_after request head (some head_record) = do
    verify_record head_record
    guard (option_beq request.parent_checkpoint_id (some head)) (conflict stale_parent)
    ok (head_record.descriptor.revision + 1)

  unfoldable pub next_revision :
      MemoryCheckpointStream → CheckpointWriteRequest → Option Text → Checked ℕ
  unfolding revision_after
  next_revision stream request none =
      if option_beq request.parent_checkpoint_id none then ok 1 else err (conflict stale_parent)
  next_revision stream request (some head) =
      revision_after request head (get stream.records_by_id head)

  -- `save`: the three writes to the stream.
  unfoldable pub write_record :
      MemoryCheckpointStream → CheckpointWriteRequest → StoredCheckpoint → MemoryCheckpointStream
  write_record stream request descriptor = record {
    records_by_id =
        put stream.records_by_id request.checkpoint_id
          (record { descriptor = descriptor; body = request.body });
    records_by_revision = put stream.records_by_revision descriptor.revision request.checkpoint_id;
    head_checkpoint_id = some request.checkpoint_id;
  }

  unfoldable pub finish_save :
      CheckpointWriteRequest
      → MemoryCheckpointStream
      → Checked StoredCheckpoint
      → Checked StoredCheckpoint × MemoryCheckpointStream
  finish_save request stream (err e) = (err e, stream)
  finish_save request stream (ok descriptor) =
      (clone_checkpoint descriptor, write_record stream request descriptor)

  unfoldable pub save_new :
      CheckpointWriteRequest
      → MemoryCheckpointStream
      → Checked StoredCheckpoint × MemoryCheckpointStream
  unfolding finish_save
  save_new request stream = finish_save request stream (do
    revision ← next_revision stream request stream.head_checkpoint_id
    build_descriptor request revision)

  unfoldable pub save_found :
      CheckpointWriteRequest
      → MemoryCheckpointStream
      → Option MemoryCheckpointRecord
      → Checked StoredCheckpoint × MemoryCheckpointStream
  unfolding save_new
  save_found request stream (some existing) = (save_existing existing request, stream)
  save_found request stream none = save_new request stream

  unfoldable pub save_stream :
      CheckpointWriteRequest
      → MemoryCheckpointStream
      → Checked StoredCheckpoint × MemoryCheckpointStream
  unfolding save_found
  save_stream request stream =
      save_found request stream (get stream.records_by_id request.checkpoint_id)

  -- A call that raises after `_ensure_stream` leaves the empty stream behind.
  unfoldable pub save_in :
      CheckpointWriteRequest
      → MemoryCheckpointStore
      → Checked StreamKey
      → Checked StoredCheckpoint × MemoryCheckpointStore
  unfolding save_stream
  save_in request streams (err e) = (err e, streams)
  save_in request streams (ok key) =
      let (result, stream) = save_stream request (stream_or_empty (get streams key)) in
      (result, put (ensure_stream key streams) key stream)

  unfoldable pub save :
      CheckpointWriteRequest
      → MemoryCheckpointStore
      → Checked StoredCheckpoint × MemoryCheckpointStore
  unfolding save_in
  save request streams =
      save_in request streams
        (stream_key (run_id_value request.run_id) (str request.checkpoint_namespace))

  unfoldable pub clone_read_result : MemoryCheckpointRecord → Checked CheckpointReadResult
  clone_read_result r = do c ← clone_checkpoint r.descriptor; read_result c r.body

  verified_read : MemoryCheckpointRecord → Checked (Option CheckpointReadResult)
  verified_read r = do verify_record r; found ← clone_read_result r; ok (some found)

  -- `load_latest`, where the head's record is looked up.
  unfoldable pub head_read : Option MemoryCheckpointRecord → Checked (Option CheckpointReadResult)
  unfolding verified_read
  head_read none = err (integrity integrity_failure)
  head_read (some r) = verified_read r

  unfoldable pub latest_at :
      MemoryCheckpointStream → Option Text → Checked (Option CheckpointReadResult)
  unfolding head_read
  latest_at stream none = ok none
  latest_at stream (some head) = head_read (get stream.records_by_id head)

  unfoldable pub latest_of : Option MemoryCheckpointStream → Checked (Option CheckpointReadResult)
  unfolding latest_at
  latest_of none = ok none
  latest_of (some stream) = latest_at stream stream.head_checkpoint_id

  unfoldable pub load_latest :
      Value → Value → MemoryCheckpointStore → Checked (Option CheckpointReadResult)
  unfolding latest_of
  load_latest run_id checkpoint_namespace streams = do
    key ← stream_key run_id checkpoint_namespace
    latest_of (get streams key)

  -- `load_checkpoint`, where the record is looked up.
  unfoldable pub record_read : Option MemoryCheckpointRecord → Checked (Option CheckpointReadResult)
  unfolding verified_read
  record_read none = ok none
  record_read (some r) = verified_read r

  unfoldable pub checkpoint_of :
      Text → Option MemoryCheckpointStream → Checked (Option CheckpointReadResult)
  unfolding record_read
  checkpoint_of checkpoint_id none = ok none
  checkpoint_of checkpoint_id (some stream) = record_read (get stream.records_by_id checkpoint_id)

  unfoldable pub load_checkpoint :
      Value → Value → Value → MemoryCheckpointStore → Checked (Option CheckpointReadResult)
  unfolding requested_id checkpoint_of
  load_checkpoint run_id checkpoint_id checkpoint_namespace streams = do
    key ← stream_key run_id checkpoint_namespace
    requested ← requested_id checkpoint_id
    checkpoint_of requested (get streams key)

-- `list_for_run`: the body of its loop.
unfoldable pub listed : Option MemoryCheckpointRecord → Checked StoredCheckpoint
listed none = err (integrity integrity_failure)
listed (some r) = do verify_listing_record r; clone_checkpoint r.descriptor

unfoldable pub listed_id : MemoryCheckpointStream → Option Text → Checked StoredCheckpoint
unfolding listed
listed_id stream none = err (integrity integrity_failure)
listed_id stream (some checkpoint_id) = listed (get stream.records_by_id checkpoint_id)

unfoldable pub list_revisions : MemoryCheckpointStream → List ℕ → Checked (List StoredCheckpoint)
unfolding listed_id
list_revisions stream [] = ok []
list_revisions stream (revision ∷ revisions) = do
  checkpoint ← listed_id stream (get stream.records_by_revision revision)
  rest ← list_revisions stream revisions
  ok (checkpoint ∷ rest)

unfoldable pub list_of : Option MemoryCheckpointStream → Checked (List StoredCheckpoint)
unfolding list_revisions sorted
list_of none = ok []
list_of (some stream) = list_revisions stream (sorted (keys stream.records_by_revision))

unfoldable pub list_for_run :
    Value → Value → MemoryCheckpointStore → Checked (List StoredCheckpoint)
unfolding list_of
list_for_run run_id checkpoint_namespace streams = do
  key ← stream_key run_id checkpoint_namespace
  list_of (get streams key)
