-- ===== src/Checkpoint/Types.antt =====
-- The value types of integrations/checkpoint/base.py and their constructors (`__post_init__`).
pub mod Normal
use cobalt_wren.Prelude.{
  ℕ, ◌+◌, Bool, true, false, not, ◌&&◌, Option, none, some, List, ltb, if◌then◌else◌, length, ◌≡◌,
  ◌↔◌, arith,
}
use cobalt_wren.Prelude.Equality.{Eq, ◌==◌, nat_eq, list_eq, list_beq_iff}
use cobalt_wren.Prelude.Int.{ℤ, int_eq, int_beq_iff}
use cobalt_wren.Prelude.Result.{ok, ◌>>=◌, ◌>>◌, guard}
use cobalt_wren.Prelude.Text.{Text, codes, startswith}
use cobalt_wren.Core.Value.{Value, null, bytes, str, int, dict, Fields}
use cobalt_wren.Checkpoint.Errors.{
  Checked, validation, integrity, self_parent, invalid_revision, invalid_digest,
}
use cobalt_wren.Checkpoint.Normalize.{
  RunId, number, label, normalize_checkpoint_run_id, normalize_checkpoint_namespace,
  normalize_checkpoint_id, normalize_checkpoint_serializer_name,
  normalize_checkpoint_serializer_version, normalize_checkpoint_content_type,
  normalize_checkpoint_body, normalize_checkpoint_metadata,
}
use cobalt_wren.Checkpoint.Normalize.Stable.{run_id_value}

-- `==` on run identifiers: an `int` never equals a `str`.
abbrev pub run_id_beq : RunId → RunId → Bool
run_id_beq (number m) (number n) = m == n
run_id_beq (label s) (label t) = s == t
run_id_beq (number m) (label t) = false
run_id_beq (label s) (number n) = false

pub run_id_beq_iff : (a b : RunId) → (run_id_beq a b ≡ true) ↔ (a ≡ b)
run_id_beq_iff (number m) (number n) = ground (arith, int_beq_iff m n)
run_id_beq_iff (label s) (label t) = ground (arith, list_beq_iff s t)
run_id_beq_iff (number m) (label t) = ground arith
run_id_beq_iff (label s) (number n) = ground arith

instance abbrev pub run_id_eq : Eq RunId
run_id_eq = record { beq = run_id_beq; beq_iff = run_id_beq_iff }

-- The arguments that a caller passes to `CheckpointWriteRequest(...)`.
pub record WriteArguments : Type 0 where
  pub run_id : Value
  pub checkpoint_id : Value
  pub body : Value
  pub serializer_name : Value
  pub serializer_version : Value
  pub content_type : Value
  pub checkpoint_namespace : Value
  pub parent_checkpoint_id : Value
  pub metadata : Value

pub record CheckpointWriteRequest : Type 0 where
  pub run_id : RunId
  pub checkpoint_id : Text
  pub body : List ℕ
  pub serializer_name : Text
  pub serializer_version : ℤ
  pub content_type : Text
  pub checkpoint_namespace : Text
  pub parent_checkpoint_id : Option Text
  pub metadata : Fields

-- `if parent is not None: normalize_checkpoint_id(parent)`
unfoldable pub normalize_parent : Value → Checked (Option Text)
normalize_parent null = ok none
normalize_parent v = do t ← normalize_checkpoint_id v; ok (some t)

-- `parent is not None and parent == checkpoint_id`
abbrev pub is_self_parent : Option Text → Text → Bool
is_self_parent none checkpoint_id = false
is_self_parent (some parent) checkpoint_id = parent == checkpoint_id

unfoldable pub write_request : WriteArguments → Checked CheckpointWriteRequest
write_request a = do
  run_id ← normalize_checkpoint_run_id a.run_id
  checkpoint_namespace ← normalize_checkpoint_namespace a.checkpoint_namespace
  checkpoint_id ← normalize_checkpoint_id a.checkpoint_id
  parent_checkpoint_id ← normalize_parent a.parent_checkpoint_id
  body ← normalize_checkpoint_body a.body
  serializer_name ← normalize_checkpoint_serializer_name a.serializer_name
  serializer_version ← normalize_checkpoint_serializer_version a.serializer_version
  content_type ← normalize_checkpoint_content_type a.content_type
  guard (not (is_self_parent parent_checkpoint_id checkpoint_id)) (validation self_parent)
  metadata ← normalize_checkpoint_metadata a.metadata
  ok (record {
    run_id = run_id;
    checkpoint_id = checkpoint_id;
    body = body;
    serializer_name = serializer_name;
    serializer_version = serializer_version;
    content_type = content_type;
    checkpoint_namespace = checkpoint_namespace;
    parent_checkpoint_id = parent_checkpoint_id;
    metadata = metadata;
  })

-- The stores compute `revision` and `size`: they are natural numbers here.
pub record StoredCheckpoint : Type 0 where
  pub run_id : RunId
  pub checkpoint_namespace : Text
  pub checkpoint_id : Text
  pub parent_checkpoint_id : Option Text
  pub revision : ℕ
  pub serializer_name : Text
  pub serializer_version : ℤ
  pub content_type : Text
  pub size : ℕ
  pub digest : Text
  pub metadata : Fields

abbrev pub parent_value : Option Text → Value
parent_value none = null
parent_value (some t) = str t

-- `digest.startswith('sha256:')` and `len(digest) == len('sha256:') + 64`
abbrev pub is_digest : Text → Bool
is_digest digest = startswith digest (codes "sha256:") && length digest == 71

-- `StoredCheckpoint(...)`, from its arguments.
unfoldable pub stored_checkpoint : StoredCheckpoint → Checked StoredCheckpoint
stored_checkpoint a = do
  run_id ← normalize_checkpoint_run_id (run_id_value a.run_id)
  checkpoint_namespace ← normalize_checkpoint_namespace (str a.checkpoint_namespace)
  checkpoint_id ← normalize_checkpoint_id (str a.checkpoint_id)
  parent_checkpoint_id ← normalize_parent (parent_value a.parent_checkpoint_id)
  guard (ltb 0 a.revision) (integrity invalid_revision)
  serializer_name ← normalize_checkpoint_serializer_name (str a.serializer_name)
  serializer_version ← normalize_checkpoint_serializer_version (int a.serializer_version)
  content_type ← normalize_checkpoint_content_type (str a.content_type)
  guard (is_digest a.digest) (integrity invalid_digest)
  metadata ← normalize_checkpoint_metadata (dict a.metadata)
  ok (record {
    run_id = run_id;
    checkpoint_namespace = checkpoint_namespace;
    checkpoint_id = checkpoint_id;
    parent_checkpoint_id = parent_checkpoint_id;
    revision = a.revision;
    serializer_name = serializer_name;
    serializer_version = serializer_version;
    content_type = content_type;
    size = a.size;
    digest = a.digest;
    metadata = metadata;
  })

pub record CheckpointReadResult : Type 0 where
  pub checkpoint : StoredCheckpoint
  pub body : List ℕ

unfoldable pub read_result : StoredCheckpoint → List ℕ → Checked CheckpointReadResult
read_result checkpoint body = do
  b ← normalize_checkpoint_body (bytes body)
  ok (record { checkpoint = checkpoint; body = b })
