-- ===== src/Integrations/Artifacts.antt =====
-- integrations/artifact/base.py: requests to write an artifact and the descriptors of stored ones.
pub mod Metadata
pub mod Renewed
pub mod MemoryStore
use cobalt_wren.Prelude.{
  ℕ, Bool, true, false, not, ◌&&◌, ◌||◌, Option, none, some, List, [], ◌∷◌, ◌++◌, if◌then◌else◌,
  length,
}
use cobalt_wren.Prelude.Equality.{◌==◌, nat_eq, list_eq}
use cobalt_wren.Prelude.Int.{ℤ, pos, int_eq}
use cobalt_wren.Prelude.Result.{Result, ok, err, ◌>>=◌, guard}
use cobalt_wren.Prelude.Text.{Text, codes, strip, lower, startswith, has_char}
use cobalt_wren.Core.Value.{
  Value, null, bool, int, float, str, bytes, bytearray, memoryview, list, tuple, dict, other, Items,
  nil, cons, Fields, end, field, key_text, Float, finite,
}
use cobalt_wren.Core.Compare.{value_beq}
use cobalt_wren.Core.Redaction.{Patterns, put_field, redact_mapping}
use cobalt_wren.Checkpoint.Normalize.{RunId, number, label}
use cobalt_wren.Checkpoint.Types.{run_id_eq}
use cobalt_wren.Integrations.ArtifactKeys.{KeyError, validate_storage_key}

-- The codes of ArtifactValidationError, ArtifactIntegrityError and ArtifactConflictError.
pub data ArtifactError : Type 0 where
  invalid_run_id invalid_storage_key invalid_name invalid_kind : ArtifactError
  invalid_content_type invalid_metadata invalid_body : ArtifactError
  invalid_size invalid_digest integrity_failure conflict : ArtifactError

abbrev pub Checked : Type 0 → Type 0
Checked A = Result ArtifactError A

abbrev pub is_blank : Text → Bool
is_blank s = strip s == []

-- `normalize_artifact_run_id`
unfoldable pub normalize_run_id : Value → Checked RunId
normalize_run_id (int n) = ok (number n)
normalize_run_id (str s) = if is_blank s then err invalid_run_id else ok (label (strip s))
normalize_run_id _ = err invalid_run_id

abbrev pub run_id_value : RunId → Value
run_id_value (number n) = int n
run_id_value (label s) = str s

-- `normalize_artifact_storage_key`, with the KeyErrors of the keys as validation errors.
unfoldable pub normalize_storage_key : Text → Checked Text
normalize_storage_key storage_key = elim (validate_storage_key storage_key) [
  | ok key ↦ ok key
  | err e ↦ err invalid_storage_key
]

-- `normalize_artifact_name` and `normalize_artifact_kind`, with their errors.
abbrev pub stripped_text : ArtifactError → Value → Checked Text
stripped_text e (str s) = if is_blank s then err e else ok (strip s)
stripped_text e _ = err e

-- `bool(value)`
abbrev pub is_truthy : Value → Bool
is_truthy null = false
is_truthy (bool b) = b
is_truthy (int n) = not (n == pos 0)
is_truthy (float (finite m e)) = not (m == pos 0)
is_truthy (float _) = true
is_truthy (str s) = not (s == [])
is_truthy (bytes s) = not (s == [])
is_truthy (bytearray s) = not (s == [])
is_truthy (memoryview s) = not (s == [])
is_truthy (list nil) = false
is_truthy (list _) = true
is_truthy (tuple nil) = false
is_truthy (tuple _) = true
is_truthy (dict end) = false
is_truthy (dict _) = true
is_truthy (other type text) = true

-- A name or a kind that is given.
abbrev pub optional_text : ArtifactError → Value → Checked Text
optional_text e value = if is_truthy value then stripped_text e value else ok []

abbrev pub content_type_of : Text → Checked (Option Text)
content_type_of normalized =
    if (normalized == []) || (has_char 13 normalized || has_char 10 normalized)
    then err invalid_content_type
    else ok (some normalized)

-- `normalize_artifact_content_type`
unfoldable pub normalize_content_type : Value → Checked (Option Text)
normalize_content_type null = ok none
normalize_content_type (str s) = content_type_of (lower (strip s))
normalize_content_type _ = err invalid_content_type

-- `_normalize_json_value`; the loop of a mapping goes from the keys that are written.
unfoldable mutual
  pub normalize_json : Value → Checked Value
  normalize_json null = ok null
  normalize_json (bool b) = ok (bool b)
  normalize_json (int n) = ok (int n)
  normalize_json (float f) = ok (float f)
  normalize_json (str s) = ok (str s)
  normalize_json (dict fs) = json_fields end fs >>= λ gs. ok (dict gs)
  normalize_json (tuple vs) = json_items vs >>= λ ws. ok (list ws)
  normalize_json (list vs) = json_items vs >>= λ ws. ok (list ws)
  normalize_json _ = err invalid_metadata

  pub json_items : Items → Checked Items
  json_items nil = ok nil
  json_items (cons v vs) = normalize_json v >>= λ w. (json_items vs >>= λ ws. ok (cons w ws))

  pub json_fields : Fields → Fields → Checked Fields
  json_fields acc end = ok acc
  json_fields acc (field k v fs) =
      normalize_json v >>= λ w. json_fields (put_field acc (key_text k) w) fs

module _ (p : Patterns) (max_depth : ℕ) where
  -- `normalize_artifact_metadata`
  unfoldable pub normalize_metadata : Value → Checked Fields
  unfolding normalize_json
  normalize_metadata null = ok end
  normalize_metadata (dict fs) = json_fields end (redact_mapping p max_depth fs)
  normalize_metadata _ = err invalid_metadata

-- `normalize_artifact_body`
unfoldable pub normalize_body : Value → Checked (List ℕ)
normalize_body (bytes bs) = ok bs
normalize_body (bytearray bs) = ok bs
normalize_body (memoryview bs) = ok bs
normalize_body _ = err invalid_body

-- What the constructor of a request is given.
pub record RawRequest : Type 0 where
  pub run_id : Value
  pub storage_key : Text
  pub body : Value
  pub name : Value
  pub kind : Value
  pub content_type : Value
  pub metadata : Value

pub record ArtifactWriteRequest : Type 0 where
  pub run_id : RunId
  pub storage_key : Text
  pub body : List ℕ
  pub name : Text
  pub kind : Text
  pub content_type : Option Text
  pub metadata : Fields

pub record StoredArtifact : Type 0 where
  pub run_id : RunId
  pub storage_key : Text
  pub name : Text
  pub kind : Text
  pub content_type : Option Text
  pub size : ℕ
  pub digest : Text
  pub metadata : Fields

pub record ArtifactReadResult : Type 0 where
  pub artifact : StoredArtifact
  pub body : List ℕ

abbrev pub content_type_value : Option Text → Value
content_type_value none = null
content_type_value (some s) = str s

module _ (p : Patterns) (max_depth : ℕ) where
  -- `ArtifactWriteRequest.__post_init__`
  unfoldable pub write_request : RawRequest → Checked ArtifactWriteRequest
  unfolding normalize_metadata
  write_request raw = normalize_run_id raw.run_id >>= λ run_id.
      (normalize_body raw.body >>= λ body.
      (optional_text invalid_name raw.name >>= λ name.
      (optional_text invalid_kind raw.kind >>= λ kind.
      (normalize_content_type raw.content_type >>= λ content_type.
      (normalize_metadata p max_depth raw.metadata >>= λ metadata. ok (record {
        run_id = run_id;
        storage_key = raw.storage_key;
        body = body;
        name = name;
        kind = kind;
        content_type = content_type;
        metadata = metadata;
      }))))))

  -- `StoredArtifact.__post_init__` on fields of the right types.
  unfoldable pub stored_artifact : StoredArtifact → Checked StoredArtifact
  unfolding normalize_metadata
  stored_artifact a = normalize_run_id (run_id_value a.run_id) >>= λ run_id.
      (normalize_storage_key a.storage_key >>= λ storage_key.
      (optional_text invalid_name (str a.name) >>= λ name.
      (optional_text invalid_kind (str a.kind) >>= λ kind.
      (normalize_content_type (content_type_value a.content_type) >>= λ content_type.
      (guard (startswith a.digest (codes "sha256:")) invalid_digest >>= λ u.
      (normalize_metadata p max_depth (dict a.metadata) >>= λ metadata. ok (record {
        run_id = run_id;
        storage_key = storage_key;
        name = name;
        kind = kind;
        content_type = content_type;
        size = a.size;
        digest = a.digest;
        metadata = metadata;
      })))))))

abbrev pub same_content_type : Option Text → Option Text → Bool
same_content_type none none = true
same_content_type (some s) (some t) = s == t
same_content_type _ _ = false

-- `==` of two descriptors
unfoldable pub same_artifact : StoredArtifact → StoredArtifact → Bool
same_artifact a b =
    (a.run_id == b.run_id)
    && ((a.storage_key == b.storage_key)
        && ((a.name == b.name)
            && ((a.kind == b.kind)
                && (same_content_type a.content_type b.content_type
                    && ((a.size == b.size)
                        && ((a.digest == b.digest)
                            && value_beq (dict a.metadata) (dict b.metadata)))))))
