-- ===== src/Checkpoint/Normalize.antt =====
-- The normalizers of integrations/checkpoint/base.py.
pub mod Stable
pub mod Lossless
use cobalt_wren.Prelude.{
  ℕ, zero, suc, ◌+◌, Bool, true, false, not, ◌&&◌, ◌||◌, Option, none, some, List, [], ◌∷◌, length,
  any, all, ltb, leb, if◌then◌else◌,
}
use cobalt_wren.Prelude.Equality.{◌==◌, Eq, nat_eq, list_eq}
use cobalt_wren.Prelude.Int.{ℤ, pos, is_positive, int_beq}
use cobalt_wren.Prelude.Result.{ok, ◌>>=◌, ◌>>◌, guard, err}
use cobalt_wren.Prelude.Text.{Text, strip, lower, is_space, has_char}
use cobalt_wren.Core.Value.{
  Value, null, bool, int, float, str, bytes, list, dict, Items, nil, cons, Fields, end, field, name,
  foreign, Float, finite, items_len, fields_len,
}
use cobalt_wren.Checkpoint.Errors.{
  Checked, validation, reject, invalid_run_id, invalid_namespace, invalid_checkpoint_id,
  invalid_serializer_name, invalid_serializer_version, invalid_content_type, invalid_body,
  invalid_metadata,
}

abbrev pub max_identifier_length : ℕ
max_identifier_length = 255

abbrev pub max_metadata_depth : ℕ
max_metadata_depth = 16

abbrev pub max_metadata_items : ℕ
max_metadata_items = 1000

abbrev pub max_metadata_string_length : ℕ
max_metadata_string_length = 65536

-- `[A-Za-z0-9]`
abbrev pub is_alnum : ℕ → Bool
is_alnum c = (leb 65 c && leb c 90) || ((leb 97 c && leb c 122) || (leb 48 c && leb c 57))

-- `[A-Za-z0-9_-]`
abbrev is_serializer_char : ℕ → Bool
is_serializer_char c = is_alnum c || ((c == 95) || (c == 45))

-- `[A-Za-z0-9._:-]`
abbrev is_checkpoint_id_char : ℕ → Bool
is_checkpoint_id_char c = is_alnum c || ((c == 46) || ((c == 95) || ((c == 58) || (c == 45))))

-- `_SERIALIZER_NAME_RE.fullmatch`
abbrev matches_serializer_name : Text → Bool
matches_serializer_name [] = false
matches_serializer_name (c ∷ s) = is_alnum c && all is_serializer_char s

-- `_CHECKPOINT_ID_RE.fullmatch`
abbrev matches_checkpoint_id : Text → Bool
matches_checkpoint_id [] = false
matches_checkpoint_id (c ∷ s) = is_alnum c && all is_checkpoint_id_char s

-- A run identifier: `int | str`.
pub data RunId : Type 0 where
  number : ℤ → RunId
  label : Text → RunId

-- `not s or len(s) > _MAX_IDENTIFIER_LENGTH`
abbrev is_bad_length : Text → Bool
is_bad_length s = (s == []) || ltb max_identifier_length (length s)

unfoldable pub normalize_checkpoint_run_id : Value → Checked RunId
normalize_checkpoint_run_id (int n) = ok (number n)
normalize_checkpoint_run_id (str s) =
    let normalized = strip s in
    if is_bad_length normalized then reject invalid_run_id else ok (label normalized)
normalize_checkpoint_run_id _ = reject invalid_run_id

unfoldable pub normalize_checkpoint_namespace : Value → Checked Text
normalize_checkpoint_namespace (str s) =
    if not (s == strip s)
    then reject invalid_namespace
    else if s == []
    then ok []
    else if ltb max_identifier_length (length s) || has_char 0 s
    then reject invalid_namespace
    else if not (matches_checkpoint_id s)
    then reject invalid_namespace
    else ok s
normalize_checkpoint_namespace _ = reject invalid_namespace

unfoldable pub normalize_checkpoint_id : Value → Checked Text
normalize_checkpoint_id (str s) =
    if not (s == strip s)
    then reject invalid_checkpoint_id
    else if is_bad_length s || has_char 0 s
    then reject invalid_checkpoint_id
    else if not (matches_checkpoint_id s)
    then reject invalid_checkpoint_id
    else ok s
normalize_checkpoint_id _ = reject invalid_checkpoint_id

unfoldable pub normalize_checkpoint_serializer_name : Value → Checked Text
normalize_checkpoint_serializer_name (str s) =
    if not (s == strip s)
    then reject invalid_serializer_name
    else if is_bad_length s || has_char 0 s
    then reject invalid_serializer_name
    else if not (matches_serializer_name s)
    then reject invalid_serializer_name
    else ok s
normalize_checkpoint_serializer_name _ = reject invalid_serializer_name

unfoldable pub normalize_checkpoint_serializer_version : Value → Checked ℤ
normalize_checkpoint_serializer_version (int n) =
    if is_positive n then ok n else reject invalid_serializer_version
normalize_checkpoint_serializer_version _ = reject invalid_serializer_version

-- `str.count` of a single character
abbrev count_char : ℕ → Text → ℕ
count_char c [] = 0
count_char c (d ∷ s) = (if d == c then 1 else 0) + count_char c s

unfoldable pub normalize_checkpoint_content_type : Value → Checked Text
normalize_checkpoint_content_type (str s) =
    if not (s == strip s)
    then reject invalid_content_type
    else let normalized = lower s in
      if is_bad_length normalized || has_char 0 normalized
      then reject invalid_content_type
      else if not (has_char 47 normalized) || not (count_char 47 normalized == 1)
      then reject invalid_content_type
      else if any is_space normalized
      then reject invalid_content_type
      else ok normalized
normalize_checkpoint_content_type _ = reject invalid_content_type

unfoldable pub normalize_checkpoint_body : Value → Checked (List ℕ)
normalize_checkpoint_body (bytes b) = ok b
normalize_checkpoint_body _ = reject invalid_body

-- The first test of every call; `result` is what follows it.
abbrev pub within_depth : {A : Type 0} → ℕ → Checked A → Checked A
within_depth depth result = if ltb max_metadata_depth depth then reject invalid_metadata else result

abbrev pub within_items : {A : Type 0} → ℕ → Checked A → Checked A
within_items n result = if ltb max_metadata_items n then reject invalid_metadata else result

unfoldable mutual
  pub normalize_metadata_value : ℕ → Value → Checked Value
  normalize_metadata_value depth null = within_depth depth (ok null)
  normalize_metadata_value depth (bool b) = within_depth depth (ok (bool b))
  normalize_metadata_value depth (int n) = within_depth depth (ok (int n))
  normalize_metadata_value depth (float (finite m e)) = within_depth depth (ok (float (finite m e)))
  normalize_metadata_value depth (str s) =
      within_depth depth
        (if ltb max_metadata_string_length (length s) then reject invalid_metadata else ok (str s))
  normalize_metadata_value depth (dict fs) = within_depth depth (
      within_items (fields_len fs) (do gs ← normalize_metadata_fields (suc depth) fs; ok (dict gs)))
  normalize_metadata_value depth (list vs) =
      within_depth depth (
        within_items (items_len vs) (do ws ← normalize_metadata_items (suc depth) vs; ok (list ws)))
  normalize_metadata_value depth _ = reject invalid_metadata

  pub normalize_metadata_items : ℕ → Items → Checked Items
  normalize_metadata_items depth nil = ok nil
  normalize_metadata_items depth (cons v vs) = do
    w ← normalize_metadata_value depth v
    ws ← normalize_metadata_items depth vs
    ok (cons w ws)

  pub normalize_metadata_fields : ℕ → Fields → Checked Fields
  normalize_metadata_fields depth end = ok end
  normalize_metadata_fields depth (field (foreign t) v fs) = reject invalid_metadata
  normalize_metadata_fields depth (field (name t) v fs) =
      if ltb max_identifier_length (length t) then reject invalid_metadata else do
        w ← normalize_metadata_value depth v
        gs ← normalize_metadata_fields depth fs
        ok (field (name t) w gs)

pub as_fields : Value → Checked Fields
as_fields (dict fs) = ok fs
as_fields _ = reject invalid_metadata

-- `metadata` is `Mapping | None`.
unfoldable pub normalize_checkpoint_metadata : Value → Checked Fields
unfolding as_fields
normalize_checkpoint_metadata null = ok end
normalize_checkpoint_metadata (dict fs) = do v ← normalize_metadata_value 0 (dict fs); as_fields v
normalize_checkpoint_metadata _ = reject invalid_metadata
