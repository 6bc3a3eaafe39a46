-- ===== src/Core/ResultSafety.antt =====
-- core/result_safety.py. What `str(value)` gives for a value that is no text is a parameter.
pub mod Bounds
use cobalt_wren.Prelude.{
  ℕ, zero, suc, ◌+◌, Bool, true, false, ◌&&◌, ◌||◌, Option, none, some, List, [], ◌∷◌, ◌++◌, leb,
  ltb, last?, if◌then◌else◌, length, take, map,
}
use cobalt_wren.Prelude.Equality.{◌==◌, nat_eq, list_eq}
use cobalt_wren.Prelude.Int.{ℤ, pos}
use cobalt_wren.Prelude.Text.{Text, codes, strip}
use cobalt_wren.Core.Value.{
  Value, null, bool, int, float, str, bytes, bytearray, memoryview, list, tuple, dict, other, Items,
  nil, cons, Fields, end, field, name, key_text, items_len, fields_len,
}
use cobalt_wren.Core.Redaction.{Patterns, redacted_value, redact_text, redact_mapping, byte_items}
use cobalt_wren.Core.Summary.{truncate_text, preview_text}

abbrev pub max_output_preview_chars : ℕ
max_output_preview_chars = 300

abbrev pub max_error_message_chars : ℕ
max_error_message_chars = 300

abbrev pub max_summary_items : ℕ
max_summary_items = 20

unfoldable pub type_name : Value → Text
type_name null = codes "none"
type_name (bool _) = codes "bool"
type_name (int _) = codes "int"
type_name (float _) = codes "float"
type_name (str _) = codes "str"
type_name (dict _) = codes "dict"
type_name (list _) = codes "list"
type_name (tuple _) = codes "list"
type_name (memoryview _) = codes "list"
type_name (bytes _) = codes "bytes"
type_name (bytearray _) = codes "bytearray"
type_name (other type _) = type

unfoldable pub size_of : Value → Option ℕ
size_of (dict fs) = some (fields_len fs)
size_of (list vs) = some (items_len vs)
size_of (tuple vs) = some (items_len vs)
size_of (memoryview bs) = some (length bs)
size_of (str t) = some (length t)
size_of _ = none

-- The ends of lines of `str.splitlines`.
abbrev pub is_line_end : ℕ → Bool
is_line_end c =
    (leb 10 c && leb c 13)
    || ((leb 28 c && leb c 30) || ((c == 133) || ((c == 8232) || (c == 8233))))

-- `str.splitlines`, from the characters of the line that were read, the last first. Between `\r`
-- and `\n` it makes an empty line more, which the caller drops as it drops every empty line.
unfoldable pub split_lines : Text → Text → List Text
split_lines line [] = line ∷ []
split_lines line (c ∷ s) =
    let ended = split_lines [] s in
    let longer = split_lines (line ++ c ∷ []) s in if is_line_end c then line ∷ ended else longer

-- `[line.strip() for line in lines if line.strip()]`
abbrev pub stripped_lines : List Text → List Text
stripped_lines [] = []
stripped_lines (line ∷ lines) =
    let rest = stripped_lines lines in if strip line == [] then rest else strip line ∷ rest

abbrev last_or : Option Text → Text
last_or none = redacted_value
last_or (some line) = line

unfoldable pub normalize_error_text : Text → Text
normalize_error_text text = last_or (last? (stripped_lines (split_lines [] text)))

abbrev pub take_items : ℕ → Items → Items
take_items zero vs = nil
take_items (suc n) nil = nil
take_items (suc n) (cons v vs) = cons v (take_items n vs)

abbrev pub take_fields : ℕ → Fields → Fields
take_fields zero fs = end
take_fields (suc n) end = end
take_fields (suc n) (field k v fs) = field k v (take_fields n fs)

abbrev pub map_items : (Value → Value) → Items → Items
map_items f nil = nil
map_items f (cons v vs) = cons (f v) (map_items f vs)

-- The loop of `_summarize_mapping` writes four containers. The keys of a redacted mapping are
-- texts that differ, so each is written once.
abbrev pub summary_keys : Fields → Items
summary_keys end = nil
summary_keys (field k v fs) = cons (str (key_text k)) (summary_keys fs)

abbrev pub summary_types : Fields → Fields
summary_types end = end
summary_types (field k v fs) = field k (str (type_name v)) (summary_types fs)

abbrev pub with_size : Option ℕ → (ℕ → Fields) → Fields → Fields
with_size none f rest = rest
with_size (some n) f rest = f n

abbrev pub summary_sizes : Fields → Fields
summary_sizes end = end
summary_sizes (field k v fs) =
    let rest = summary_sizes fs in with_size (size_of v) (λ n. field k (int (pos n)) rest) rest

abbrev pub summary_previews : (Value → Value) → Fields → Fields
summary_previews f end = end
summary_previews f (field k v fs) = field k (f v) (summary_previews f fs)

module _ (p : Patterns) (str_of : Value → Text) where
  unfoldable pub bounded_preview : Text → Text
  bounded_preview text = truncate_text (redact_text p text) max_output_preview_chars

  -- `_summarize_mapping` where the depth is not negative; `f` summarizes the values one level down.
  unfoldable pub summarize_mapping : (Value → Value) → Fields → Value
  summarize_mapping f fs =
      let redacted = redact_mapping p 4 fs in
      let items = take_fields max_summary_items redacted in
      dict (
        field (name (codes "keys")) (list (summary_keys items)) (
          field (name (codes "types")) (dict (summary_types items)) (
            field (name (codes "sizes")) (dict (summary_sizes items)) (
              field (name (codes "preview")) (dict (summary_previews f items)) (
                if ltb max_summary_items (fields_len redacted)
                then field (name (codes "truncated")) (bool true) end
                else end)))))

  unfoldable pub summarize_sequence : (Value → Value) → Items → Value
  summarize_sequence f vs = list (map_items f (take_items max_summary_items vs))

  -- `_summarize_any`: the depth is counted from -1.
  unfoldable pub summarize_any : ℕ → Value → Value
  summarize_any zero v = str redacted_value
  summarize_any (suc levels) (dict fs) = summarize_mapping (summarize_any levels) fs
  summarize_any (suc levels) (list vs) = summarize_sequence (summarize_any levels) vs
  summarize_any (suc levels) (tuple vs) = summarize_sequence (summarize_any levels) vs
  summarize_any (suc levels) (memoryview bs) =
      summarize_sequence (summarize_any levels) (byte_items bs)
  summarize_any (suc levels) (str t) = str (preview_text p t max_output_preview_chars)
  summarize_any (suc levels) null = null
  summarize_any (suc levels) (bool b) = bool b
  summarize_any (suc levels) (int n) = int n
  summarize_any (suc levels) (float x) = float x
  summarize_any (suc levels) (bytes bs) = str (bounded_preview (str_of (bytes bs)))
  summarize_any (suc levels) (bytearray bs) = str (bounded_preview (str_of (bytearray bs)))
  summarize_any (suc levels) (other type text) = str (bounded_preview text)

  abbrev pub container_payload : Value → ℕ → Value → Fields
  container_payload value size summary =
      field (name (codes "value_type")) (str (type_name value))
        (field (name (codes "size")) (int (pos size)) (field (name (codes "summary")) summary end))

  abbrev pub text_payload : Value → Text → ℕ → Fields
  text_payload value preview size = field (name (codes "value_type")) (str (type_name value)) (
      field (name (codes "summary"))
        (dict (
          field (name (codes "preview")) (str preview)
            (field (name (codes "length")) (int (pos size)) end)))
        end)

  unfoldable pub safe_run_output_payload : Value → Fields
  safe_run_output_payload (dict fs) =
      container_payload (dict fs) (fields_len fs) (summarize_mapping (summarize_any 3) fs)
  safe_run_output_payload (list vs) =
      container_payload (list vs) (items_len vs) (summarize_sequence (summarize_any 3) vs)
  safe_run_output_payload (tuple vs) =
      container_payload (tuple vs) (items_len vs) (summarize_sequence (summarize_any 3) vs)
  safe_run_output_payload (memoryview bs) =
      container_payload (memoryview bs) (length bs)
        (summarize_sequence (summarize_any 3) (byte_items bs))
  safe_run_output_payload (str t) =
      text_payload (str t) (preview_text p t max_output_preview_chars) (length t)
  safe_run_output_payload v = text_payload v (bounded_preview (str_of v)) (length (str_of v))

module _ (p : Patterns) where
  -- An exception comes as the name of its type and its text; a plain text has the type `Error`.
  unfoldable pub safe_run_error_message : Text → Text → Text
  safe_run_error_message error_type message =
      let raw_message = if message == [] then codes "operation failed" else message in
      let bounded = strip (
        truncate_text (redact_text p (normalize_error_text raw_message)) max_error_message_chars) in
      error_type ++ codes ": " ++ (if bounded == [] then redacted_value else bounded)
