-- ===== src/Native/Names.antt =====
-- `_required_name` and `_occurrence_identity` of native/__init__.py.
pub mod Identity
use cobalt_wren.Prelude.{
  ℕ, Bool, true, false, not, ◌&&◌, ◌||◌, Option, none, some, List, [], ◌∷◌, ◌++◌, leb, all, length,
  if◌then◌else◌,
}
use cobalt_wren.Prelude.Equality.{◌==◌, nat_eq}
use cobalt_wren.Prelude.Result.{Result, ok, err}
use cobalt_wren.Prelude.Text.{Text, codes, strip}

-- The ValueErrors of the two, the first two with the name of the field.
pub data NameError : Type 0 where
  name_blank name_too_long : Text → NameError
  occurrence_key_unsafe : NameError

abbrev pub is_empty_text : Text → Bool
is_empty_text [] = true
is_empty_text (c ∷ s) = false

unfoldable pub required_name : Text → Text → Result NameError Text
required_name value field_name =
    let normalized = strip value in
    if is_empty_text normalized
    then err (name_blank field_name)
    else if not (leb (length normalized) 128)
    then err (name_too_long field_name)
    else ok normalized

abbrev pub is_alphanumeric : ℕ → Bool
is_alphanumeric c = (leb 48 c && leb c 57) || ((leb 65 c && leb c 90) || (leb 97 c && leb c 122))

-- `[A-Za-z0-9._:-]`
abbrev pub is_key_char : ℕ → Bool
is_key_char c = is_alphanumeric c || ((c == 46) || ((c == 95) || ((c == 58) || (c == 45))))

-- `_OCCURRENCE_KEY.fullmatch`
unfoldable pub is_occurrence_key : Text → Bool
is_occurrence_key [] = false
is_occurrence_key (c ∷ s) = is_alphanumeric c && (all is_key_char s && leb (length s) 63)

abbrev pub keyed : Text → Text → Text
keyed name key = name ++ (codes ":" ++ key)

unfoldable pub occurrence_identity : Text → Option Text → Result NameError Text
occurrence_identity name none = ok name
occurrence_identity name (some occurrence_key) =
    let normalized = strip occurrence_key in
    if is_occurrence_key normalized then ok (keyed name normalized) else err occurrence_key_unsafe
