-- ===== src/Native/Artifacts.antt =====
-- Names and slots of artifacts that a native workflow writes, native/helpers.py.
pub mod Slots
use cobalt_wren.Prelude.{
  ℕ, Bool, true, false, not, ◌&&◌, ◌||◌, Option, none, some, List, [], ◌∷◌, leb, length,
  if◌then◌else◌,
}
use mathlib.Core.List.{reverse}
use cobalt_wren.Prelude.Equality.{◌==◌, nat_eq, list_eq}
use cobalt_wren.Prelude.Result.{Result, ok, err}
use cobalt_wren.Prelude.Text.{Text, codes, strip, lower, has_char}
use cobalt_wren.Core.Value.{Value, str}

pub data ArtifactNameError : Type 0 where
  not_a_string blank_or_surrounded separators_or_nul : ArtifactNameError

-- `_SAFE_ARTIFACT_NAME.fullmatch`
abbrev pub is_safe_name : Text → Bool
is_safe_name s =
    not (s == []) && (leb (length s) 255 && not (has_char 47 s || (has_char 92 s || has_char 0 s)))

-- `_validate_artifact_name`
unfoldable pub validate_artifact_name : Value → Result ArtifactNameError Text
validate_artifact_name (str value) =
    if not (strip value == value) || (strip value == [])
    then err blank_or_surrounded
    else if not (is_safe_name (strip value))
    then err separators_or_nul
    else ok (strip value)
validate_artifact_name _ = err not_a_string

-- `name.rsplit(".", 1)[0]`
unfoldable pub stem : Text → Text
stem [] = []
stem (c ∷ s) = if (c == 46) && not (has_char 46 s) then [] else c ∷ stem s

abbrev pub is_slot_char : ℕ → Bool
is_slot_char c = (leb 97 c && leb c 122) || (leb 48 c && leb c 57)

-- `_ARTIFACT_SLOT_UNSAFE.sub("-", s)`: a run of other characters is one dash. `run` says whether the
-- run's dash is written.
unfoldable pub dashed : Bool → Text → Text
dashed run [] = []
dashed run (c ∷ s) =
    if is_slot_char c then c ∷ dashed false s else if run then dashed true s else 45 ∷ dashed true s

-- `lstrip("-")` and `strip("-")`
unfoldable pub lstrip_dashes : Text → Text
lstrip_dashes [] = []
lstrip_dashes (c ∷ s) = if c == 45 then lstrip_dashes s else c ∷ s

abbrev pub strip_dashes : Text → Text
strip_dashes s = reverse (lstrip_dashes (reverse (lstrip_dashes s)))

abbrev pub or_artifact : Text → Text
or_artifact [] = codes "artifact"
or_artifact (c ∷ s) = c ∷ s

-- `_artifact_slot`
unfoldable pub artifact_slot : Text → Text
unfolding stem dashed lstrip_dashes
artifact_slot name = or_artifact (strip_dashes (dashed false (lower (strip (stem name)))))
