-- ===== src/Integrations/Emission.antt =====
-- integrations/artifact/emission.py: the identities of emitted artifacts and their storage keys.
pub mod Keys
use Prim.Native.Nat.{◌^◌, ◌/◌, ◌%◌}
use cobalt_wren.Prelude.{
  ℕ, zero, suc, ◌+◌, Bool, true, false, not, ◌&&◌, ◌||◌, Option, none, some, List, [], ◌∷◌, ◌++◌,
  ltb, leb, length, last?, all, if◌then◌else◌,
}
use cobalt_wren.Prelude.Equality.{◌==◌, nat_eq, list_eq}
use cobalt_wren.Prelude.Int.{ℤ, pos, negsuc}
use cobalt_wren.Prelude.Result.{Result, ok, err, ◌>>=◌}
use cobalt_wren.Prelude.Text.{Text, codes, strip, lower, has_char, decimal}
use cobalt_wren.Core.Value.{Value, int}
use cobalt_wren.Integrations.ArtifactKeys.{KeyError, validate_storage_key}

pub data EmissionError : Type 0 where
  emission_invalid_run_id emission_invalid_slot emission_invalid_occurrence : EmissionError
  emission_unsafe_key : EmissionError

abbrev pub max_run_id : ℕ
max_run_id = 9223372036854775807

-- `_normalize_artifact_run_id`
unfoldable pub normalize_emission_run_id : Value → Result EmissionError ℕ
normalize_emission_run_id (int (pos n)) =
    if (n == 0) || ltb max_run_id n then err emission_invalid_run_id else ok n
normalize_emission_run_id _ = err emission_invalid_run_id

abbrev pub is_label_end : ℕ → Bool
is_label_end c = (leb 97 c && leb c 122) || (leb 48 c && leb c 57)

abbrev pub is_label_char : ℕ → Bool
is_label_char c = is_label_end c || (c == 45)

abbrev pub ends_well : Option ℕ → Bool
ends_well none = false
ends_well (some c) = is_label_end c

-- `_LOGICAL_IDENTIFIER_RE.fullmatch`
unfoldable pub is_logical_identifier : Text → Bool
is_logical_identifier [] = false
is_logical_identifier (c ∷ s) =
    is_label_end c && (all is_label_char (c ∷ s) && ends_well (last? (c ∷ s)))

-- `_normalize_artifact_label`, with the error of a slot or of an occurrence.
unfoldable pub normalize_label : EmissionError → ℕ → Text → Result EmissionError Text
normalize_label error max_length value =
    if not (value == strip value)
    then err error
    else if (value == []) || (ltb max_length (length value) || has_char 0 value)
    then err error
    else if not (lower value == value) || not (is_logical_identifier (lower value))
    then err error
    else ok (lower value)

abbrev pub max_label_length : ℕ
max_label_length = 64

pub record ArtifactIdentity : Type 0 where
  pub run_id : ℕ
  pub slot : Text
  pub occurrence : Option Text

abbrev pub normalize_occurrence : Option Text → Result EmissionError (Option Text)
normalize_occurrence none = ok none
normalize_occurrence (some value) =
    normalize_label emission_invalid_occurrence max_label_length value >>= λ label. ok (some label)

-- `ArtifactIdentity`, from its arguments
unfoldable pub artifact_identity :
    Value → Text → Option Text → Result EmissionError ArtifactIdentity
unfolding normalize_emission_run_id normalize_label
artifact_identity run_id slot occurrence = normalize_emission_run_id run_id >>= λ run.
    (normalize_label emission_invalid_slot max_label_length slot >>= λ label.
    (normalize_occurrence occurrence >>= λ which.
    ok (record { run_id = run; slot = label; occurrence = which })))

-- The UTF-8 bytes of a character.
abbrev pub utf8 : ℕ → List ℕ
utf8 c =
    if ltb c 128
    then c ∷ []
    else if ltb c 2048
    then (192 + c / 64) ∷ (128 + c % 64) ∷ []
    else if ltb c 65536
    then (224 + c / 4096) ∷ (128 + (c / 64) % 64) ∷ (128 + c % 64) ∷ []
    else (240 + c / 262144) ∷ (128 + (c / 4096) % 64) ∷ (128 + (c / 64) % 64) ∷ (128 + c % 64) ∷ []

abbrev pub hex_digit : ℕ → ℕ
hex_digit n = if ltb n 10 then 48 + n else 55 + n

abbrev pub percent_encoded : List ℕ → Text
percent_encoded [] = []
percent_encoded (b ∷ bs) = 37 ∷ hex_digit (b / 16) ∷ hex_digit (b % 16) ∷ percent_encoded bs

abbrev pub is_unreserved : ℕ → Bool
is_unreserved c =
    (leb 48 c && leb c 57)
    || ((leb 65 c && leb c 90)
        || ((leb 97 c && leb c 122) || ((c == 95) || ((c == 46) || ((c == 45) || (c == 126))))))

-- `quote(s, safe="")`
unfoldable pub quote : Text → Text
quote [] = []
quote (c ∷ s) = if is_unreserved c then c ∷ quote s else percent_encoded (utf8 c) ++ quote s

abbrev pub occurrence_part : Option Text → Text
occurrence_part none = []
occurrence_part (some label) = 47 ∷ quote label

-- The parts of a key, joined by slashes.
unfoldable pub joined_key : ArtifactIdentity → Text
unfolding quote
joined_key i =
    codes "artifact/v1/"
    ++ (quote (decimal i.run_id) ++ 47 ∷ (quote i.slot ++ occurrence_part i.occurrence))

-- `build_artifact_storage_key`: the identity is made again from its parts.
unfoldable pub build_artifact_storage_key : ArtifactIdentity → Result EmissionError Text
unfolding artifact_identity joined_key
build_artifact_storage_key i =
    artifact_identity (int (pos i.run_id)) i.slot i.occurrence >>= λ again.
    (elim (validate_storage_key (joined_key again)) [
      | ok key ↦ ok key
      | err e ↦ err emission_unsafe_key
    ])
