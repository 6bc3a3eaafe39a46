-- ===== src/Integrations/ArtifactKeys.antt =====
-- integrations/artifact/keys.py.
use cobalt_wren.Prelude.{
  ℕ, Bool, false, not, ◌&&◌, ◌||◌, List, [], ◌∷◌, ◌++◌, leb, any, if◌then◌else◌,
}
use cobalt_wren.Prelude.Equality.{◌==◌, nat_eq, list_eq}
use cobalt_wren.Prelude.Result.{Result, ok, err}
use cobalt_wren.Prelude.Text.{Text, codes, strip, startswith, has_char}

abbrev is_letter : ℕ → Bool
is_letter c = (leb 65 c && leb c 90) || (leb 97 c && leb c 122)

-- `_WINDOWS_ABSOLUTE_PATH.match`
abbrev is_windows_path : Text → Bool
is_windows_path (c ∷ d ∷ e ∷ s) = is_letter c && ((d == 58) && ((e == 92) || (e == 47)))
is_windows_path _ = false

-- `storage_key.split("/")`, from the part that was read.
unfoldable pub split_parts : Text → Text → List Text
split_parts part [] = part ∷ []
split_parts part (c ∷ s) =
    let ended = split_parts [] s in
    let longer = split_parts (part ++ c ∷ []) s in if c == 47 then part ∷ ended else longer

abbrev is_special_part : Text → Bool
is_special_part part = (part == []) || ((part == codes ".") || (part == codes ".."))

unfoldable pub is_safe_storage_key : Text → Bool
unfolding split_parts
is_safe_storage_key storage_key =
    not (storage_key == [])
    && ((strip storage_key == storage_key)
        && (not (
              startswith storage_key (codes "/")
              || (startswith storage_key (codes "\\")
                  || (startswith storage_key (codes "~") || startswith storage_key (codes "//"))))
            && (not (is_windows_path storage_key)
                && (not (has_char 58 storage_key || has_char 92 storage_key)
                    && not (any is_special_part (split_parts [] storage_key))))))

pub data KeyError : Type 0 where
  unsafe_artifact_storage_key : KeyError

unfoldable pub validate_storage_key : Text → Result KeyError Text
validate_storage_key storage_key =
    if is_safe_storage_key storage_key then ok storage_key else err unsafe_artifact_storage_key
