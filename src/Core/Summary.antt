-- ===== src/Core/Summary.antt =====
-- `truncate_text` and `preview_text` of core/summary.py.
use cobalt_wren.Prelude.{
  ℕ, ◌-◌, ◌≤◌, Bool, true, false, ◌++◌, leb, leb→le, length, take, length-append, length-take,
  if◌then◌else◌, ◌≡◌, refl, arith,
}
use cobalt_wren.Prelude.Text.{Text, codes}
use cobalt_wren.Core.Redaction.{Patterns, truncated_value, redact_text}

abbrev pub truncation_suffix : Text
truncation_suffix = codes " " ++ truncated_value

unfoldable pub truncate_text : Text → ℕ → Text
truncate_text text max_chars =
    if leb (length text) max_chars
    then text
    else if leb max_chars (length truncation_suffix)
    then take max_chars truncation_suffix
    else take (max_chars - length truncation_suffix) text ++ truncation_suffix

unfoldable pub preview_text : Patterns → Text → ℕ → Text
preview_text p text max_chars = truncate_text (redact_text p text) max_chars

above_suffix : (m : ℕ) → leb m 16 ≡ false → 16 ≤ m
above_suffix m h = ground arith

-- A text is never longer than the bound after it is truncated.
pub truncate_text-bound :
    (text : Text) (max_chars : ℕ) → length (truncate_text text max_chars) ≤ max_chars
unfolding truncate_text
truncate_text-bound text max_chars =
    by_tests (leb (length text) max_chars) (leb max_chars 16) refl refl
  where
    by_tests :
        (b c : Bool)
        → leb (length text) max_chars ≡ b
        → leb max_chars 16 ≡ c
        → length (
            if b
            then text
            else if c
            then take max_chars truncation_suffix
            else take (max_chars - 16) text ++ truncation_suffix)
          ≤ max_chars
    by_tests true c e f = leb→le (length text) max_chars e
    by_tests false true e f = omega (arith, length-take max_chars truncation_suffix)
    by_tests false false e f =
        rw (length-append (take (max_chars - 16) text) truncation_suffix)
          (rw (length-take (max_chars - 16) text) (omega (arith, above_suffix max_chars f)))
