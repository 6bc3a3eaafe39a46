-- ===== src/Prelude/Text.antt =====
-- Python's `str` as the list of its code points, and the methods that the program calls on it.
pub mod Strip
pub mod Split
use Prim.Native.Nat.{◌/◌, ◌%◌, ℕ, zero, suc, ◌+◌, ◌-◌, ◌≤◌}
use Prim.Native.Char.{code}
use Prim.Native.String.{String}
use mathlib.Core.Path.{◌≡◌, refl, ap, ◌∙◌}
use mathlib.Core.Logic.{◌⊎◌, inl, inr}
use mathlib.Core.Bool.{Bool, true, false, not, ◌&&◌, ◌||◌}
use mathlib.Core.List.{List, [], ◌∷◌, ◌++◌, map, reverse}
use native.Mathlib.Omega.{arith}
use cobalt_wren.Prelude.Tests.{ltb, leb, if◌then◌else◌}
use cobalt_wren.Prelude.Equality.{◌==◌, nat_eq}
use cobalt_wren.Prelude.Lists.{length, any}

abbrev pub Text : Type 0
Text = List ℕ

-- A literal of the source.
abbrev pub codes : String → Text
codes String.[] = []
codes (String.◌∷◌ c s) = code c ∷ codes s

-- `str.isspace` on one character.
abbrev pub is_space : ℕ → Bool
is_space c =
    (leb 9 c && leb c 13)
    || ((leb 28 c && leb c 32)
        || ((c == 133)
            || ((c == 160)
                || ((c == 5760)
                    || ((leb 8192 c && leb c 8202)
                        || ((c == 8232)
                            || ((c == 8233) || ((c == 8239) || ((c == 8287) || (c == 12288))))))))))

-- `str.lstrip`
unfoldable pub lstrip : Text → Text
lstrip [] = []
lstrip (c ∷ s) = let rest = lstrip s in if is_space c then rest else c ∷ s

-- `str.strip`
unfoldable pub strip : Text → Text
strip s = reverse (lstrip (reverse (lstrip s)))

-- `str.lower`, on the letters of ASCII; other characters stay.
abbrev pub lower_char : ℕ → ℕ
lower_char c = if leb 65 c && leb c 90 then c + 32 else c

abbrev pub lower : Text → Text
lower = map lower_char

-- `str.startswith`
abbrev pub startswith : Text → Text → Bool
startswith s [] = true
startswith [] (p ∷ ps) = false
startswith (c ∷ s) (p ∷ ps) = (c == p) && startswith s ps

-- `part in s`
abbrev pub contains : Text → Text → Bool
contains [] part = startswith [] part
contains (c ∷ s) part = startswith (c ∷ s) part || contains s part

-- `ch in s`, for a single character
abbrev pub has_char : ℕ → Text → Bool
has_char ch = any (λ c. c == ch)

-- `str` of a number, with a digit for each round; n + 1 rounds are enough for n.
unfoldable pub decimal_from : ℕ → ℕ → Text → Text
decimal_from zero n digits = digits
decimal_from (suc fuel) n digits =
    let rest = decimal_from fuel (n / 10) ((48 + n % 10) ∷ digits) in
    if ltb n 10 then (48 + n) ∷ digits else rest

unfoldable pub decimal : ℕ → Text
unfolding decimal_from
decimal n = decimal_from (suc n) n []
