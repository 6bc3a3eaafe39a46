-- ===== src/Prelude/Text/Split.antt =====
-- Texts around the first occurrence of a character, and the digits of a number.
use Prim.Native.Nat.{◌/◌, ◌%◌}
use mathlib.Core.Path.{◌≡◌, refl, ap, sym, ◌∙◌}
use mathlib.Core.Bool.{Bool, true, false}
use mathlib.Core.List.{[], ◌∷◌, ◌++◌}
use native.Mathlib.Omega.{arith}
use Prim.Native.Nat.{ℕ, zero, suc, ◌+◌, ◌*◌, ◌-◌, ◌<◌}
use cobalt_wren.Prelude.Tests.{ltb, if◌then◌else◌, ltb→lt}
use cobalt_wren.Prelude.Equality.{nat_eq}
use cobalt_wren.Prelude.Lists.{all}
use cobalt_wren.Prelude.Text.{Text, has_char, decimal, decimal_from}

uncons : (c d : ℕ) (s t : Text) → ◌≡◌ {A = Text} (c ∷ s) (d ∷ t) → (c ≡ d) × (s ≡ t)
uncons c d s t e = (cc, cc)

-- A text without the character is determined by what stands before it, and so is the rest.
module _ (ch : ℕ) where
  beyond_head : (c : ℕ) (s : Text) → has_char ch (c ∷ s) ≡ false → has_char ch s ≡ false
  beyond_head c s h = ground (arith, h)

  not_head : (c : ℕ) (s : Text) → has_char ch (c ∷ s) ≡ false → c ≡ ch → ⊥
  not_head c s h e = ground (arith, h, e)

  pub split-injective :
      (n m x y : Text)
      → has_char ch n ≡ false
      → has_char ch m ≡ false
      → n ++ (ch ∷ x) ≡ m ++ (ch ∷ y)
      → (n ≡ m) × (x ≡ y)
  split-injective [] [] x y h k e = (refl, (uncons ch ch x y e).1)
  split-injective [] (d ∷ m) x y h k e =
      absurd (not_head d m k (sym ((uncons ch d x (m ++ (ch ∷ y)) e).0)))
  split-injective (c ∷ n) [] x y h k e =
      absurd (not_head c n h ((uncons c ch (n ++ (ch ∷ x)) y e).0))
  split-injective (c ∷ n) (d ∷ m) x y h k e =
      both (uncons c d (n ++ (ch ∷ x)) (m ++ (ch ∷ y)) e)
        (split-injective n m x y (beyond_head c n h) (beyond_head d m k))
    where
      both :
          (c ≡ d) × (n ++ (ch ∷ x) ≡ m ++ (ch ∷ y))
          → (n ++ (ch ∷ x) ≡ m ++ (ch ∷ y) → (n ≡ m) × (x ≡ y))
          → ◌≡◌ {A = Text} (c ∷ n) (d ∷ m) × (x ≡ y)
      both (p, q) rest = (rw p (ap (λ s. d ∷ s) ((rest q).0)), (rest q).1)

  pub split-absent : (n m x : Text) → has_char ch n ≡ false → n ≡ m ++ (ch ∷ x) → ⊥
  split-absent [] [] x h e = ground (arith, e)
  split-absent [] (d ∷ m) x h e = ground (arith, e)
  split-absent (c ∷ n) [] x h e = not_head c n h ((uncons c ch n x e).0)
  split-absent (c ∷ n) (d ∷ m) x h e =
      split-absent n m x (beyond_head c n h) ((uncons c d n (m ++ (ch ∷ x)) e).1)

-- The number whose digits follow those of `n`.
read_digits : Text → ℕ → ℕ
read_digits [] n = n
read_digits (c ∷ s) n = read_digits s (n * 10 + (c - 48))

read_digits-decimal_from :
    (fuel n : ℕ) (digits : Text)
    → n < fuel
    → read_digits (decimal_from fuel n digits) 0 ≡ read_digits digits n
unfolding read_digits decimal_from
read_digits-decimal_from zero n digits h = absurd (omega arith)
read_digits-decimal_from (suc fuel) n digits h =
    by_size (ltb n 10) refl (read_digits-decimal_from fuel (n / 10) ((48 + n % 10) ∷ digits))
  where
    by_size :
        (b : Bool)
        → ltb n 10 ≡ b
        → (n / 10 < fuel
            → read_digits (decimal_from fuel (n / 10) ((48 + n % 10) ∷ digits)) 0
              ≡ read_digits ((48 + n % 10) ∷ digits) (n / 10))
        → read_digits
            (if b then (48 + n) ∷ digits else decimal_from fuel (n / 10) ((48 + n % 10) ∷ digits))
            0
          ≡ read_digits digits n
    by_size true e rest = ap (read_digits digits) (omega arith)
    by_size false e rest = rest (ground (arith, e)) ∙ ap (read_digits digits) (omega arith)

pub decimal-injective : (n m : ℕ) → decimal n ≡ decimal m → n ≡ m
unfolding decimal read_digits
decimal-injective n m e =
    sym (read_digits-decimal_from (suc n) n [] (omega arith))
    ∙ (ap (λ s. read_digits s 0) e ∙ read_digits-decimal_from (suc m) m [] (omega arith))

-- A test that the ten digits pass is passed by the digits of a number.
module _ (p : ℕ → Bool) (digit : (d : ℕ) → d < 10 → p (48 + d) ≡ true) where
  all-decimal_from :
      (fuel n : ℕ) (digits : Text) → all p digits ≡ true → all p (decimal_from fuel n digits) ≡ true
  unfolding decimal_from
  all-decimal_from zero n digits h = h
  all-decimal_from (suc fuel) n digits h =
      by_size (ltb n 10) refl (
        all-decimal_from fuel (n / 10) ((48 + n % 10) ∷ digits)
          (cons_passes (n % 10) (omega arith)))
    where
      cons_passes : (d : ℕ) → d < 10 → all p ((48 + d) ∷ digits) ≡ true
      cons_passes d below = rw (digit d below) h

      by_size :
          (b : Bool)
          → ltb n 10 ≡ b
          → all p (decimal_from fuel (n / 10) ((48 + n % 10) ∷ digits)) ≡ true
          → all p
              (if b then (48 + n) ∷ digits else decimal_from fuel (n / 10) ((48 + n % 10) ∷ digits))
            ≡ true
      by_size true e rest = cons_passes n (ltb→lt n 10 e)
      by_size false e rest = rest

  pub all-decimal : (n : ℕ) → all p (decimal n) ≡ true
  unfolding decimal
  all-decimal n = all-decimal_from (suc n) n [] refl
