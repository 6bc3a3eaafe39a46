-- ===== src/Prelude/Text/Strip.antt =====
-- Laws of `str.strip` and `str.lower`.
use Prim.Native.Nat.{ℕ}
use mathlib.Core.Path.{◌≡◌, refl}
use mathlib.Core.Bool.{Bool, true, false}
use mathlib.Core.List.{
  [], ◌∷◌, ◌++◌, reverse, reverse-append, reverse-reverse, reverse-cons, map-append,
}
use native.Mathlib.Omega.{arith}
use cobalt_wren.Prelude.Tests.{if◌then◌else◌}
use cobalt_wren.Prelude.Text.{Text, is_space, lstrip, strip, lower, lower_char}

lstrip-lstrip : (s : Text) → lstrip (lstrip s) ≡ lstrip s
unfolding lstrip
lstrip-lstrip [] = refl
lstrip-lstrip (c ∷ s) = split (is_space c) refl (lstrip-lstrip s)
  where
    split :
        (b : Bool)
        → is_space c ≡ b
        → lstrip (lstrip s) ≡ lstrip s
        → lstrip (if b then lstrip s else c ∷ s) ≡ (if b then lstrip s else c ∷ s)
    split true e ih = ih
    split false e ih = rw e

lstrip_snoc : (u : Text) (c : ℕ) → is_space c ≡ false → lstrip (u ++ c ∷ []) ≡ lstrip u ++ c ∷ []
unfolding lstrip
lstrip_snoc [] c h = rw h
lstrip_snoc (d ∷ u) c h = split (is_space d) (lstrip_snoc u c h)
  where
    split :
        (b : Bool)
        → lstrip (u ++ c ∷ []) ≡ lstrip u ++ c ∷ []
        → (if b then lstrip (u ++ c ∷ []) else d ∷ (u ++ c ∷ []))
          ≡ (if b then lstrip u else d ∷ u) ++ c ∷ []
    split true ih = ih
    split false ih = refl

strip_cons :
    (c : ℕ) (t : Text)
    → is_space c ≡ false
    → reverse (lstrip (reverse (c ∷ t))) ≡ c ∷ reverse (lstrip (reverse t))
strip_cons c t h =
    rw (reverse-cons c t)
      (rw (lstrip_snoc (reverse t) c h) (rw (reverse-append (lstrip (reverse t)) (c ∷ []))))

lstrip_head : (s : Text) (c : ℕ) (t : Text) → lstrip s ≡ c ∷ t → is_space c ≡ false
unfolding lstrip
lstrip_head [] c t h = cc
lstrip_head (d ∷ s) c t h = split (is_space d) refl (lstrip_head s c t) h
  where
    split :
        (b : Bool)
        → is_space d ≡ b
        → (lstrip s ≡ c ∷ t → is_space c ≡ false)
        → (if b then lstrip s else d ∷ s) ≡ c ∷ t
        → is_space c ≡ false
    split true e ih k = ih k
    split false e ih k = cc

lstrip_stop : (c : ℕ) (t : Text) → is_space c ≡ false → lstrip (c ∷ t) ≡ c ∷ t
unfolding lstrip
lstrip_stop c t h = rw h

empty_twice :
    reverse (lstrip (reverse (lstrip (reverse (lstrip (reverse []))))))
    ≡ reverse (lstrip (reverse []))
unfolding lstrip
empty_twice = refl

-- Stripping twice is stripping once.
pub strip-strip : (s : Text) → strip (strip s) ≡ strip s
unfolding strip
strip-strip s = by_head (lstrip s) refl
  where
    by_head :
        (t : Text)
        → lstrip s ≡ t
        → reverse (lstrip (reverse (lstrip (reverse (lstrip (reverse t))))))
          ≡ reverse (lstrip (reverse t))
    by_head [] e = empty_twice
    by_head (c ∷ t) e =
        let h = lstrip_head s c t e in
        rw (strip_cons c t h) (
          rw (lstrip_stop c _ h) (
            rw (strip_cons c (reverse (lstrip (reverse t))) h)
              (rw (reverse-reverse (lstrip (reverse t))) (rw (lstrip-lstrip (reverse t))))))

lower_char_space : (c : ℕ) → is_space (lower_char c) ≡ is_space c
lower_char_space c = ground arith

lstrip-lower : (s : Text) → lstrip (lower s) ≡ lower (lstrip s)
unfolding lstrip
lstrip-lower [] = refl
lstrip-lower (c ∷ s) = rw (lower_char_space c) (split (is_space c) (lstrip-lower s))
  where
    split :
        (b : Bool)
        → lstrip (lower s) ≡ lower (lstrip s)
        → (if b then lstrip (lower s) else lower (c ∷ s)) ≡ lower (if b then lstrip s else c ∷ s)
    split true ih = ih
    split false ih = refl

reverse-lower : (s : Text) → reverse (lower s) ≡ lower (reverse s)
reverse-lower [] = refl
reverse-lower (c ∷ s) =
    rw (reverse-cons (lower_char c) (lower s))
      (rw (reverse-lower s) (rw (reverse-cons c s) (rw map-append)))

pub strip-lower : (s : Text) → strip (lower s) ≡ lower (strip s)
unfolding strip
strip-lower s = simp (lstrip-lower, reverse-lower)

pub lower-lower : (s : Text) → lower (lower s) ≡ lower s
lower-lower [] = refl
lower-lower (c ∷ s) = ground (arith, lower-lower s)
