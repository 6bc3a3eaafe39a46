-- ===== src/Native/Names/Identity.antt =====
-- Which calls of a step share an occurrence, native/__init__.py.
use cobalt_wren.Prelude.{
  Bool, true, false, Option, none, some, if◌then◌else◌, ◌≡◌, refl, sym, arith, ◌∙◌, ap,
}
use cobalt_wren.Prelude.Equality.{nat_eq}
use cobalt_wren.Prelude.Result.{Result, ok, err, ok-injective}
use cobalt_wren.Prelude.Text.{Text, strip, has_char}
use cobalt_wren.Prelude.Text.Split.{split-injective, split-absent}
use cobalt_wren.Native.Names.{
  NameError, occurrence_key_unsafe, keyed, is_occurrence_key, occurrence_identity,
}

keyed_subject :
    (name key subject : Text)
    → (if is_occurrence_key key then ok (keyed name key) else err occurrence_key_unsafe)
      ≡ ok subject
    → ◌≡◌ {A = Result NameError Text} (ok (keyed name key)) (ok subject)
keyed_subject name key subject e = by_test (is_occurrence_key key) e
  where
    by_test :
        (b : Bool)
        → (if b then ok (keyed name key) else err occurrence_key_unsafe) ≡ ok subject
        → ◌≡◌ {A = Result NameError Text} (ok (keyed name key)) (ok subject)
    by_test true e = e
    by_test false e = absurd (ground (arith, e))

-- The key that counts.
abbrev pub stripped : Option Text → Option Text
stripped none = none
stripped (some key) = some (strip key)

-- Two calls whose keys are accepted share an occurrence only if they agree in the name, and in the
-- stripped key or in having no key, if neither name has a colon.
pub occurrence_identity-injective :
    (name other : Text) (key their_key : Option Text) (subject : Text)
    → has_char 58 name ≡ false
    → has_char 58 other ≡ false
    → occurrence_identity name key ≡ ok subject
    → occurrence_identity other their_key ≡ ok subject
    → (name ≡ other) × (stripped key ≡ stripped their_key)
unfolding occurrence_identity
occurrence_identity-injective name other none none subject h k e f = (names e f, refl)
  where
    names :
        ◌≡◌ {A = Result NameError Text} (ok name) (ok subject)
        → ◌≡◌ {A = Result NameError Text} (ok other) (ok subject)
        → name ≡ other
    names e f = cc
occurrence_identity-injective name other none (some key) subject h k e f = absurd (
    split-absent 58 name other (strip key) h
      (ok-injective (e ∙ sym (keyed_subject other (strip key) subject f))))
occurrence_identity-injective name other (some key) none subject h k e f = absurd (
    split-absent 58 other name (strip key) k
      (ok-injective (f ∙ sym (keyed_subject name (strip key) subject e))))
occurrence_identity-injective name other (some key) (some their_key) subject h k e f = by_parts (
    split-injective 58 name other (strip key) (strip their_key) h k (
      ok-injective (
        keyed_subject name (strip key) subject e
        ∙ sym (keyed_subject other (strip their_key) subject f))))
  where
    by_parts :
        (name ≡ other) × (strip key ≡ strip their_key)
        → (name ≡ other) × (some (strip key) ≡ some (strip their_key))
    by_parts (p, q) = (p, ap some q)
