-- ===== src/Core/Redaction/Sensitive.antt =====
-- Which keys `is_sensitive_key` of core/redaction.py has to find.
use cobalt_wren.Prelude.{
  ℕ, ◌+◌, ◌≤◌, Bool, true, false, ◌||◌, List, [], ◌∷◌, ◌++◌, any, ◌≡◌, refl, ◌⊎◌, inl, inr, arith,
}
use cobalt_wren.Prelude.Equality.{nat_eq}
use cobalt_wren.Prelude.Text.{Text, codes, lower, lower_char, startswith, contains}
use cobalt_wren.Core.Redaction.{is_sensitive_key}

-- The words that make a key sensitive.
abbrev pub sensitive_words : List Text
sensitive_words =
    codes "secret"
    ∷ codes "token"
    ∷ codes "api_key"
    ∷ codes "apikey"
    ∷ codes "password"
    ∷ codes "authorization"
    ∷ codes "access_token"
    ∷ codes "refresh_token"
    ∷ codes "credential"
    ∷ codes "credentials"
    ∷ codes "private_key"
    ∷ codes "path"
    ∷ codes "file_path"
    ∷ codes "absolute_path"
    ∷ []

-- A character of a word: itself, or its capital.
abbrev pub IsLetter : ℕ → ℕ → Type 0
IsLetter c d = ((c ≡ d) × (91 ≤ d)) ⊎ ((c + 32 ≡ d) × (97 ≤ d) × (d ≤ 122))

-- The text spells the word, in small or in capital letters.
abbrev pub Spells : Text → Text → Type 0
Spells [] [] = Unit
Spells (c ∷ cs) (d ∷ ds) = IsLetter c d × Spells cs ds
Spells _ _ = ⊥

pub data IsOneOf (word : Text) : List Text → Type 0 where
  here : {words : List Text} → IsOneOf word (word ∷ words)
  there : {other : Text} {words : List Text} → IsOneOf word words → IsOneOf word (other ∷ words)

-- The key has one of the words in it.
pub data IsSensitive : Text → Type 0 where
  mentions :
      (left middle right word : Text)
      → Spells middle word
      → IsOneOf word sensitive_words
      → IsSensitive (left ++ (middle ++ right))

lower_letter : (c d : ℕ) → IsLetter c d → lower_char c ≡ d
lower_letter c d (inl (e, h)) = ground arith
lower_letter c d (inr (e, low, high)) = ground arith

spelled_first :
    (middle right word : Text)
    → Spells middle word
    → startswith (lower (middle ++ right)) word ≡ true
spelled_first [] [] [] s = refl
spelled_first [] (r ∷ right) [] s = refl
spelled_first [] right (d ∷ ds) s = absurd s
spelled_first (c ∷ cs) right [] s = absurd s
spelled_first (c ∷ cs) right (d ∷ ds) (letter, s) =
    ground
      (arith, nat_eq.beq_iff (lower_char c) d, lower_letter c d letter, spelled_first cs right ds s)

contains_first : (s part : Text) → startswith s part ≡ true → contains s part ≡ true
contains_first [] part h = h
contains_first (c ∷ s) part h = rw h refl

contains_later :
    (left s part : Text) → contains (lower s) part ≡ true → contains (lower (left ++ s)) part ≡ true
contains_later [] s part h = h
contains_later (c ∷ left) s part h =
    later (startswith (lower (c ∷ (left ++ s))) part) (contains_later left s part h)
  where
    later : {b : Bool} (a : Bool) → b ≡ true → (a || b) ≡ true
    later true h = refl
    later false h = h

any-IsOneOf :
    (f : Text → Bool) (word : Text) (words : List Text)
    → IsOneOf word words
    → f word ≡ true
    → any f words ≡ true
any-IsOneOf f word [] one h = elim one [ ]
any-IsOneOf f _ (word ∷ words) here h = rw h refl
any-IsOneOf f word (other ∷ words) (there o) h = later (f other) (any-IsOneOf f word words o h)
  where
    later : {b : Bool} (a : Bool) → b ≡ true → (a || b) ≡ true
    later true h = refl
    later false h = h

-- A key with one of the words in it, in any case, is found.
pub is_sensitive_key-IsSensitive : (key : Text) → IsSensitive key → is_sensitive_key key ≡ true
unfolding is_sensitive_key
is_sensitive_key-IsSensitive _ (mentions left middle right word spelled one) =
    any-IsOneOf (contains (lower (left ++ (middle ++ right)))) word sensitive_words one (
      contains_later left (middle ++ right) word
        (contains_first (lower (middle ++ right)) word (spelled_first middle right word spelled)))
