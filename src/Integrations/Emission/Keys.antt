-- ===== src/Integrations/Emission/Keys.antt =====
-- Storage keys of emitted artifacts, integrations/artifact/emission.py.
use cobalt_wren.Prelude.{
  ℕ, Bool, true, false, not, ◌&&◌, ◌||◌, Option, none, some, [], ◌∷◌, ◌++◌, ltb, length, all,
  if◌then◌else◌, ◌≡◌, refl, sym, ap, ◌∙◌, subst, arith,
}
use mathlib.Core.List.{append-nil}
use cobalt_wren.Prelude.Equality.{◌==◌, nat_eq, list_eq, list_beq_iff}
use cobalt_wren.Prelude.Int.{pos}
use cobalt_wren.Prelude.Result.{Result, ok, err, on_ok, ok-injective}
use cobalt_wren.Prelude.Text.{Text, strip, lower, has_char, decimal}
use cobalt_wren.Prelude.Text.Split.{split-injective, split-absent, decimal-injective, all-decimal}
use cobalt_wren.Core.Value.{int}
use cobalt_wren.Integrations.ArtifactKeys.{
  validate_storage_key, is_safe_storage_key, unsafe_artifact_storage_key,
}
use cobalt_wren.Integrations.Emission.{
  EmissionError, emission_invalid_slot, emission_invalid_occurrence, emission_invalid_run_id,
  emission_unsafe_key, max_run_id, normalize_emission_run_id, is_label_end, is_label_char,
  is_logical_identifier, normalize_label, max_label_length, ArtifactIdentity, normalize_occurrence,
  artifact_identity, is_unreserved, quote, occurrence_part, joined_key, build_artifact_storage_key,
}

first_of : (a b : Bool) → (a && b) ≡ true → a ≡ true
first_of true b h = refl
first_of false b h = h

second_of : (a b : Bool) → (a && b) ≡ true → b ≡ true
second_of true b h = h
second_of false b h = absurd (ground (arith, h))

unreserved_label : (c : ℕ) → is_label_char c ≡ true → is_unreserved c ≡ true
unreserved_label c h = ground arith

label_no_slash : (c : ℕ) → is_label_char c ≡ true → (c == 47) ≡ false
label_no_slash c h = ground arith

-- Characters of labels are quoted as themselves.
quote_label : (s : Text) → all is_label_char s ≡ true → quote s ≡ s
unfolding quote
quote_label [] h = refl
quote_label (c ∷ s) h =
    rw (unreserved_label c (first_of (is_label_char c) _ h))
      (ap (λ t. c ∷ t) (quote_label s (second_of (is_label_char c) _ h)))

no_slash : (s : Text) → all is_label_char s ≡ true → has_char 47 s ≡ false
no_slash [] h = refl
no_slash (c ∷ s) h =
    rw (label_no_slash c (first_of (is_label_char c) _ h))
      (no_slash s (second_of (is_label_char c) _ h))

decimal_label : (n : ℕ) → all is_label_char (decimal n) ≡ true
decimal_label n = all-decimal is_label_char (λ d below. ground arith) n

logical_label : (s : Text) → is_logical_identifier s ≡ true → all is_label_char s ≡ true
unfolding is_logical_identifier
logical_label [] h = refl
logical_label (c ∷ s) h = first_of (all is_label_char (c ∷ s)) _ (second_of (is_label_end c) _ h)

-- A label that was normalized is unchanged, and of the characters of labels.
normalized_label :
    (error : EmissionError) (max_length : ℕ) (value label : Text)
    → normalize_label error max_length value ≡ ok label
    → (label ≡ value) × (all is_label_char value ≡ true)
unfolding normalize_label
normalized_label error max_length value label h =
    by_tests (value == strip value)
      ((value == []) || (ltb max_length (length value) || has_char 0 value)) (lower value == value)
      (is_logical_identifier (lower value)) refl refl h
  where
    by_tests :
        (a b c d : Bool)
        → (lower value == value) ≡ c
        → is_logical_identifier (lower value) ≡ d
        → (if not a
            then err error
            else if b
            then err error
            else if not c || not d
            then err error
            else ok (lower value))
          ≡ ok label
        → (label ≡ value) × (all is_label_char value ≡ true)
    by_tests false b c d e f k = absurd (ground (arith, k))
    by_tests true true c d e f k = absurd (ground (arith, k))
    by_tests true false false d e f k = absurd (ground (arith, k))
    by_tests true false true false e f k = absurd (ground (arith, k))
    by_tests true false true true e f k = (
      sym (ok-injective k) ∙ unchanged,
      subst (λ t. all is_label_char t ≡ true) unchanged (logical_label (lower value) f),
    )
      where
        unchanged : lower value ≡ value
        unchanged = (list_beq_iff (lower value) value).0 e

normalized_run_id : (n r : ℕ) → normalize_emission_run_id (int (pos n)) ≡ ok r → r ≡ n
unfolding normalize_emission_run_id
normalized_run_id n r h = by_test ((n == 0) || ltb max_run_id n) h
  where
    by_test : (b : Bool) → (if b then err emission_invalid_run_id else ok n) ≡ ok r → r ≡ n
    by_test true k = absurd (ground (arith, k))
    by_test false k = sym (ok-injective k)

-- The occurrence, if there is one, is of the characters of labels.
IsLabelled : Option Text → Type 0
IsLabelled none = Unit
IsLabelled (some t) = all is_label_char t ≡ true

normalized_occurrence :
    (o which : Option Text) → normalize_occurrence o ≡ ok which → (which ≡ o) × IsLabelled o
unfolding IsLabelled
normalized_occurrence none which h = (sym (ok-injective h), tt)
normalized_occurrence (some value) which h =
    on_ok (normalize_label emission_invalid_occurrence max_label_length value) _ h λ label e k. (
      sym (ok-injective k)
          ∙ ap some
              ((normalized_label emission_invalid_occurrence max_label_length value label e).0),
      (normalized_label emission_invalid_occurrence max_label_length value label e).1,
    )

equal_identity :
    (i : ArtifactIdentity) (run : ℕ) (label : Text) (which : Option Text)
    → run ≡ i.run_id
    → label ≡ i.slot
    → which ≡ i.occurrence
    → record { run_id = run; slot = label; occurrence = which } ≡ i
equal_identity i run label which p q r = rw p (rw q (rw r refl))

-- An identity that is made again from its parts is the same.
made_again :
    (i again : ArtifactIdentity)
    → artifact_identity (int (pos i.run_id)) i.slot i.occurrence ≡ ok again
    → (again ≡ i) × ((all is_label_char i.slot ≡ true) × IsLabelled i.occurrence)
unfolding artifact_identity
made_again i again h = on_ok (normalize_emission_run_id (int (pos i.run_id))) _ h λ run e1 h1.
    on_ok (normalize_label emission_invalid_slot max_label_length i.slot) _ h1 λ label e2 h2.
      on_ok (normalize_occurrence i.occurrence) _ h2 λ which e3 h3. (
        sym (ok-injective h3)
            ∙ equal_identity i run label which (normalized_run_id i.run_id run e1)
                ((normalized_label emission_invalid_slot max_label_length i.slot label e2).0)
                ((normalized_occurrence i.occurrence which e3).0),
        (
          (normalized_label emission_invalid_slot max_label_length i.slot label e2).1,
          (normalized_occurrence i.occurrence which e3).1,
        ),
      )

-- What follows the fixed part of a key.
beyond_prefix : Text → Text
beyond_prefix (_ ∷ _ ∷ _ ∷ _ ∷ _ ∷ _ ∷ _ ∷ _ ∷ _ ∷ _ ∷ _ ∷ _ ∷ s) = s
beyond_prefix s = s

-- A slot and an occurrence are read back from their part of a key.
labels_back :
    (s t : Text) (o p : Option Text)
    → all is_label_char s ≡ true
    → all is_label_char t ≡ true
    → IsLabelled o
    → IsLabelled p
    → s ++ occurrence_part o ≡ t ++ occurrence_part p
    → (s ≡ t) × (o ≡ p)
unfolding IsLabelled
labels_back s t none none hs ht ho hp e = (sym (append-nil s) ∙ (e ∙ append-nil t), refl)
labels_back s t none (some l) hs ht ho hp e =
    absurd (split-absent 47 s t (quote l) (no_slash s hs) (sym (append-nil s) ∙ e))
labels_back s t (some k) none hs ht ho hp e =
    absurd (split-absent 47 t s (quote k) (no_slash t ht) (sym (append-nil t) ∙ sym e))
labels_back s t (some k) (some l) hs ht ho hp e =
    both (split-injective 47 s t (quote k) (quote l) (no_slash s hs) (no_slash t ht) e)
  where
    both : (s ≡ t) × (quote k ≡ quote l) → (s ≡ t) × (some k ≡ some l)
    both (q, r) = (q, ap some (sym (quote_label k ho) ∙ (r ∙ quote_label l hp)))

-- The key of an identity with its labels unquoted.
joined_plain :
    (i : ArtifactIdentity)
    → all is_label_char i.slot ≡ true
    → beyond_prefix (joined_key i)
      ≡ decimal i.run_id ++ (47 ∷ (i.slot ++ occurrence_part i.occurrence))
unfolding joined_key beyond_prefix
joined_plain i h =
    rw (quote_label (decimal i.run_id) (decimal_label i.run_id)) (rw (quote_label i.slot h) refl)

-- The key that is built is the joined one, of an identity whose labels are normalized.
built_key :
    (i : ArtifactIdentity) (key : Text)
    → build_artifact_storage_key i ≡ ok key
    → (joined_key i ≡ key) × ((all is_label_char i.slot ≡ true) × IsLabelled i.occurrence)
unfolding build_artifact_storage_key validate_storage_key
built_key i key h =
    on_ok (artifact_identity (int (pos i.run_id)) i.slot i.occurrence) _ h λ again e k. (
      ap joined_key (sym ((made_again i again e).0))
          ∙ by_safety (joined_key again) (is_safe_storage_key (joined_key again)) k,
      (made_again i again e).1,
    )
  where
    by_safety :
        (joined : Text) (b : Bool)
        → (elim (if b then ok joined else err unsafe_artifact_storage_key)
            as (λ r. Result EmissionError Text) [ ok k ↦ ok k | err e ↦ err emission_unsafe_key ])
          ≡ ok key
        → joined ≡ key
    by_safety joined true k = ok-injective k
    by_safety joined false k = absurd (ground (arith, k))

-- Two identities that get the same storage key are the same: artifacts of different runs, slots or
-- occurrences never share a key.
pub build_artifact_storage_key-injective :
    (i j : ArtifactIdentity) (key : Text)
    → build_artifact_storage_key i ≡ ok key
    → build_artifact_storage_key j ≡ ok key
    → i ≡ j
build_artifact_storage_key-injective i j key h k = by_parts (built_key i key h) (built_key j key k)
  where
    by_parts :
        (joined_key i ≡ key) × ((all is_label_char i.slot ≡ true) × IsLabelled i.occurrence)
        → (joined_key j ≡ key) × ((all is_label_char j.slot ≡ true) × IsLabelled j.occurrence)
        → i ≡ j
    by_parts (e, (si, oi)) (f, (sj, oj)) = by_split (
        split-injective 47 (decimal i.run_id) (decimal j.run_id) _ _
          (no_slash (decimal i.run_id) (decimal_label i.run_id))
          (no_slash (decimal j.run_id) (decimal_label j.run_id))
          (sym (joined_plain i si) ∙ (ap beyond_prefix (e ∙ sym f) ∙ joined_plain j sj)))
      where
        by_split :
            (decimal i.run_id ≡ decimal j.run_id)
              × (i.slot ++ occurrence_part i.occurrence ≡ j.slot ++ occurrence_part j.occurrence)
            → i ≡ j
        by_split (p, q) =
            let labels = labels_back i.slot j.slot i.occurrence j.occurrence si sj oi oj q in
            equal_identity j i.run_id i.slot i.occurrence (decimal-injective i.run_id j.run_id p)
              labels.0 labels.1
