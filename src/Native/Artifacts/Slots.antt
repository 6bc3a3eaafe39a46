-- ===== src/Native/Artifacts/Slots.antt =====
-- The slots that native/helpers.py makes of names, as integrations/artifact/emission.py takes them.
use cobalt_wren.Prelude.{
  ℕ, Bool, true, false, not, ◌&&◌, ◌||◌, [], ◌∷◌, ◌++◌, leb, ltb, length, all, last?, last?-snoc,
  if◌then◌else◌, ◌≡◌, refl, sym, ap, ◌∙◌, subst, arith,
}
use mathlib.Core.List.{reverse, reverse-append, reverse-reverse, reverse-cons}
use cobalt_wren.Prelude.Equality.{◌==◌, nat_eq, list_eq, list_beq_iff}
use cobalt_wren.Prelude.Result.{Result, ok, err}
use cobalt_wren.Prelude.Text.{Text, strip, lstrip, lower, lower_char, has_char, is_space}
use cobalt_wren.Integrations.Emission.{
  EmissionError, is_label_end, is_label_char, ends_well, is_logical_identifier, normalize_label,
}
use cobalt_wren.Native.Artifacts.{
  is_slot_char, dashed, lstrip_dashes, strip_dashes, or_artifact, artifact_slot, stem,
}

-- All characters are of labels.
abbrev Labels : Text → Type 0
Labels s = all is_label_char s ≡ true

Labels-cons : (c : ℕ) (s : Text) → Labels (c ∷ s) → (is_label_char c ≡ true) × Labels s
Labels-cons c s h = by_first (is_label_char c) h
  where
    by_first : (b : Bool) → (b && all is_label_char s) ≡ true → (b ≡ true) × Labels s
    by_first true k = (refl, k)
    by_first false k = absurd (ground (arith, k))

Labels-append : (s t : Text) → Labels s → Labels t → Labels (s ++ t)
Labels-append [] t h k = k
Labels-append (c ∷ s) t h k =
    rw ((Labels-cons c s h).0) (Labels-append s t ((Labels-cons c s h).1) k)

Labels-reverse : (s : Text) → Labels s → Labels (reverse s)
Labels-reverse [] h = h
Labels-reverse (c ∷ s) h = subst Labels (sym (reverse-cons c s)) (
    Labels-append (reverse s) (c ∷ []) (Labels-reverse s ((Labels-cons c s h).1))
      (rw ((Labels-cons c s h).0) refl))

dashed-Labels : (run : Bool) (s : Text) → Labels (dashed run s)
unfolding dashed
dashed-Labels run [] = refl
dashed-Labels run (c ∷ s) =
    by_char (is_slot_char c) refl run (dashed-Labels false s) (dashed-Labels true s)
  where
    by_char :
        (b : Bool)
        → is_slot_char c ≡ b
        → (run : Bool) → Labels (dashed false s)
        → Labels (dashed true s)
        → Labels
            (if b then c ∷ dashed false s else if run then dashed true s else 45 ∷ dashed true s)
    by_char true e run h k = rw (slot_label e) h
      where
        slot_label : is_slot_char c ≡ true → is_label_char c ≡ true
        slot_label e = ground arith
    by_char false e true h k = k
    by_char false e false h k = k

lstrip_dashes-Labels : (s : Text) → Labels s → Labels (lstrip_dashes s)
unfolding lstrip_dashes
lstrip_dashes-Labels [] h = h
lstrip_dashes-Labels (c ∷ s) h = by_dash (c == 45) (lstrip_dashes-Labels s ((Labels-cons c s h).1))
  where
    by_dash : (b : Bool) → Labels (lstrip_dashes s) → Labels (if b then lstrip_dashes s else c ∷ s)
    by_dash true k = k
    by_dash false k = h

-- What is left of the dashes is empty or begins with another character.
BeginsWell : Text → Type 0
BeginsWell [] = Unit
BeginsWell (c ∷ s) = (c == 45) ≡ false

lstrip_dashes-BeginsWell : (s : Text) → BeginsWell (lstrip_dashes s)
unfolding lstrip_dashes BeginsWell
lstrip_dashes-BeginsWell [] = tt
lstrip_dashes-BeginsWell (c ∷ s) = by_dash (c == 45) refl (lstrip_dashes-BeginsWell s)
  where
    by_dash :
        (b : Bool)
        → (c == 45) ≡ b
        → BeginsWell (lstrip_dashes s)
        → BeginsWell (if b then lstrip_dashes s else c ∷ s)
    by_dash true e k = k
    by_dash false e k = e

lstrip_dashes_snoc :
    (s : Text) (c : ℕ)
    → (c == 45) ≡ false
    → lstrip_dashes (s ++ (c ∷ [])) ≡ lstrip_dashes s ++ (c ∷ [])
unfolding lstrip_dashes
lstrip_dashes_snoc [] c h = rw h refl
lstrip_dashes_snoc (d ∷ s) c h = by_dash (d == 45) (lstrip_dashes_snoc s c h)
  where
    by_dash :
        (b : Bool)
        → lstrip_dashes (s ++ (c ∷ [])) ≡ lstrip_dashes s ++ (c ∷ [])
        → (if b then lstrip_dashes (s ++ (c ∷ [])) else d ∷ (s ++ (c ∷ [])))
          ≡ (if b then lstrip_dashes s else d ∷ s) ++ (c ∷ [])
    by_dash true k = k
    by_dash false k = refl

label_end : (c : ℕ) → is_label_char c ≡ true → (c == 45) ≡ false → is_label_end c ≡ true
label_end c h k = ground arith

all_three : (a b d : Bool) → a ≡ true → b ≡ true → d ≡ true → (a && (b && d)) ≡ true
all_three a b d h k l = rw h (rw k l)

logical_of :
    (s : Text) (c : ℕ) (r : Text)
    → s ≡ c ∷ r
    → is_label_end c ≡ true
    → Labels s
    → ends_well (last? s) ≡ true
    → is_logical_identifier s ≡ true
unfolding is_logical_identifier
logical_of [] c r e h k l = absurd (ground (arith, e))
logical_of (d ∷ s) c r e h k l =
    all_three (is_label_end d) (all is_label_char (d ∷ s)) (ends_well (last? (d ∷ s)))
      (subst (λ x. is_label_end x ≡ true) (same_head e) h) k l
  where
    same_head : ◌≡◌ {A = Text} (d ∷ s) (c ∷ r) → c ≡ d
    same_head e = cc

reversed_logical :
    (v : Text) (c : ℕ) (r : Text)
    → Labels v
    → BeginsWell v
    → reverse v ≡ c ∷ r
    → is_label_end c ≡ true
    → is_logical_identifier (reverse v) ≡ true
unfolding BeginsWell
reversed_logical [] c r h b e k = absurd (ground (arith, e))
reversed_logical (d ∷ v) c r h b e k =
    logical_of (reverse (d ∷ v)) c r e k (Labels-reverse (d ∷ v) h) (
      subst (λ s. ends_well (last? s) ≡ true) (sym (reverse-cons d v))
        (rw (last?-snoc (reverse v) d) (label_end d ((Labels-cons d v h).0) b)))

-- What is left between dashes is a logical identifier, and nothing left becomes one.
or_artifact-logical :
    (t : Text) → Labels t → is_logical_identifier (or_artifact (strip_dashes t)) ≡ true
unfolding BeginsWell lstrip_dashes is_logical_identifier
or_artifact-logical t h =
    by_left (lstrip_dashes t) (lstrip_dashes-Labels t h) (lstrip_dashes-BeginsWell t)
  where
    named :
        (s : Text) (c : ℕ) (r : Text)
        → s ≡ c ∷ r
        → is_logical_identifier s ≡ true
        → is_logical_identifier (or_artifact s) ≡ true
    named [] c r e k = absurd (ground (arith, e))
    named (d ∷ s) c r e k = k

    by_left :
        (u : Text)
        → Labels u
        → BeginsWell u
        → is_logical_identifier (or_artifact (reverse (lstrip_dashes (reverse u)))) ≡ true
    by_left [] k b = refl
    by_left (c ∷ u) k b = named (reverse v) c (reverse w) shape (
        reversed_logical v c (reverse w)
          (lstrip_dashes-Labels (reverse (c ∷ u)) (Labels-reverse (c ∷ u) k))
          (lstrip_dashes-BeginsWell (reverse (c ∷ u))) shape
          (label_end c ((Labels-cons c u k).0) b))
      where
        v : Text
        v = lstrip_dashes (reverse (c ∷ u))

        w : Text
        w = lstrip_dashes (reverse u)

        shape : reverse v ≡ c ∷ reverse w
        shape =
            ap reverse (ap lstrip_dashes (reverse-cons c u) ∙ lstrip_dashes_snoc (reverse u) c b)
            ∙ reverse-append w (c ∷ [])

-- A label is what the normalization compares it with.
no_space : (c : ℕ) → is_label_char c ≡ true → is_space c ≡ false
no_space c h = ground arith

lstrip_label : (s : Text) → Labels s → lstrip s ≡ s
unfolding lstrip
lstrip_label [] h = refl
lstrip_label (c ∷ s) h = rw (no_space c ((Labels-cons c s h).0)) refl

strip_label : (s : Text) → Labels s → strip s ≡ s
unfolding strip
strip_label s h =
    ap (λ t. reverse (lstrip (reverse t))) (lstrip_label s h)
    ∙ (ap reverse (lstrip_label (reverse s) (Labels-reverse s h)) ∙ reverse-reverse s)

lower_label : (s : Text) → Labels s → lower s ≡ s
lower_label [] h = refl
lower_label (c ∷ s) h =
    rw (small c ((Labels-cons c s h).0)) (ap (λ t. c ∷ t) (lower_label s ((Labels-cons c s h).1)))
  where
    small : (c : ℕ) → is_label_char c ≡ true → lower_char c ≡ c
    small c h = ground arith

no_nul : (s : Text) → Labels s → has_char 0 s ≡ false
no_nul [] h = refl
no_nul (c ∷ s) h = rw (not_nul c ((Labels-cons c s h).0)) (no_nul s ((Labels-cons c s h).1))
  where
    not_nul : (c : ℕ) → is_label_char c ≡ true → (c == 0) ≡ false
    not_nul c h = ground arith

logical-Labels : (s : Text) → is_logical_identifier s ≡ true → Labels s × ((s == []) ≡ false)
unfolding is_logical_identifier
logical-Labels [] h = absurd (ground (arith, h))
logical-Labels (c ∷ s) h = (middle (is_label_end c) (all is_label_char (c ∷ s)) _ h, refl)
  where
    middle : (a b d : Bool) → (a && (b && d)) ≡ true → b ≡ true
    middle a true d h = refl
    middle true false d h = h
    middle false false d h = h

-- The last tests of the normalization, on a text that is as they want it.
sized :
    (error : EmissionError) (n : ℕ) (s t : Text) (a b z l i : Bool)
    → a ≡ true
    → b ≡ false
    → z ≡ false
    → l ≡ true
    → i ≡ true
    → t ≡ s
    → ◌≡◌ {A = Result EmissionError Text}
        (if not a
          then err error
          else if b || (ltb 64 n || z)
          then err error
          else if not l || not i
          then err error
          else ok t)
        (if leb n 64 then ok s else err error)
sized error n s t a b z l i ha hb hz hl hi ht =
    rw ha (rw hb (rw hz (rw hl (rw hi (rw ht (by_order (leb n 64) refl))))))
  where
    by_order :
        (f : Bool)
        → leb n 64 ≡ f
        → ◌≡◌ {A = Result EmissionError Text}
            (if ltb 64 n || false then err error else ok s)
            (if f then ok s else err error)
    by_order true e = rw (not_over e) refl
      where
        not_over : leb n 64 ≡ true → ltb 64 n ≡ false
        not_over e = ground arith
    by_order false e = rw (over e) refl
      where
        over : leb n 64 ≡ false → ltb 64 n ≡ true
        over e = ground arith

-- The slot that is made of any name is accepted as a slot of an emission exactly if it has at most
-- 64 characters, and then it is kept as it is.
pub normalize_label-artifact_slot :
    (error : EmissionError) (name : Text)
    → normalize_label error 64 (artifact_slot name)
      ≡ (if leb (length (artifact_slot name)) 64 then ok (artifact_slot name) else err error)
unfolding normalize_label artifact_slot
normalize_label-artifact_slot error name = of_logical (artifact_slot name) (
    or_artifact-logical (dashed false (lower (strip (stem name))))
      (dashed-Labels false (lower (strip (stem name)))))
  where
    of_logical :
        (s : Text)
        → is_logical_identifier s ≡ true
        → normalize_label error 64 s ≡ (if leb (length s) 64 then ok s else err error)
    of_logical s h =
        let (labels, some_text) = logical-Labels s h in
        sized error (length s) s (lower s) (s == strip s) (s == []) (has_char 0 s) (lower s == s)
          (is_logical_identifier (lower s))
          ((list_beq_iff s (strip s)).1 (sym (strip_label s labels))) some_text (no_nul s labels)
          ((list_beq_iff (lower s) s).1 (lower_label s labels))
          (ap is_logical_identifier (lower_label s labels) ∙ h) (lower_label s labels)
