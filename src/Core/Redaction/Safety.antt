-- ===== src/Core/Redaction/Safety.antt =====
-- What redaction leaves in a payload: core/redaction.py.
use cobalt_wren.Prelude.{
  ℕ, suc, Bool, true, false, Option, none, some, List, [], ◌∷◌, leb, if◌then◌else◌, ◌≡◌, ◌∙◌, refl,
  sym, subst, ◌⊎◌, inl, inr,
}
use cobalt_wren.Prelude.Equality.{◌==◌, nat_eq, list_eq}
use cobalt_wren.Prelude.Text.{Text, codes}
use cobalt_wren.Core.Redaction.Sensitive.{IsSensitive, is_sensitive_key-IsSensitive}
use cobalt_wren.Core.Value.{
  Value, null, bool, int, float, str, bytes, bytearray, memoryview, list, tuple, dict, other, Items,
  nil, cons, Fields, end, field, key_text,
}
use cobalt_wren.Core.Redaction.{
  Patterns, replace_match, redacted_value, truncated_value, is_sensitive_key, redact_text,
  put_field, truncated_fields, truncated_items, truncated, byte_items, guarded, redact_value,
  redact_items, redact_fields, redact_mapping,
}

module _ (p : Patterns) where
  -- The six substitutions on a text, one after the other.
  abbrev pub substituted : Text → Text
  substituted text =
      let bearer = p.bearer_sub (codes "Bearer ***REDACTED***") text in
      let unix = p.unix_path_sub (codes "***REDACTED***") bearer in
      let windows = p.windows_path_sub (codes "***REDACTED***") unix in
      let home = p.home_path_sub (codes "***REDACTED***") windows in
      let unc = p.unc_path_sub (codes "***REDACTED***") home in p.key_value_sub replace_match unc

  -- A text that redaction may leave as a value: a constant, or a text after the substitutions.
  abbrev pub CleanText : Text → Type 0
  CleanText t =
      (t ≡ codes "***REDACTED***")
      ⊎ ((t ≡ codes "***TRUNCATED***") ⊎ ((s : Text) × (t ≡ substituted s)))

  -- The value of a sensitive key.
  abbrev pub IsHidden : Value → Type 0
  IsHidden v = (v ≡ str (codes "***REDACTED***")) ⊎ (v ≡ str (codes "***TRUNCATED***"))

  unfoldable mutual
    -- Every text that is a value is clean, and sensitive keys have hidden values, at any depth.
    pub IsRedacted : Value → Type 0
    IsRedacted (str t) = CleanText t
    IsRedacted (list vs) = AreRedacted vs
    IsRedacted (tuple vs) = AreRedacted vs
    IsRedacted (dict fs) = FieldsRedacted fs
    IsRedacted null = Unit
    IsRedacted (bool b) = Unit
    IsRedacted (int n) = Unit
    IsRedacted (float f) = Unit
    IsRedacted (bytes bs) = Unit
    IsRedacted (bytearray bs) = Unit
    IsRedacted (memoryview bs) = Unit
    IsRedacted (other type text) = Unit

    pub AreRedacted : Items → Type 0
    AreRedacted nil = Unit
    AreRedacted (cons v vs) = IsRedacted v × AreRedacted vs

    pub FieldsRedacted : Fields → Type 0
    FieldsRedacted end = Unit
    FieldsRedacted (field k v fs) =
        (IsSensitive (key_text k) → IsHidden v) × IsRedacted v × FieldsRedacted fs

  put_field-FieldsRedacted :
      (fs : Fields) (k : Text) (v : Value)
      → (IsSensitive k → IsHidden v)
      → IsRedacted v
      → FieldsRedacted fs
      → FieldsRedacted (put_field fs k v)
  unfolding put_field IsRedacted
  put_field-FieldsRedacted end k v h r f = (h, r, tt)
  put_field-FieldsRedacted (field j w fs) k v h r (hw, rw', f) =
      by_test (put_field-FieldsRedacted fs k v h r f) (key_text j == k)
        (list_eq.beq_iff (key_text j) k).0
    where
      by_test :
          FieldsRedacted (put_field fs k v)
          → (b : Bool) → (b ≡ true → key_text j ≡ k)
          → FieldsRedacted (if b then field j v fs else field j w (put_field fs k v))
      by_test rest true e = (subst (λ t. IsSensitive t → IsHidden v) (sym (e refl)) h, r, f)
      by_test rest false e = (hw, rw', rest)

  truncated_fields-FieldsRedacted :
      (fs acc : Fields) → FieldsRedacted acc → FieldsRedacted (truncated_fields acc fs)
  unfolding truncated_fields IsRedacted
  truncated_fields-FieldsRedacted end acc f = f
  truncated_fields-FieldsRedacted (field k v fs) acc f = truncated_fields-FieldsRedacted fs _ (
      put_field-FieldsRedacted acc (key_text k) (str truncated_value) (λ _. inr refl)
        (inr (inl refl)) f)

  truncated_items-AreRedacted : (vs : Items) → AreRedacted (truncated_items vs)
  unfolding truncated_items IsRedacted
  truncated_items-AreRedacted nil = tt
  truncated_items-AreRedacted (cons v vs) = (inr (inl refl), truncated_items-AreRedacted vs)

  byte_items-AreRedacted : (bs : List ℕ) → AreRedacted (byte_items bs)
  unfolding IsRedacted
  byte_items-AreRedacted [] = tt
  byte_items-AreRedacted (b ∷ bs) = (tt, byte_items-AreRedacted bs)

  truncated-IsRedacted : (v : Value) → IsRedacted (truncated v)
  unfolding truncated IsRedacted
  truncated-IsRedacted (dict fs) = truncated_fields-FieldsRedacted fs end tt
  truncated-IsRedacted (list vs) = truncated_items-AreRedacted vs
  truncated-IsRedacted (tuple vs) = truncated_items-AreRedacted vs
  truncated-IsRedacted (memoryview bs) = truncated_items-AreRedacted (byte_items bs)
  truncated-IsRedacted (str t) = inr (inl refl)
  truncated-IsRedacted null = inr (inl refl)
  truncated-IsRedacted (bool b) = inr (inl refl)
  truncated-IsRedacted (int n) = inr (inl refl)
  truncated-IsRedacted (float f) = inr (inl refl)
  truncated-IsRedacted (bytes bs) = inr (inl refl)
  truncated-IsRedacted (bytearray bs) = inr (inl refl)
  truncated-IsRedacted (other type text) = inr (inl refl)

  module _ (max_depth : ℕ) where
    guarded-IsRedacted :
        (key : Option Text) (depth : ℕ) (v redacted : Value)
        → IsRedacted redacted
        → IsRedacted (guarded p max_depth key depth v redacted)
    unfolding IsRedacted
    guarded-IsRedacted key depth v redacted r =
        by_tests (elim key [ none ↦ false | some k ↦ is_sensitive_key k ]) (leb max_depth depth)
      where
        by_tests :
            (b c : Bool)
            → IsRedacted (if b then str redacted_value else if c then truncated v else redacted)
        by_tests true c = inl refl
        by_tests false true = truncated-IsRedacted v
        by_tests false false = r

    viewed-AreRedacted :
        (b : Bool) (bs : List ℕ)
        → AreRedacted (if b then truncated_items (byte_items bs) else byte_items bs)
    viewed-AreRedacted true bs = truncated_items-AreRedacted (byte_items bs)
    viewed-AreRedacted false bs = byte_items-AreRedacted bs

    guarded_key :
        (k : Text) (redacted : Value) (b : Bool)
        → is_sensitive_key k ≡ b
        → is_sensitive_key k ≡ true
        → IsHidden (if b then str redacted_value else redacted)
    guarded_key k redacted true e h = inl refl
    guarded_key k redacted false e h = absurd (distinct_truths (sym e ∙ h))
      where
        distinct_truths : false ≡ true → ⊥
        distinct_truths h = cc

    guarded_entry :
        (redacted : Value) (b : Bool)
        → IsRedacted redacted
        → IsRedacted (if b then str redacted_value else redacted)
    unfolding IsRedacted
    guarded_entry redacted true r = inl refl
    guarded_entry redacted false r = r

    mutual
      unfolding redact_value IsRedacted redact_text

      redact_value-IsRedacted :
          (key : Option Text) (depth : ℕ) (v : Value)
          → IsRedacted (redact_value p max_depth key depth v)
      redact_value-IsRedacted key depth (dict fs) =
          guarded-IsRedacted key depth (dict fs) _ (redact_fields-FieldsRedacted depth fs end tt)
      redact_value-IsRedacted key depth (list vs) =
          guarded-IsRedacted key depth (list vs) _ (redact_items-AreRedacted depth vs)
      redact_value-IsRedacted key depth (tuple vs) =
          guarded-IsRedacted key depth (tuple vs) _ (redact_items-AreRedacted depth vs)
      redact_value-IsRedacted key depth (memoryview bs) =
          guarded-IsRedacted key depth (memoryview bs) _
            (viewed-AreRedacted (leb max_depth (suc depth)) bs)
      redact_value-IsRedacted key depth (str t) =
          guarded-IsRedacted key depth (str t) _ (inr (inr (t, refl)))
      redact_value-IsRedacted key depth null = guarded-IsRedacted key depth null null tt
      redact_value-IsRedacted key depth (bool b) = guarded-IsRedacted key depth (bool b) (bool b) tt
      redact_value-IsRedacted key depth (int n) = guarded-IsRedacted key depth (int n) (int n) tt
      redact_value-IsRedacted key depth (float f) =
          guarded-IsRedacted key depth (float f) (float f) tt
      redact_value-IsRedacted key depth (bytes bs) =
          guarded-IsRedacted key depth (bytes bs) (bytes bs) tt
      redact_value-IsRedacted key depth (bytearray bs) =
          guarded-IsRedacted key depth (bytearray bs) (bytearray bs) tt
      redact_value-IsRedacted key depth (other type text) =
          guarded-IsRedacted key depth (other type text) (other type text) tt

      redact_items-AreRedacted :
          (depth : ℕ) (vs : Items) → AreRedacted (redact_items p max_depth depth vs)
      redact_items-AreRedacted depth nil = tt
      redact_items-AreRedacted depth (cons v vs) =
          (redact_value-IsRedacted none (suc depth) v, redact_items-AreRedacted depth vs)

      redact_fields-FieldsRedacted :
          (depth : ℕ) (fs acc : Fields)
          → FieldsRedacted acc
          → FieldsRedacted (redact_fields p max_depth depth acc fs)
      redact_fields-FieldsRedacted depth end acc f = f
      redact_fields-FieldsRedacted depth (field k v fs) acc f =
          let redacted = redact_value p max_depth (some (key_text k)) (suc depth) v in
          redact_fields-FieldsRedacted depth fs _ (
            put_field-FieldsRedacted acc (key_text k) _
              (λ sensitive.
                guarded_key (key_text k) redacted (is_sensitive_key (key_text k)) refl
                  (is_sensitive_key-IsSensitive (key_text k) sensitive))
              (guarded_entry redacted (is_sensitive_key (key_text k))
                (redact_value-IsRedacted (some (key_text k)) (suc depth) v))
              f)

    -- In a mapping that was redacted every text that is a value, at any depth, is one of the two
    -- constants or a text after the six substitutions in their order; and the value under a key
    -- that has one of the sensitive words in it, in small or capital letters, is a constant.
    pub redact_mapping-FieldsRedacted :
        (fs : Fields) → FieldsRedacted (redact_mapping p max_depth fs)
    unfolding redact_mapping IsRedacted
    redact_mapping-FieldsRedacted fs = by_depth (leb max_depth 0)
      where
        by_depth :
            (b : Bool)
            → FieldsRedacted
                (if b then truncated_fields end fs else redact_fields p max_depth 0 end fs)
        by_depth true = truncated_fields-FieldsRedacted fs end tt
        by_depth false = redact_fields-FieldsRedacted 0 fs end tt
