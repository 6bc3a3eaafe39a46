-- ===== src/Integrations/Artifacts/Metadata.antt =====
-- The metadata of integrations/artifact/base.py: what was normalised once can be normalised again.
use cobalt_wren.Prelude.{
  ℕ, suc, Bool, true, false, Option, none, some, leb, if◌then◌else◌, ◌≡◌, refl, subst, arith,
}
use cobalt_wren.Prelude.Equality.{◌==◌, nat_eq, list_eq}
use cobalt_wren.Prelude.Result.{ok, on_ok, ok-injective}
use cobalt_wren.Prelude.Text.{Text}
use cobalt_wren.Core.Value.{
  Value, null, bool, int, float, str, bytes, bytearray, memoryview, list, tuple, dict, other, Items,
  nil, cons, Fields, end, field, key_text,
}
use cobalt_wren.Core.Redaction.{
  Patterns, redacted_value, is_sensitive_key, put_field, truncated_fields, truncated_items,
  truncated, guarded, redact_value, redact_items, redact_fields, redact_mapping,
}
use cobalt_wren.Integrations.Artifacts.{normalize_json, json_items, json_fields, normalize_metadata}

unfoldable mutual
  -- No value in it that `_normalize_json_value` refuses.
  IsJson : Value → Type 0
  IsJson null = Unit
  IsJson (bool b) = Unit
  IsJson (int n) = Unit
  IsJson (float f) = Unit
  IsJson (str s) = Unit
  IsJson (dict fs) = FieldsJson fs
  IsJson (list vs) = ItemsJson vs
  IsJson (tuple vs) = ItemsJson vs
  IsJson _ = ⊥

  ItemsJson : Items → Type 0
  ItemsJson nil = Unit
  ItemsJson (cons v vs) = IsJson v × ItemsJson vs

  FieldsJson : Fields → Type 0
  FieldsJson end = Unit
  FieldsJson (field k v fs) = IsJson v × FieldsJson fs

put_field-FieldsJson :
    (fs : Fields) (k : Text) (v : Value) → IsJson v → FieldsJson fs → FieldsJson (put_field fs k v)
unfolding put_field IsJson
put_field-FieldsJson end k v h f = (h, tt)
put_field-FieldsJson (field j w fs) k v h (hw, f) =
    by_test (put_field-FieldsJson fs k v h f) (key_text j == k)
  where
    by_test :
        FieldsJson (put_field fs k v)
        → (b : Bool) → FieldsJson (if b then field j v fs else field j w (put_field fs k v))
    by_test rest true = (h, f)
    by_test rest false = (hw, rest)

mutual
  unfolding normalize_json IsJson

  normalize_json-IsJson : (v w : Value) → normalize_json v ≡ ok w → IsJson w
  normalize_json-IsJson null w h = subst IsJson (ok-injective h) tt
  normalize_json-IsJson (bool b) w h = subst IsJson (ok-injective h) tt
  normalize_json-IsJson (int n) w h = subst IsJson (ok-injective h) tt
  normalize_json-IsJson (float f) w h = subst IsJson (ok-injective h) tt
  normalize_json-IsJson (str s) w h = subst IsJson (ok-injective h) tt
  normalize_json-IsJson (dict fs) w h =
      on_ok (json_fields end fs) _ h
        λ gs e k. subst IsJson (ok-injective k) (json_fields-FieldsJson end fs gs tt e)
  normalize_json-IsJson (tuple vs) w h =
      on_ok (json_items vs) _ h
        λ ws e k. subst IsJson (ok-injective k) (json_items-ItemsJson vs ws e)
  normalize_json-IsJson (list vs) w h =
      on_ok (json_items vs) _ h
        λ ws e k. subst IsJson (ok-injective k) (json_items-ItemsJson vs ws e)
  normalize_json-IsJson (bytes bs) w h = absurd (ground (arith, h))
  normalize_json-IsJson (bytearray bs) w h = absurd (ground (arith, h))
  normalize_json-IsJson (memoryview bs) w h = absurd (ground (arith, h))
  normalize_json-IsJson (other type text) w h = absurd (ground (arith, h))

  json_items-ItemsJson : (vs ws : Items) → json_items vs ≡ ok ws → ItemsJson ws
  json_items-ItemsJson nil ws h = subst ItemsJson (ok-injective h) tt
  json_items-ItemsJson (cons v vs) ws h = on_ok (normalize_json v) _ h λ x e k.
      on_ok (json_items vs) _ k λ xs es ks.
        subst ItemsJson (ok-injective ks)
          (normalize_json-IsJson v x e, json_items-ItemsJson vs xs es)

  json_fields-FieldsJson :
      (acc fs gs : Fields) → FieldsJson acc → json_fields acc fs ≡ ok gs → FieldsJson gs
  json_fields-FieldsJson acc end gs f h = subst FieldsJson (ok-injective h) f
  json_fields-FieldsJson acc (field k v fs) gs f h = on_ok (normalize_json v) _ h λ w e rest.
      json_fields-FieldsJson (put_field acc (key_text k) w) fs gs
        (put_field-FieldsJson acc (key_text k) w (normalize_json-IsJson v w e) f) rest

mutual
  unfolding normalize_json IsJson

  json_accepted : (v : Value) → IsJson v → (w : Value) × (normalize_json v ≡ ok w)
  json_accepted null h = (_, refl)
  json_accepted (bool b) h = (_, refl)
  json_accepted (int n) h = (_, refl)
  json_accepted (float f) h = (_, refl)
  json_accepted (str s) h = (_, refl)
  json_accepted (dict fs) h = let (gs, e) = fields_accepted end fs h in (dict gs, rw e refl)
  json_accepted (tuple vs) h = let (ws, e) = items_accepted vs h in (list ws, rw e refl)
  json_accepted (list vs) h = let (ws, e) = items_accepted vs h in (list ws, rw e refl)
  json_accepted (bytes bs) h = absurd h
  json_accepted (bytearray bs) h = absurd h
  json_accepted (memoryview bs) h = absurd h
  json_accepted (other type text) h = absurd h

  items_accepted : (vs : Items) → ItemsJson vs → (ws : Items) × (json_items vs ≡ ok ws)
  items_accepted nil h = (nil, refl)
  items_accepted (cons v vs) (h, hs) =
      let (w, e) = json_accepted v h in
      let (ws, es) = items_accepted vs hs in (cons w ws, rw e (rw es refl))

  fields_accepted : (acc fs : Fields) → FieldsJson fs → (gs : Fields) × (json_fields acc fs ≡ ok gs)
  fields_accepted acc end h = (acc, refl)
  fields_accepted acc (field k v fs) (h, hs) =
      let (w, e) = json_accepted v h in
      let (gs, es) = fields_accepted (put_field acc (key_text k) w) fs hs in (gs, rw e es)

truncated_fields-FieldsJson :
    (fs acc : Fields) → FieldsJson acc → FieldsJson (truncated_fields acc fs)
unfolding truncated_fields IsJson
truncated_fields-FieldsJson end acc f = f
truncated_fields-FieldsJson (field k v fs) acc f =
    truncated_fields-FieldsJson fs _ (put_field-FieldsJson acc (key_text k) _ tt f)

truncated_items-ItemsJson : (vs : Items) → ItemsJson (truncated_items vs)
unfolding truncated_items IsJson
truncated_items-ItemsJson nil = tt
truncated_items-ItemsJson (cons v vs) = (tt, truncated_items-ItemsJson vs)

truncated-IsJson : (v : Value) → IsJson (truncated v)
unfolding truncated IsJson
truncated-IsJson (dict fs) = truncated_fields-FieldsJson fs end tt
truncated-IsJson (list vs) = truncated_items-ItemsJson vs
truncated-IsJson (tuple vs) = truncated_items-ItemsJson vs
truncated-IsJson (memoryview bs) = truncated_items-ItemsJson _
truncated-IsJson (str t) = tt
truncated-IsJson null = tt
truncated-IsJson (bool b) = tt
truncated-IsJson (int n) = tt
truncated-IsJson (float f) = tt
truncated-IsJson (bytes bs) = tt
truncated-IsJson (bytearray bs) = tt
truncated-IsJson (other type text) = tt

module _ (p : Patterns) (max_depth : ℕ) where
  guarded-IsJson :
      (key : Option Text) (depth : ℕ) (v redacted : Value)
      → IsJson redacted
      → IsJson (guarded p max_depth key depth v redacted)
  unfolding IsJson
  guarded-IsJson key depth v redacted r =
      by_tests (elim key [ none ↦ false | some k ↦ is_sensitive_key k ]) (leb max_depth depth)
    where
      by_tests :
          (b c : Bool)
          → IsJson (if b then str redacted_value else if c then truncated v else redacted)
      by_tests true c = tt
      by_tests false true = truncated-IsJson v
      by_tests false false = r

  hidden_or :
      (redacted : Value) (b : Bool)
      → IsJson redacted
      → IsJson (if b then str redacted_value else redacted)
  unfolding IsJson
  hidden_or redacted true r = tt
  hidden_or redacted false r = r

  mutual
    unfolding redact_value IsJson

    redact_value-IsJson :
        (key : Option Text) (depth : ℕ) (v : Value)
        → IsJson v
        → IsJson (redact_value p max_depth key depth v)
    redact_value-IsJson key depth (dict fs) h =
        guarded-IsJson key depth (dict fs) _ (redact_fields-FieldsJson depth fs end h tt)
    redact_value-IsJson key depth (list vs) h =
        guarded-IsJson key depth (list vs) _ (redact_items-ItemsJson depth vs h)
    redact_value-IsJson key depth (tuple vs) h =
        guarded-IsJson key depth (tuple vs) _ (redact_items-ItemsJson depth vs h)
    redact_value-IsJson key depth (str t) h = guarded-IsJson key depth (str t) (str _) tt
    redact_value-IsJson key depth null h = guarded-IsJson key depth null null tt
    redact_value-IsJson key depth (bool b) h = guarded-IsJson key depth (bool b) (bool b) tt
    redact_value-IsJson key depth (int n) h = guarded-IsJson key depth (int n) (int n) tt
    redact_value-IsJson key depth (float f) h = guarded-IsJson key depth (float f) (float f) tt
    redact_value-IsJson key depth (bytes bs) h = absurd h
    redact_value-IsJson key depth (bytearray bs) h = absurd h
    redact_value-IsJson key depth (memoryview bs) h = absurd h
    redact_value-IsJson key depth (other type text) h = absurd h

    redact_items-ItemsJson :
        (depth : ℕ) (vs : Items) → ItemsJson vs → ItemsJson (redact_items p max_depth depth vs)
    redact_items-ItemsJson depth nil h = tt
    redact_items-ItemsJson depth (cons v vs) (h, hs) =
        (redact_value-IsJson none (suc depth) v h, redact_items-ItemsJson depth vs hs)

    redact_fields-FieldsJson :
        (depth : ℕ) (fs acc : Fields)
        → FieldsJson fs
        → FieldsJson acc
        → FieldsJson (redact_fields p max_depth depth acc fs)
    redact_fields-FieldsJson depth end acc h f = f
    redact_fields-FieldsJson depth (field k v fs) acc (h, hs) f =
        redact_fields-FieldsJson depth fs _ hs (
          put_field-FieldsJson acc (key_text k) _
            (hidden_or (redact_value p max_depth (some (key_text k)) (suc depth) v)
              (is_sensitive_key (key_text k))
              (redact_value-IsJson (some (key_text k)) (suc depth) v h))
            f)

  redact_mapping-FieldsJson :
      (fs : Fields) → FieldsJson fs → FieldsJson (redact_mapping p max_depth fs)
  unfolding redact_mapping IsJson
  redact_mapping-FieldsJson fs h = by_depth (leb max_depth 0)
    where
      by_depth :
          (b : Bool)
          → FieldsJson (if b then truncated_fields end fs else redact_fields p max_depth 0 end fs)
      by_depth true = truncated_fields-FieldsJson fs end tt
      by_depth false = redact_fields-FieldsJson 0 fs end h tt

  -- Metadata that were normalised can be normalised again.
  pub metadata_again :
      (fs gs : Fields)
      → normalize_metadata p max_depth (dict fs) ≡ ok gs
      → (hs : Fields) × (normalize_metadata p max_depth (dict gs) ≡ ok hs)
  unfolding normalize_metadata IsJson
  metadata_again fs gs h = fields_accepted end (redact_mapping p max_depth gs) (
      redact_mapping-FieldsJson gs
        (json_fields-FieldsJson end (redact_mapping p max_depth fs) gs tt h))
