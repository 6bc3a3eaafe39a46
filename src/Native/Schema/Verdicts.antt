-- ===== src/Native/Schema/Verdicts.antt =====
-- When the parts of the walk of native/schema.py find no issue.
use cobalt_wren.Prelude.{
  ℕ, suc, ◌≤◌, ◌<◌, Bool, true, false, not, Option, none, some, List, [], ◌∷◌, if◌then◌else◌, ◌≡◌,
  ◌≢◌, refl, sym, ◌∙◌, ◌⊎◌, inl, inr, arith,
}
use cobalt_wren.Prelude.Equality.{nat_eq, list_eq}
use cobalt_wren.Prelude.Text.{Text}
use cobalt_wren.Core.Value.{
  Value, null, bool, int, float, str, bytes, bytearray, memoryview, list, tuple, dict, other, Items,
  nil, cons, Fields, end, field, name, foreign, key_text,
}
use cobalt_wren.Core.Compare.{find_field, field_named}
use cobalt_wren.Native.Schema.{
  Issue, Collector, join, at_key, at_index, either_passes, any_passes, required_issue,
  required_issues, property_issues, properties_issues, additional_issues, items_issues, nesting,
  items_nesting, fields_nesting, missing_field,
}
use cobalt_wren.Native.Schema.Rounds.{Ends}
use cobalt_wren.Native.Schema.Conforms.{
  ConformsToOne, PropertyConforms, PropertiesConform, ExtraConforms, ExtrasConform, ItemsConform,
  Required, When,
}

-- A walk finds nothing exactly where `P` holds.
abbrev pub Decides : Option (List Issue) → Type 0 → Type 0
Decides o P = (o ≡ some [] → P) × (P → o ≡ some [])

pub Decides-unit : Decides (some []) Unit
Decides-unit = (λ h. tt, λ u. refl)

Decides-never : {P : Type 0} (i : Issue) (is : List Issue) → ¬ P → Decides (some (i ∷ is)) P
Decides-never i is refuted = (λ h. absurd (ground (arith, h)), λ p. absurd (refuted p))

abbrev pub AnyDecides : Option Bool → Type 0 → Type 0
AnyDecides o P = (o ≡ some true → P) × (P → o ≡ some true)

-- Both walks find nothing where they do so together.
pub Decides-join :
    {a b : Option (List Issue)} {P Q : Type 0}
    → Decides a P
    → Decides b Q
    → Decides (join a b) (P × Q)
Decides-join {a} {b} {P} {Q} (p, p') (q, q') =
    (λ h. (p (left a b h), q (right a b h)), λ (x, y). rw (p' x) (rw (q' y)))
  where
    left : (a b : Option (List Issue)) → join a b ≡ some [] → a ≡ some []
    left none b h = h
    left (some []) b h = refl
    left (some (i ∷ is)) none h = absurd (ground (arith, h))
    left (some (i ∷ is)) (some js) h = absurd (ground (arith, h))

    right : (a b : Option (List Issue)) → join a b ≡ some [] → b ≡ some []
    right none b h = absurd (ground (arith, h))
    right (some is) none h = h
    right (some is) (some []) h = refl
    right (some []) (some (j ∷ js)) h = h
    right (some (i ∷ is)) (some (j ∷ js)) h = absurd (ground (arith, h))

join-nothing : {P : Type 0} (a : Option (List Issue)) → Decides a P → Decides (join (some []) a) P
join-nothing none h = h
join-nothing (some is) h = h

pub Decides-when :
    {a : Option (List Issue)} {P : Type 0} (b : Bool)
    → Decides a P
    → Decides (if b then a else some []) (When b P)
Decides-when true h = h
Decides-when false h = Decides-unit

-- A guard adds its condition.
pub Decides-guard :
    {a : Option (List Issue)} {P : Type 0} (b : Bool) (i : Issue)
    → Decides a P
    → Decides (if not b then some (i ∷ []) else a) ((b ≡ true) × P)
Decides-guard true i (to, from) = (λ h. (refl, to h), λ c. from (c.1))
Decides-guard false i (to, from) =
    (λ h. absurd (ground (arith, h)), λ c. absurd (ground (arith, c.0)))

pub Decides-given :
    {a : Option (List Issue)} {P : Type 0} → Decides a P → Decides a ((true ≡ true) × P)
Decides-given (to, from) = (λ h. (refl, to h), λ c. from (c.1))

-- The required fields are there.
pub required_issues-Decides :
    (value : Fields) (keys : Items) (p : Text)
    → Decides (some (required_issues value keys p)) (Required value keys)
unfolding required_issues
required_issues-Decides value nil p = Decides-unit
required_issues-Decides value (cons (str key) keys) p =
    Decides-join {a = some (required_issue value p (str key))} (by_value (field_named value key))
      (required_issues-Decides value keys p)
  where
    by_value :
        (o : Option Value)
        → Decides (some (elim o [ none ↦ missing_field p key ∷ [] | some v ↦ [] ])) (o ≢ none)
    by_value none = Decides-never (missing_field p key) [] (λ h. h refl)
    by_value (some v) = (λ h e. ground (arith, e), λ h. refl)
required_issues-Decides value (cons null keys) p = required_issues-Decides value keys p
required_issues-Decides value (cons (bool _) keys) p = required_issues-Decides value keys p
required_issues-Decides value (cons (int _) keys) p = required_issues-Decides value keys p
required_issues-Decides value (cons (float _) keys) p = required_issues-Decides value keys p
required_issues-Decides value (cons (bytes _) keys) p = required_issues-Decides value keys p
required_issues-Decides value (cons (bytearray _) keys) p = required_issues-Decides value keys p
required_issues-Decides value (cons (memoryview _) keys) p = required_issues-Decides value keys p
required_issues-Decides value (cons (list _) keys) p = required_issues-Decides value keys p
required_issues-Decides value (cons (tuple _) keys) p = required_issues-Decides value keys p
required_issues-Decides value (cons (other _ _) keys) p = required_issues-Decides value keys p
required_issues-Decides value (cons (dict _) keys) p = required_issues-Decides value keys p

-- A walk that decides `C` for schemas of less than `n` levels.
module _ (n : ℕ) (go : Collector) (C : Value → Fields → Type 0)
    (ends : (v : Value) (s : Fields) (p : Text) → fields_nesting s < n → Ends (go v s p))
    (decides : (v : Value) (s : Fields) (p : Text)
      → fields_nesting s < n
      → Decides (go v s p) (C v s)) where
  either-Decides :
      {a : Option (List Issue)} {b : Option Bool} {P Q : Type 0}
      → Ends a
      → Decides a P
      → AnyDecides b Q
      → AnyDecides (either_passes a b) (P ⊎ Q)
  either-Decides {a} {b} {P} {Q} ([], e) (p, p') (q, q') = (λ h. inl (p e), λ h. rw e)
  either-Decides {a} {b} {P} {Q} (i ∷ is, e) (p, p') (q, q') =
      (λ h. inr (q (passed h)), λ h. rw e (by_side h))
    where
      passed : either_passes a b ≡ some true → b ≡ some true
      passed h = rw e at h

      some_not_empty : {P : Type 0} → a ≡ some [] → P
      some_not_empty f = absurd (clash (sym e ∙ f))
        where
          clash : ◌≡◌ {A = Option (List Issue)} (some (i ∷ is)) (some []) → ⊥
          clash g = ground (arith, g)

      by_side : P ⊎ Q → b ≡ some true
      by_side (inl x) = some_not_empty (p' x)
      by_side (inr y) = q' y

  pub any-Decides :
      (v : Value) (options : Items) (p : Text)
      → items_nesting options ≤ n
      → AnyDecides (any_passes go v options p) (ConformsToOne C v options)
  unfolding any_passes nesting
  any-Decides v nil p h = (λ e. ground (arith, e), λ e. absurd e)
  any-Decides v (cons (dict option) options) p h =
      either-Decides (ends v option p (omega arith)) (decides v option p (omega arith))
        (any-Decides v options p (omega arith))
  any-Decides v (cons null options) p h = any-Decides v options p (omega arith)
  any-Decides v (cons (bool _) options) p h = any-Decides v options p (omega arith)
  any-Decides v (cons (int _) options) p h = any-Decides v options p (omega arith)
  any-Decides v (cons (float _) options) p h = any-Decides v options p (omega arith)
  any-Decides v (cons (str _) options) p h = any-Decides v options p (omega arith)
  any-Decides v (cons (bytes _) options) p h = any-Decides v options p (omega arith)
  any-Decides v (cons (bytearray _) options) p h = any-Decides v options p (omega arith)
  any-Decides v (cons (memoryview _) options) p h = any-Decides v options p (omega arith)
  any-Decides v (cons (list _) options) p h = any-Decides v options p (omega arith)
  any-Decides v (cons (tuple _) options) p h = any-Decides v options p (omega arith)
  any-Decides v (cons (other _ _) options) p h = any-Decides v options p (omega arith)

  property-Decides :
      (value : Fields) (p : Text) (k : Text) (s : Value)
      → nesting s ≤ n
      → Decides (property_issues go value p (name k) s) (PropertyConforms C s (field_named value k))
  unfolding nesting
  property-Decides value p k (dict nested) h = by_value (field_named value k)
    where
      by_value :
          (o : Option Value)
          → Decides
              (elim o [ none ↦ some [] | some v ↦ go v nested (at_key p k) ])
              (PropertyConforms C (dict nested) o)
      by_value none = Decides-unit
      by_value (some v) = decides v nested (at_key p k) (omega arith)
  property-Decides value p k null h = Decides-unit
  property-Decides value p k (bool _) h = Decides-unit
  property-Decides value p k (int _) h = Decides-unit
  property-Decides value p k (float _) h = Decides-unit
  property-Decides value p k (str _) h = Decides-unit
  property-Decides value p k (bytes _) h = Decides-unit
  property-Decides value p k (bytearray _) h = Decides-unit
  property-Decides value p k (memoryview _) h = Decides-unit
  property-Decides value p k (list _) h = Decides-unit
  property-Decides value p k (tuple _) h = Decides-unit
  property-Decides value p k (other _ _) h = Decides-unit

  pub properties-Decides :
      (value properties : Fields) (p : Text)
      → fields_nesting properties ≤ n
      → Decides (properties_issues go value properties p) (PropertiesConform C value properties)
  unfolding properties_issues nesting
  properties-Decides value end p h = Decides-unit
  properties-Decides value (field (name k) s properties) p h =
      Decides-join (property-Decides value p k s (omega arith))
        (properties-Decides value properties p (omega arith))
  properties-Decides value (field (foreign k) s properties) p h =
      join-nothing (properties_issues go value properties p)
        (properties-Decides value properties p (omega arith))

  pub additional-Decides :
      (known additional value : Fields) (p : Text)
      → fields_nesting additional < n
      → Decides
          (additional_issues go known additional value p)
          (ExtrasConform C known additional value)
  unfolding additional_issues
  additional-Decides known additional end p h = Decides-unit
  additional-Decides known additional (field k v value) p h =
      by_known (find_field known k) (additional-Decides known additional value p h)
    where
      by_known :
          (o : Option Value)
          → Decides
              (additional_issues go known additional value p)
              (ExtrasConform C known additional value)
          → Decides
              (elim o [
                | none ↦
                    join
                      (go v additional (at_key p (key_text k)))
                      (additional_issues go known additional value p)
                | some s ↦ additional_issues go known additional value p
              ])
              (ExtraConforms C o v additional × ExtrasConform C known additional value)
      by_known none rest = Decides-join (decides v additional (at_key p (key_text k)) h) rest
      by_known (some s) (to, from) = (λ e. (tt, to e), λ c. from (c.1))

  pub items-Decides :
      (schema : Fields) (items : Items) (i : ℕ) (p : Text)
      → fields_nesting schema < n
      → Decides (items_issues go schema items i p) (ItemsConform C schema items)
  unfolding items_issues
  items-Decides schema nil i p h = Decides-unit
  items-Decides schema (cons v items) i p h =
      Decides-join (decides v schema (at_index p i) h) (items-Decides schema items (suc i) p h)
