-- ===== src/Native/Schema/Rounds.antt =====
-- The rounds that `validate_schema_value` gives the walk of native/schema.py suffice.
use Prim.Native.Nat.{max}
use cobalt_wren.Prelude.{
  ℕ, zero, suc, ◌≤◌, ◌<◌, Bool, true, false, not, Option, none, some, List, [], ◌∷◌, ◌++◌,
  if◌then◌else◌, ◌≡◌, ◌≢◌, refl, ap, arith,
}
use cobalt_wren.Prelude.Equality.{◌==◌, nat_eq, list_eq}
use cobalt_wren.Prelude.Result.{err}
use cobalt_wren.Prelude.Text.{Text, codes}
use cobalt_wren.Core.Value.{
  Value, null, bool, int, float, str, bytes, bytearray, memoryview, list, tuple, dict, other, Items,
  nil, cons, Fields, end, field, Key, name, foreign, key_text,
}
use cobalt_wren.Core.Compare.{key_beq, find_field, field_named}
use cobalt_wren.Native.Schema.{
  Issue, Collector, join, at_key, at_index, as_list, as_dict, as_text, either_passes, any_passes,
  alternatives_report, property_issues, properties_issues, additional_issues, items_issues,
  object_issues, array_issues, items_part, properties_part, additional_part, known_properties,
  nested_issues, plain_issues, issues_by, collect, nesting, items_nesting, fields_nesting, report,
  validate_schema_value, enum_admits, type_admits, enum_issue, type_issue, out_of_rounds,
}

abbrev pub Ends {ℓ} : {A : Type ℓ} → Option A → Type ℓ
Ends {A} o = (a : A) × (o ≡ some a)

pub nesting-find_field :
    (fs : Fields) (k : Key) (v : Value) → find_field fs k ≡ some v → nesting v ≤ fields_nesting fs
unfolding nesting
nesting-find_field end k v h = absurd (none_absurd h)
  where
    none_absurd : ◌≡◌ {A = Option Value} none (some v) → ⊥
    none_absurd e = cc
nesting-find_field (field j w fs) k v h = by_test (key_beq j k) h (nesting-find_field fs k v)
  where
    by_test :
        (b : Bool)
        → (if b then some w else find_field fs k) ≡ some v
        → (find_field fs k ≡ some v → nesting v ≤ fields_nesting fs)
        → nesting v ≤ max (nesting w) (fields_nesting fs)
    by_test true e ih = rw (← value_is e) (omega arith)
      where
        value_is : some w ≡ some v → w ≡ v
        value_is e = cc
    by_test false e ih = omega (arith, ih e)

-- What a mapping holds under a key nests less deeply, so one round fewer is enough for it.
pub as_list-lt :
    (o : Option Value) (vs : Items) (n : ℕ)
    → ((v : Value) → o ≡ some v → nesting v ≤ n)
    → as_list o ≡ some vs
    → items_nesting vs < n
unfolding nesting
as_list-lt (some (list ws)) vs n h e =
    omega (arith, h (list ws) refl, ap items_nesting (items_are e))
  where
    items_are : some ws ≡ some vs → ws ≡ vs
    items_are e = cc
as_list-lt none vs n h e = absurd (ground (arith, e))
as_list-lt (some _) vs n h e = absurd (ground (arith, e))

pub as_dict-lt :
    (o : Option Value) (fs : Fields) (n : ℕ)
    → ((v : Value) → o ≡ some v → nesting v ≤ n)
    → as_dict o ≡ some fs
    → fields_nesting fs < n
unfolding nesting
as_dict-lt (some (dict gs)) fs n h e =
    omega (arith, h (dict gs) refl, ap fields_nesting (fields_are e))
  where
    fields_are : some gs ≡ some fs → gs ≡ fs
    fields_are e = cc
as_dict-lt none fs n h e = absurd (ground (arith, e))
as_dict-lt (some _) fs n h e = absurd (ground (arith, e))

pub le_of_lt : {m n : ℕ} → m < n → m ≤ n
le_of_lt h = omega arith

Ends-if : {a : Option (List Issue)} (b : Bool) → Ends a → Ends (if b then a else some [])
Ends-if true h = h
Ends-if false h = ([], refl)

Ends-join : {a b : Option (List Issue)} → Ends a → Ends b → Ends (join a b)
Ends-join (x, e) (y, f) = (x ++ y, rw e (rw f))

-- A walk that ends for schemas of less than `n` levels.
module _ (n : ℕ) (go : Collector)
    (ends : (v : Value) (s : Fields) (p : Text) → fields_nesting s < n → Ends (go v s p)) where
  either-Ends :
      {a : Option (List Issue)} {b : Option Bool} → Ends a → Ends b → Ends (either_passes a b)
  either-Ends ([], e) (b, f) = (true, rw e)
  either-Ends (i ∷ is, e) (b, f) = (b, rw e f)

  pub any_passes-Ends :
      (v : Value) (options : Items) (p : Text)
      → items_nesting options ≤ n
      → Ends (any_passes go v options p)
  unfolding any_passes nesting
  any_passes-Ends v nil p h = (false, refl)
  any_passes-Ends v (cons (dict option) options) p h =
      either-Ends (ends v option p (omega arith)) (any_passes-Ends v options p (omega arith))
  any_passes-Ends v (cons null options) p h = any_passes-Ends v options p (omega arith)
  any_passes-Ends v (cons (bool _) options) p h = any_passes-Ends v options p (omega arith)
  any_passes-Ends v (cons (int _) options) p h = any_passes-Ends v options p (omega arith)
  any_passes-Ends v (cons (float _) options) p h = any_passes-Ends v options p (omega arith)
  any_passes-Ends v (cons (str _) options) p h = any_passes-Ends v options p (omega arith)
  any_passes-Ends v (cons (bytes _) options) p h = any_passes-Ends v options p (omega arith)
  any_passes-Ends v (cons (bytearray _) options) p h = any_passes-Ends v options p (omega arith)
  any_passes-Ends v (cons (memoryview _) options) p h = any_passes-Ends v options p (omega arith)
  any_passes-Ends v (cons (list _) options) p h = any_passes-Ends v options p (omega arith)
  any_passes-Ends v (cons (tuple _) options) p h = any_passes-Ends v options p (omega arith)
  any_passes-Ends v (cons (other _ _) options) p h = any_passes-Ends v options p (omega arith)

  property-Ends :
      (value : Fields) (p : Text) (k : Key) (s : Value)
      → nesting s ≤ n
      → Ends (property_issues go value p k s)
  unfolding nesting
  property-Ends value p (name k) (dict nested) h = by_value (field_named value k)
    where
      by_value :
          (o : Option Value) → Ends (elim o [ none ↦ some [] | some v ↦ go v nested (at_key p k) ])
      by_value none = ([], refl)
      by_value (some v) = ends v nested (at_key p k) (omega arith)
  property-Ends value p (foreign k) s h = ([], refl)
  property-Ends value p (name k) s h = ([], ground arith)

  properties-Ends :
      (value properties : Fields) (p : Text)
      → fields_nesting properties ≤ n
      → Ends (properties_issues go value properties p)
  unfolding properties_issues nesting
  properties-Ends value end p h = ([], refl)
  properties-Ends value (field k s properties) p h =
      Ends-join (property-Ends value p k s (omega arith))
        (properties-Ends value properties p (omega arith))

  additional-Ends :
      (known additional value : Fields) (p : Text)
      → fields_nesting additional < n
      → Ends (additional_issues go known additional value p)
  unfolding additional_issues
  additional-Ends known additional end p h = ([], refl)
  additional-Ends known additional (field k v value) p h =
      by_known (find_field known k) (additional-Ends known additional value p h)
    where
      by_known :
          (o : Option Value)
          → Ends (additional_issues go known additional value p)
          → Ends (elim o [
            | none ↦
                join
                  (go v additional (at_key p (key_text k)))
                  (additional_issues go known additional value p)
            | some s ↦ additional_issues go known additional value p
          ])
      by_known none rest = Ends-join (ends v additional (at_key p (key_text k)) h) rest
      by_known (some s) rest = rest

  items-Ends :
      (schema : Fields) (items : Items) (i : ℕ) (p : Text)
      → fields_nesting schema < n
      → Ends (items_issues go schema items i p)
  unfolding items_issues
  items-Ends schema nil i p h = ([], refl)
  items-Ends schema (cons v items) i p h =
      Ends-join (ends v schema (at_index p i) h) (items-Ends schema items (suc i) p h)

  module _ (schema : Fields) (deep : fields_nesting schema < suc n) where
    below : (k : Text) (v : Value) → field_named schema k ≡ some v → nesting v ≤ n
    below k v e = omega (arith, nesting-find_field schema (name k) v e)

    object-Ends : (value : Fields) (p : Text) → Ends (object_issues go schema value p)
    unfolding object_issues
    object-Ends value p =
        Ends-join (_, refl)
          (Ends-join (by_properties (as_dict (field_named schema (codes "properties"))) refl) (
            by_additional (as_dict (field_named schema (codes "additionalProperties"))) refl
              (known_properties (as_dict (field_named schema (codes "properties"))))))
      where
        by_properties :
            (o : Option Fields)
            → as_dict (field_named schema (codes "properties")) ≡ o
            → Ends (properties_part o go value p)
        by_properties none e = ([], refl)
        by_properties (some properties) e = properties-Ends value properties p (
            le_of_lt (
              as_dict-lt (field_named schema (codes "properties")) properties n
                (below (codes "properties")) e))

        by_additional :
            (o : Option Fields)
            → as_dict (field_named schema (codes "additionalProperties")) ≡ o
            → (known : Fields) → Ends (additional_part o known go value p)
        by_additional none e known = ([], refl)
        by_additional (some additional) e known = additional-Ends known additional value p (
            as_dict-lt (field_named schema (codes "additionalProperties")) additional n
              (below (codes "additionalProperties")) e)

    array-Ends : (items : Items) (p : Text) → Ends (array_issues go schema items p)
    unfolding array_issues
    array-Ends items p = by_schema (as_dict (field_named schema (codes "items"))) refl
      where
        by_schema :
            (o : Option Fields)
            → as_dict (field_named schema (codes "items")) ≡ o
            → Ends (items_part o go items p)
        by_schema none e = ([], refl)
        by_schema (some s) e =
            items-Ends s items 0 p
              (as_dict-lt (field_named schema (codes "items")) s n (below (codes "items")) e)

    nested-Ends :
        (expected : Option Text) (v : Value) (p : Text)
        → Ends (nested_issues go expected v schema p)
    unfolding nested_issues
    nested-Ends none v p = ([], refl)
    nested-Ends (some e) (dict fs) p = Ends-if (e == codes "object") (object-Ends fs p)
    nested-Ends (some e) (list vs) p = Ends-if (e == codes "array") (array-Ends vs p)
    nested-Ends (some e) (tuple vs) p = Ends-if (e == codes "array") (array-Ends vs p)
    nested-Ends (some e) v p = ([], ground arith)

    plain-Ends : (v : Value) (p : Text) → Ends (plain_issues go v schema p)
    unfolding plain_issues
    plain-Ends v p =
        by_tests (not (enum_admits (as_list (field_named schema (codes "enum"))) v))
          (not (type_admits (as_text (field_named schema (codes "type"))) v))
      where
        by_tests :
            (b c : Bool)
            → Ends (
                if b
                then some (enum_issue p (as_list (field_named schema (codes "enum"))))
                else if c
                then some (type_issue p (as_text (field_named schema (codes "type"))) v)
                else nested_issues go (as_text (field_named schema (codes "type"))) v schema p)
        by_tests true c = (_, refl)
        by_tests false true = (_, refl)
        by_tests false false = nested-Ends (as_text (field_named schema (codes "type"))) v p

    issues-Ends :
        (v : Value) (p : Text)
        → Ends (issues_by (as_list (field_named schema (codes "anyOf"))) go v schema p)
    issues-Ends v p = by_options (as_list (field_named schema (codes "anyOf"))) refl
      where
        by_report : (o : Option Bool) → Ends o → Ends (alternatives_report p o)
        by_report (some true) h = ([], refl)
        by_report (some false) h = (_, refl)
        by_report none (b, e) = absurd (none_absurd e)
          where
            none_absurd : ◌≡◌ {A = Option Bool} none (some b) → ⊥
            none_absurd e = cc

        by_options :
            (o : Option Items)
            → as_list (field_named schema (codes "anyOf")) ≡ o
            → Ends (issues_by o go v schema p)
        by_options none e = plain-Ends v p
        by_options (some options) e = by_report (any_passes go v options p) (
            any_passes-Ends v options p (
              le_of_lt (
                as_list-lt (field_named schema (codes "anyOf")) options n (below (codes "anyOf"))
                  e)))

-- As many rounds as the schema has levels, and one more, end the walk.
pub collect-Ends :
    (rounds : ℕ) (v : Value) (schema : Fields) (p : Text)
    → fields_nesting schema < rounds
    → Ends (collect rounds v schema p)
unfolding collect
collect-Ends zero v schema p h = absurd (omega arith)
collect-Ends (suc rounds) v schema p h =
    issues-Ends rounds (collect rounds) (λ w s q d. collect-Ends rounds w s q d) schema h v p

-- The rounds that a validation is given suffice for its schema.
validate_schema_value_total :
    (value schema : Value) → validate_schema_value value schema ≢ err out_of_rounds
unfolding validate_schema_value
validate_schema_value_total value (dict schema) =
    by_result (collect (suc (fields_nesting schema)) value schema (codes "$"))
      (collect-Ends (suc (fields_nesting schema)) value schema (codes "$") (omega arith))
  where
    by_result : (o : Option (List Issue)) → Ends o → report o ≢ err out_of_rounds
    by_result o (issues, e) h = not_cut issues (rw e at h)
      where
        not_cut : (is : List Issue) → report (some is) ≢ err out_of_rounds
        not_cut [] h = cc
        not_cut (i ∷ is) h = cc
validate_schema_value_total value schema = λ h. ground (arith, h)
