-- ===== src/Native/Schema/Decides.antt =====
-- The walk of native/schema.py finds an issue exactly where the value does not conform.
use cobalt_wren.Prelude.{
  ℕ, zero, suc, ◌≤◌, ◌<◌, Bool, true, false, not, Option, none, some, List, [], ◌∷◌, if◌then◌else◌,
  ◌≡◌, ◌↔◌, refl, arith,
}
use cobalt_wren.Prelude.Equality.{◌==◌, nat_eq, list_eq}
use cobalt_wren.Prelude.Result.{ok}
use cobalt_wren.Prelude.Text.{Text, codes}
use cobalt_wren.Core.Value.{
  Value, null, bool, int, float, str, bytes, bytearray, memoryview, list, tuple, dict, other, Items,
  Fields, name,
}
use cobalt_wren.Core.Compare.{field_named, in_items}
use cobalt_wren.Native.Schema.{
  Issue, Collector, as_list, as_dict, as_text, any_passes, alternatives_report, required_part,
  object_issues, array_issues, items_part, properties_part, additional_part, known_properties,
  nested_issues, plain_issues, issues_by, collect, nesting, fields_nesting, report,
  validate_schema_value, enum_admits, type_admits, enum_issue, type_issue, wrong_type, not_in_enum,
  matches_type,
}
use cobalt_wren.Native.Schema.Rounds.{
  Ends, as_list-lt, as_dict-lt, le_of_lt, nesting-find_field, collect-Ends,
}
use cobalt_wren.Native.Schema.Conforms.{
  Conforms, PropertiesConform, ExtrasConform, ItemsConform, Required, IfGiven, DictConforms,
  ListConforms, PartsConform, ConformsBy,
}
use cobalt_wren.Native.Schema.Verdicts.{
  Decides, AnyDecides, Decides-unit, Decides-join, Decides-when, Decides-guard, Decides-given,
  required_issues-Decides, any-Decides, properties-Decides, additional-Decides, items-Decides,
}

-- A walk that decides `C` for schemas of less than `n` levels.
module _ (n : ℕ) (go : Collector) (C : Value → Fields → Type 0)
    (ends : (v : Value) (s : Fields) (p : Text) → fields_nesting s < n → Ends (go v s p))
    (decides : (v : Value) (s : Fields) (p : Text)
      → fields_nesting s < n
      → Decides (go v s p) (C v s)) where
  module _ (schema : Fields) (deep : fields_nesting schema < suc n) where
    below : (k : Text) (v : Value) → field_named schema k ≡ some v → nesting v ≤ n
    below k v e = omega (arith, nesting-find_field schema (name k) v e)

    object-Decides :
        (value : Fields) (p : Text)
        → Decides (object_issues go schema value p) (DictConforms C schema value)
    unfolding object_issues
    object-Decides value p =
        Decides-join
          {a = some (required_part (as_list (field_named schema (codes "required"))) value p)}
          (by_required (as_list (field_named schema (codes "required"))))
          (Decides-join (by_properties (as_dict (field_named schema (codes "properties"))) refl) (
            by_additional (as_dict (field_named schema (codes "additionalProperties"))) refl
              (known_properties (as_dict (field_named schema (codes "properties"))))))
      where
        by_required :
            (o : Option Items)
            → Decides (some (required_part o value p)) (IfGiven o (Required value))
        by_required none = Decides-unit
        by_required (some keys) = required_issues-Decides value keys p

        by_properties :
            (o : Option Fields)
            → as_dict (field_named schema (codes "properties")) ≡ o
            → Decides (properties_part o go value p) (IfGiven o (PropertiesConform C value))
        by_properties none e = Decides-unit
        by_properties (some properties) e =
            properties-Decides n go C ends decides value properties p (
              le_of_lt (
                as_dict-lt (field_named schema (codes "properties")) properties n
                  (below (codes "properties")) e))

        by_additional :
            (o : Option Fields)
            → as_dict (field_named schema (codes "additionalProperties")) ≡ o
            → (known : Fields)
            → Decides
                (additional_part o known go value p)
                (IfGiven o (λ additional. ExtrasConform C known additional value))
        by_additional none e known = Decides-unit
        by_additional (some additional) e known =
            additional-Decides n go C ends decides known additional value p (
              as_dict-lt (field_named schema (codes "additionalProperties")) additional n
                (below (codes "additionalProperties")) e)

    array-Decides :
        (items : Items) (p : Text)
        → Decides (array_issues go schema items p) (ListConforms C schema items)
    unfolding array_issues
    array-Decides items p = by_schema (as_dict (field_named schema (codes "items"))) refl
      where
        by_schema :
            (o : Option Fields)
            → as_dict (field_named schema (codes "items")) ≡ o
            → Decides (items_part o go items p) (IfGiven o (λ s. ItemsConform C s items))
        by_schema none e = Decides-unit
        by_schema (some s) e =
            items-Decides n go C ends decides s items 0 p
              (as_dict-lt (field_named schema (codes "items")) s n (below (codes "items")) e)

    nested-Decides :
        (expected : Option Text) (v : Value) (p : Text)
        → Decides (nested_issues go expected v schema p) (PartsConform C expected v schema)
    unfolding nested_issues
    nested-Decides none v p = Decides-unit
    nested-Decides (some e) (dict fs) p = Decides-when (e == codes "object") (object-Decides fs p)
    nested-Decides (some e) (list vs) p = Decides-when (e == codes "array") (array-Decides vs p)
    nested-Decides (some e) (tuple vs) p = Decides-when (e == codes "array") (array-Decides vs p)
    nested-Decides (some e) null p = Decides-unit
    nested-Decides (some e) (bool _) p = Decides-unit
    nested-Decides (some e) (int _) p = Decides-unit
    nested-Decides (some e) (float _) p = Decides-unit
    nested-Decides (some e) (str _) p = Decides-unit
    nested-Decides (some e) (bytes _) p = Decides-unit
    nested-Decides (some e) (bytearray _) p = Decides-unit
    nested-Decides (some e) (memoryview _) p = Decides-unit
    nested-Decides (some e) (other _ _) p = Decides-unit

    plain-Decides :
        (v : Value) (p : Text) → Decides (plain_issues go v schema p) (ConformsBy C none v schema)
    unfolding plain_issues
    plain-Decides v p =
        by_tests (as_list (field_named schema (codes "enum")))
          (as_text (field_named schema (codes "type")))
          (nested-Decides (as_text (field_named schema (codes "type"))) v p)
      where
        by_tests :
            (enum : Option Items) (expected : Option Text)
            → {a : Option (List Issue)} {P : Type 0} → Decides a P
            → Decides
                (if not (enum_admits enum v)
                  then some (enum_issue p enum)
                  else if not (type_admits expected v)
                  then some (type_issue p expected v)
                  else a)
                ((enum_admits enum v ≡ true) × ((type_admits expected v ≡ true) × P))
        by_tests none none h = Decides-given (Decides-given h)
        by_tests none (some kind) h =
            Decides-given (Decides-guard (matches_type v kind) (wrong_type p kind v) h)
        by_tests (some vs) none h =
            Decides-guard (in_items v vs) (not_in_enum p vs) (Decides-given h)
        by_tests (some vs) (some kind) h =
            Decides-guard (in_items v vs) (not_in_enum p vs)
              (Decides-guard (matches_type v kind) (wrong_type p kind v) h)

    issues-Decides :
        (v : Value) (p : Text)
        → Decides
            (issues_by (as_list (field_named schema (codes "anyOf"))) go v schema p)
            (ConformsBy C (as_list (field_named schema (codes "anyOf"))) v schema)
    issues-Decides v p = by_options (as_list (field_named schema (codes "anyOf"))) refl
      where
        by_report :
            {P : Type 0} (o : Option Bool) → AnyDecides o P → Decides (alternatives_report p o) P
        by_report (some true) (to, from) = (λ h. to refl, λ x. refl)
        by_report (some false) (to, from) =
            (λ h. absurd (ground (arith, h)), λ x. absurd (ground (arith, from x)))
        by_report none (to, from) =
            (λ h. absurd (ground (arith, h)), λ x. absurd (ground (arith, from x)))

        by_options :
            (o : Option Items)
            → as_list (field_named schema (codes "anyOf")) ≡ o
            → Decides (issues_by o go v schema p) (ConformsBy C o v schema)
        by_options none e = plain-Decides v p
        by_options (some options) e = by_report (any_passes go v options p) (
            any-Decides n go C ends decides v options p (
              le_of_lt (
                as_list-lt (field_named schema (codes "anyOf")) options n (below (codes "anyOf"))
                  e)))

-- The walk with enough rounds decides what that many levels ask.
collect-Decides :
    (rounds : ℕ) (v : Value) (schema : Fields) (p : Text)
    → fields_nesting schema < rounds
    → Decides (collect rounds v schema p) (Conforms rounds v schema)
unfolding collect Conforms
collect-Decides zero v schema p h = absurd (omega arith)
collect-Decides (suc rounds) v schema p h =
    issues-Decides rounds (collect rounds) (Conforms rounds)
      (λ w s q d. collect-Ends rounds w s q d) (λ w s q d. collect-Decides rounds w s q d) schema h
      v p

-- A value passes validation by a schema that is a mapping exactly where it conforms to the schema
-- read as a description: to one of the alternatives if there are some, else to the enumeration,
-- the type, the required fields, and, level by level, the properties, extra fields and items.
pub validate_schema_value_decides :
    (value : Value) (schema : Fields)
    → (validate_schema_value value (dict schema) ≡ ok tt)
      ↔ Conforms (suc (fields_nesting schema)) value schema
unfolding validate_schema_value
validate_schema_value_decides value schema =
    by_result (collect (suc (fields_nesting schema)) value schema (codes "$"))
      (collect-Decides (suc (fields_nesting schema)) value schema (codes "$") (omega arith))
  where
    by_result : {P : Type 0} (o : Option (List Issue)) → Decides o P → (report o ≡ ok tt) ↔ P
    by_result none (to, from) =
        (λ h. absurd (ground (arith, h)), λ x. absurd (ground (arith, from x)))
    by_result (some []) (to, from) = (λ h. to refl, λ x. refl)
    by_result (some (i ∷ is)) (to, from) =
        (λ h. absurd (ground (arith, h)), λ x. absurd (ground (arith, from x)))
