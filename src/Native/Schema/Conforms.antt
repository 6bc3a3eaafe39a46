-- ===== src/Native/Schema/Conforms.antt =====
-- What the schemas of native/schema.py mean.
use cobalt_wren.Prelude.{ℕ, zero, suc, Bool, true, false, Option, none, some, ◌≡◌, ◌≢◌, ◌⊎◌}
use cobalt_wren.Prelude.Equality.{◌==◌, nat_eq, list_eq}
use cobalt_wren.Prelude.Text.{Text, codes}
use cobalt_wren.Core.Value.{
  Value, str, list, tuple, dict, Items, nil, cons, Fields, end, field, name, foreign,
}
use cobalt_wren.Core.Compare.{find_field, field_named}
use cobalt_wren.Native.Schema.{
  as_list, as_dict, as_text, known_properties, enum_admits, type_admits,
}

abbrev pub Required : Fields → Items → Type 0
Required value nil = Unit
Required value (cons (str key) keys) = (field_named value key ≢ none) × Required value keys
Required value (cons _ keys) = Required value keys

abbrev pub IfGiven {ℓ} : {A : Type ℓ} → Option A → (A → Type 0) → Type 0
IfGiven none P = Unit
IfGiven (some a) P = P a

abbrev pub When : Bool → Type 0 → Type 0
When true P = P
When false P = Unit

-- What a schema asks of a value, by the number of its levels; the parts of the walk without its
-- paths, messages and order. `C` says what the next level asks.
module _ (C : Value → Fields → Type 0) where
  abbrev pub ConformsToOne : Value → Items → Type 0
  ConformsToOne v nil = ⊥
  ConformsToOne v (cons (dict option) options) = C v option ⊎ ConformsToOne v options
  ConformsToOne v (cons _ options) = ConformsToOne v options

  -- A property that the value has conforms to the schema of the property.
  abbrev pub PropertyConforms : Value → Option Value → Type 0
  PropertyConforms (dict nested) (some v) = C v nested
  PropertyConforms _ _ = Unit

  abbrev pub PropertiesConform : Fields → Fields → Type 0
  PropertiesConform value end = Unit
  PropertiesConform value (field (name k) s properties) =
      PropertyConforms s (field_named value k) × PropertiesConform value properties
  PropertiesConform value (field (foreign k) s properties) = PropertiesConform value properties

  abbrev pub ExtraConforms : Option Value → Value → Fields → Type 0
  ExtraConforms none v additional = C v additional
  ExtraConforms (some _) v additional = Unit

  -- A value under a key that is no property conforms to `additional`.
  abbrev pub ExtrasConform : Fields → Fields → Fields → Type 0
  ExtrasConform known additional end = Unit
  ExtrasConform known additional (field k v value) =
      ExtraConforms (find_field known k) v additional × ExtrasConform known additional value

  abbrev pub ItemsConform : Fields → Items → Type 0
  ItemsConform schema nil = Unit
  ItemsConform schema (cons v items) = C v schema × ItemsConform schema items

  abbrev pub DictConforms : Fields → Fields → Type 0
  DictConforms schema value =
      IfGiven (as_list (field_named schema (codes "required"))) (Required value)
      × (IfGiven (as_dict (field_named schema (codes "properties"))) (PropertiesConform value)
          × IfGiven (as_dict (field_named schema (codes "additionalProperties"))) (λ additional.
            ExtrasConform (known_properties (as_dict (field_named schema (codes "properties"))))
              additional value))

  abbrev pub ListConforms : Fields → Items → Type 0
  ListConforms schema items =
      IfGiven (as_dict (field_named schema (codes "items"))) (λ s. ItemsConform s items)

  -- The parts of a schema count where its type is "object" or "array" and the value is such.
  abbrev pub PartsConform : Option Text → Value → Fields → Type 0
  PartsConform (some kind) (dict fs) schema = When (kind == codes "object") (DictConforms schema fs)
  PartsConform (some kind) (list vs) schema = When (kind == codes "array") (ListConforms schema vs)
  PartsConform (some kind) (tuple vs) schema = When (kind == codes "array") (ListConforms schema vs)
  PartsConform _ _ schema = Unit

  -- With alternatives a value conforms to one of them; else it is in the enumeration, has the
  -- type, and what it holds conforms to the parts.
  abbrev pub ConformsBy : Option Items → Value → Fields → Type 0
  ConformsBy (some options) v schema = ConformsToOne v options
  ConformsBy none v schema =
      (enum_admits (as_list (field_named schema (codes "enum"))) v ≡ true)
      × ((type_admits (as_text (field_named schema (codes "type"))) v ≡ true)
          × PartsConform (as_text (field_named schema (codes "type"))) v schema)

unfoldable pub Conforms : ℕ → Value → Fields → Type 0
Conforms zero v schema = ⊥
Conforms (suc levels) v schema =
    ConformsBy (Conforms levels) (as_list (field_named schema (codes "anyOf"))) v schema
