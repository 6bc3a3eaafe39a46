-- ===== src/Native/Schema.antt =====
-- Validation in native/schema.py. A schema is a mapping of the program's own values, so the walk
-- goes by the nesting of the schema: `collect` takes that many rounds and gives none when they
-- do not suffice.
pub mod Rounds
pub mod Conforms
pub mod Verdicts
pub mod Decides
use Prim.Native.Nat.{max}
use cobalt_wren.Prelude.{
  ℕ, zero, suc, ◌+◌, Bool, true, false, not, ◌&&◌, ◌||◌, Option, none, some, List, [], ◌∷◌, ◌++◌,
  any, if◌then◌else◌,
}
use cobalt_wren.Prelude.Equality.{◌==◌, nat_eq, list_eq}
use cobalt_wren.Prelude.Result.{Result, ok, err}
use cobalt_wren.Prelude.Text.{Text, codes, decimal}
use cobalt_wren.Core.Value.{
  Value, null, bool, int, float, str, list, tuple, dict, Items, nil, cons, Fields, end, field, Key,
  name, foreign, key_text,
}
use cobalt_wren.Core.Compare.{find_field, field_named, in_items}

-- A line of the report, with the path that it is about.
pub data Issue : Type 0 where
  no_alternative : Text → Issue
  not_in_enum : Text → Items → Issue
  wrong_type : Text → Text → Value → Issue
  missing_field : Text → Text → Issue

-- `isinstance` tests on what `get` returns.
abbrev pub as_list : Option Value → Option Items
as_list (some (list vs)) = some vs
as_list _ = none

abbrev pub as_dict : Option Value → Option Fields
as_dict (some (dict fs)) = some fs
as_dict _ = none

abbrev pub as_text : Option Value → Option Text
as_text (some (str t)) = some t
as_text _ = none

abbrev pub is_kind : Value → Text → Bool
is_kind (dict _) kind = kind == codes "object"
is_kind (list _) kind = kind == codes "array"
is_kind (tuple _) kind = kind == codes "array"
is_kind (str _) kind = kind == codes "string"
is_kind (int _) kind = (kind == codes "integer") || (kind == codes "number")
is_kind (float _) kind = kind == codes "number"
is_kind (bool _) kind = kind == codes "boolean"
is_kind null kind = kind == codes "null"
is_kind _ kind = false

abbrev pub known_kinds : List Text
known_kinds =
    codes "object"
    ∷ codes "array"
    ∷ codes "string"
    ∷ codes "integer"
    ∷ codes "number"
    ∷ codes "boolean"
    ∷ codes "null"
    ∷ []

-- `_matches_type`: any value has a type that is not known.
unfoldable pub matches_type : Value → Text → Bool
matches_type value expected =
    if any (λ kind. kind == expected) known_kinds then is_kind value expected else true

-- A walk over a value and a schema at a path.
abbrev pub Collector : Type 0
Collector = Value → Fields → Text → Option (List Issue)

abbrev pub join : Option (List Issue) → Option (List Issue) → Option (List Issue)
join none more = none
join (some issues) none = none
join (some issues) (some more) = some (issues ++ more)

-- `f"{path}.{key}"` and `f"{path}[{index}]"`
abbrev pub at_key : Text → Text → Text
at_key path key = path ++ (codes "." ++ key)

abbrev pub at_index : Text → ℕ → Text
at_index path index = path ++ (codes "[" ++ (decimal index ++ codes "]"))

-- Whether one of the alternatives that are mappings has no issue.
abbrev pub either_passes : Option (List Issue) → Option Bool → Option Bool
either_passes none rest = none
either_passes (some []) rest = some true
either_passes (some (issue ∷ issues)) rest = rest

unfoldable pub any_passes : Collector → Value → Items → Text → Option Bool
any_passes go value nil path = some false
any_passes go value (cons (dict option) options) path =
    either_passes (go value option path) (any_passes go value options path)
any_passes go value (cons _ options) path = any_passes go value options path

abbrev pub alternatives_report : Text → Option Bool → Option (List Issue)
alternatives_report path none = none
alternatives_report path (some true) = some []
alternatives_report path (some false) = some (no_alternative path ∷ [])

-- The three parts for a mapping.
abbrev pub required_issue : Fields → Text → Value → List Issue
required_issue value path (str key) = elim (field_named value key) [
  | none ↦ missing_field path key ∷ []
  | some v ↦ []
]
required_issue value path _ = []

unfoldable pub required_issues : Fields → Items → Text → List Issue
required_issues value nil path = []
required_issues value (cons key keys) path =
    required_issue value path key ++ required_issues value keys path

abbrev pub property_issues : Collector → Fields → Text → Key → Value → Option (List Issue)
property_issues go value path (name key) (dict nested) = elim (field_named value key) [
  | none ↦ some []
  | some v ↦ go v nested (at_key path key)
]
property_issues go value path _ _ = some []

unfoldable pub properties_issues : Collector → Fields → Fields → Text → Option (List Issue)
properties_issues go value end path = some []
properties_issues go value (field key schema properties) path =
    join (property_issues go value path key schema) (properties_issues go value properties path)

unfoldable pub additional_issues : Collector → Fields → Fields → Fields → Text → Option (List Issue)
additional_issues go known additional end path = some []
additional_issues go known additional (field key nested value) path =
    let rest = additional_issues go known additional value path in
    elim (find_field known key) [
      | none ↦ join (go nested additional (at_key path (key_text key))) rest
      | some s ↦ rest
    ]

unfoldable pub items_issues : Collector → Fields → Items → ℕ → Text → Option (List Issue)
items_issues go schema nil index path = some []
items_issues go schema (cons item items) index path =
    join (go item schema (at_index path index)) (items_issues go schema items (suc index) path)

-- What an absent part contributes.
abbrev pub known_properties : Option Fields → Fields
known_properties none = end
known_properties (some properties) = properties

abbrev pub required_part : Option Items → Fields → Text → List Issue
required_part none value path = []
required_part (some keys) value path = required_issues value keys path

abbrev pub properties_part : Option Fields → Collector → Fields → Text → Option (List Issue)
properties_part none go value path = some []
properties_part (some properties) go value path = properties_issues go value properties path

abbrev pub additional_part :
    Option Fields → Fields → Collector → Fields → Text → Option (List Issue)
additional_part none known go value path = some []
additional_part (some additional) known go value path =
    additional_issues go known additional value path

unfoldable pub object_issues : Collector → Fields → Fields → Text → Option (List Issue)
object_issues go schema value path =
    let properties = as_dict (field_named schema (codes "properties")) in
    join (some (required_part (as_list (field_named schema (codes "required"))) value path)) (
      join (properties_part properties go value path) (
        additional_part (as_dict (field_named schema (codes "additionalProperties")))
          (known_properties properties) go value path))

abbrev pub items_part : Option Fields → Collector → Items → Text → Option (List Issue)
items_part none go items path = some []
items_part (some schema) go items path = items_issues go schema items 0 path

unfoldable pub array_issues : Collector → Fields → Items → Text → Option (List Issue)
array_issues go schema items path =
    items_part (as_dict (field_named schema (codes "items"))) go items path

-- The walk into a value whose type was found right.
unfoldable pub nested_issues : Collector → Option Text → Value → Fields → Text → Option (List Issue)
unfolding object_issues array_issues
nested_issues go none value schema path = some []
nested_issues go (some expected) (dict fs) schema path =
    if expected == codes "object" then object_issues go schema fs path else some []
nested_issues go (some expected) (list vs) schema path =
    if expected == codes "array" then array_issues go schema vs path else some []
nested_issues go (some expected) (tuple vs) schema path =
    if expected == codes "array" then array_issues go schema vs path else some []
nested_issues go (some expected) _ schema path = some []

abbrev pub enum_admits : Option Items → Value → Bool
enum_admits none value = true
enum_admits (some values) value = in_items value values

abbrev pub type_admits : Option Text → Value → Bool
type_admits none value = true
type_admits (some expected) value = matches_type value expected

abbrev pub enum_issue : Text → Option Items → List Issue
enum_issue path none = []
enum_issue path (some values) = not_in_enum path values ∷ []

abbrev pub type_issue : Text → Option Text → Value → List Issue
type_issue path none value = []
type_issue path (some expected) value = wrong_type path expected value ∷ []

-- After `anyOf`: the tests of `enum` and `type`, which end the walk, and the nested values.
unfoldable pub plain_issues : Collector → Value → Fields → Text → Option (List Issue)
unfolding nested_issues
plain_issues go value schema path =
    let enum = as_list (field_named schema (codes "enum")) in
    let expected = as_text (field_named schema (codes "type")) in
    if not (enum_admits enum value)
    then some (enum_issue path enum)
    else if not (type_admits expected value)
    then some (type_issue path expected value)
    else nested_issues go expected value schema path

abbrev pub issues_by : Option Items → Collector → Value → Fields → Text → Option (List Issue)
issues_by (some options) go value schema path =
    alternatives_report path (any_passes go value options path)
issues_by none go value schema path = plain_issues go value schema path

-- `_collect_schema_issues`
unfoldable pub collect : ℕ → Collector
collect zero value schema path = none
collect (suc rounds) value schema path =
    issues_by (as_list (field_named schema (codes "anyOf"))) (collect rounds) value schema path

-- The nesting of a schema.
unfoldable mutual
  pub nesting : Value → ℕ
  nesting (list vs) = suc (items_nesting vs)
  nesting (dict fs) = suc (fields_nesting fs)
  nesting _ = 0

  pub items_nesting : Items → ℕ
  items_nesting nil = 0
  items_nesting (cons v vs) = max (nesting v) (items_nesting vs)

  pub fields_nesting : Fields → ℕ
  fields_nesting end = 0
  fields_nesting (field k v fs) = max (nesting v) (fields_nesting fs)

-- NativeSchemaValidationError, and a walk that was cut short.
pub data SchemaError : Type 0 where
  validation_failed : List Issue → SchemaError
  out_of_rounds : SchemaError

abbrev pub report : Option (List Issue) → Result SchemaError (Unit {0})
report none = err out_of_rounds
report (some []) = ok tt
report (some (issue ∷ issues)) = err (validation_failed (issue ∷ issues))

-- A schema that is no mapping validates everything.
unfoldable pub validate_schema_value : Value → Value → Result SchemaError (Unit {0})
unfolding nesting
validate_schema_value value (dict schema) =
    report (collect (suc (fields_nesting schema)) value schema (codes "$"))
validate_schema_value value _ = ok tt
