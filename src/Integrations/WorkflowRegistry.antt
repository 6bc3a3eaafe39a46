-- ===== src/Integrations/WorkflowRegistry.antt =====
-- integrations/workflows/registry.py: registering and looking up. What a definition holds beside
-- its identifier is of a type `D` whose equality is decided, and a provider of a type `P`.
use cobalt_wren.Prelude.{not, Option, none, some, List}
use cobalt_wren.Prelude.Dict.{Dict, get, put, has, values}
use cobalt_wren.Prelude.Equality.{Eq, ◌==◌, nat_eq, list_eq}
use cobalt_wren.Prelude.Result.{Result, ok, err, ◌>>=◌, ◌>>◌, guard}
use cobalt_wren.Prelude.Text.{Text}

pub data IntegrationError : Type 0 where
  duplicate_integration definition_mismatch duplicate_provider unknown_integration :
      Text → IntegrationError

pub record WorkflowIntegrationRegistry (D P : Type 0) : Type 0 where
  pub definitions : Dict Text D
  pub providers : Dict Text P

module _ {D P : Type 0} ⦃e : Eq D⦄ where
  unfoldable pub register_definition :
      WorkflowIntegrationRegistry D P
      → Text
      → D
      → Result IntegrationError (WorkflowIntegrationRegistry D P)
  register_definition self integration_id definition = do
    guard (not (has self.definitions integration_id)) (duplicate_integration integration_id)
    ok (record self { definitions = put self.definitions integration_id definition })

  abbrev pub ensure_definition :
      WorkflowIntegrationRegistry D P
      → Text
      → D
      → Option D
      → Result IntegrationError (WorkflowIntegrationRegistry D P)
  unfolding register_definition
  ensure_definition self integration_id definition none =
      register_definition self integration_id definition
  ensure_definition self integration_id definition (some existing) = do
    guard (existing == definition) (definition_mismatch integration_id)
    ok self

  -- A provider comes with the identifier and the definition that it is for.
  unfoldable pub register_provider :
      WorkflowIntegrationRegistry D P
      → Text
      → D
      → P
      → Result IntegrationError (WorkflowIntegrationRegistry D P)
  register_provider self integration_id definition provider = do
    defined ← ensure_definition self integration_id definition (get self.definitions integration_id)
    guard (not (has defined.providers integration_id)) (duplicate_provider integration_id)
    ok (record defined { providers = put defined.providers integration_id provider })

  unfoldable pub list_definitions : WorkflowIntegrationRegistry D P → List D
  list_definitions self = values self.definitions

  unfoldable pub get_definition : WorkflowIntegrationRegistry D P → Text → Result IntegrationError D
  get_definition self integration_id = elim (get self.definitions integration_id) [
    | none ↦ err (unknown_integration integration_id)
    | some definition ↦ ok definition
  ]
