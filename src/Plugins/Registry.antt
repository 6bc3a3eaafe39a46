-- ===== src/Plugins/Registry.antt =====
-- plugins/registry.py. A contribution is its key and an object of the type `O`, which the registry
-- only stores.
pub mod Registration
pub mod Resolution
use cobalt_wren.Prelude.{
  Bool, true, false, not, ◌||◌, Option, none, some, List, [], ◌∷◌, any, if◌then◌else◌,
}
use cobalt_wren.Prelude.Dict.{Dict, get, put, has, values}
use cobalt_wren.Prelude.Equality.{Eq, ◌==◌, nat_eq, list_eq, pair_eq}
use cobalt_wren.Prelude.Result.{Result, ok, err, ◌>>=◌, ◌>>◌, guard}
use cobalt_wren.Prelude.Text.{Text}

-- The store type and the name of the backend.
abbrev pub StoreKey : Type 0
StoreKey = Text × Text

pub record Plugin (O : Type 0) : Type 0 where
  pub name : Text
  pub workflows : List (Text × O)
  pub tools : List (Text × O)
  pub providers : List (Text × O)
  pub stores : List (StoreKey × O)
  pub event_sinks : List (Text × O)

pub record PluginRegistry (O : Type 0) : Type 0 where
  pub plugins : Dict Text (Plugin O)
  pub workflows : Dict Text O
  pub tools : Dict Text O
  pub providers : Dict Text O
  pub stores : Dict StoreKey O
  pub event_sinks : Dict Text O

-- PLUGIN_DUPLICATE_NAME, the cases of PLUGIN_CONTRIBUTION_CONFLICT, and the resolution errors.
pub data PluginError : Type 0 where
  duplicate_plugin duplicate_workflow duplicate_tool duplicate_provider : Text → PluginError
  duplicate_store : StoreKey → PluginError
  duplicate_event_sink : Text → PluginError
  unknown_plugin unknown_tool unknown_workflow unknown_provider : Text → PluginError
  unknown_store : StoreKey → PluginError
  unknown_event_sink : Text → PluginError

module _ {K : Type 0} ⦃e : Eq K⦄ where
  -- `key in seen`
  abbrev pub member : List K → K → Bool
  member seen k = any (λ j. j == k) seen

module _ {K V : Type 0} ⦃e : Eq K⦄ where
  -- One of the five loops of `register` that look for a key that is taken.
  unfoldable pub check_contributions :
      (K → PluginError) → Dict K V → List K → List (K × V) → Result PluginError (Unit {0})
  check_contributions conflict registered seen [] = ok tt
  check_contributions conflict registered seen ((k, v) ∷ cs) =
      let rest = check_contributions conflict registered (k ∷ seen) cs in
      if member seen k || has registered k then err (conflict k) else rest

  -- One of the five loops of `register` that write.
  unfoldable pub write_contributions : Dict K V → List (K × V) → Dict K V
  write_contributions registered [] = registered
  write_contributions registered ((k, v) ∷ cs) = write_contributions (put registered k v) cs

  -- One of the `get_...` methods.
  unfoldable pub resolve : (K → PluginError) → Dict K V → K → Result PluginError V
  resolve unknown registered k = elim (get registered k) [ none ↦ err (unknown k) | some v ↦ ok v ]

module _ {O : Type 0} where
  abbrev pub empty_registry : PluginRegistry O
  empty_registry = record {
    plugins = [];
    workflows = [];
    tools = [];
    providers = [];
    stores = [];
    event_sinks = [];
  }

  -- All tests come before the first write.
  unfoldable pub register : PluginRegistry O → Plugin O → Result PluginError (PluginRegistry O)
  register self plugin = do
    guard (not (has self.plugins plugin.name)) (duplicate_plugin plugin.name)
    check_contributions duplicate_workflow self.workflows [] plugin.workflows
    check_contributions duplicate_tool self.tools [] plugin.tools
    check_contributions duplicate_provider self.providers [] plugin.providers
    check_contributions duplicate_store self.stores [] plugin.stores
    check_contributions duplicate_event_sink self.event_sinks [] plugin.event_sinks
    ok (record {
      plugins = put self.plugins plugin.name plugin;
      workflows = write_contributions self.workflows plugin.workflows;
      tools = write_contributions self.tools plugin.tools;
      providers = write_contributions self.providers plugin.providers;
      stores = write_contributions self.stores plugin.stores;
      event_sinks = write_contributions self.event_sinks plugin.event_sinks;
    })

  -- The constructor: every plugin in turn.
  unfoldable pub register_all :
      PluginRegistry O → List (Plugin O) → Result PluginError (PluginRegistry O)
  unfolding register
  register_all self [] = ok self
  register_all self (plugin ∷ plugins) = do next ← register self plugin; register_all next plugins

  unfoldable pub get_plugin : PluginRegistry O → Text → Result PluginError (Plugin O)
  unfolding resolve
  get_plugin self = resolve unknown_plugin self.plugins

  unfoldable pub get_tool : PluginRegistry O → Text → Result PluginError O
  unfolding resolve
  get_tool self = resolve unknown_tool self.tools

  unfoldable pub get_workflow : PluginRegistry O → Text → Result PluginError O
  unfolding resolve
  get_workflow self = resolve unknown_workflow self.workflows

  unfoldable pub get_provider : PluginRegistry O → Text → Result PluginError O
  unfolding resolve
  get_provider self = resolve unknown_provider self.providers

  unfoldable pub get_store : PluginRegistry O → Text → Text → Result PluginError O
  unfolding resolve
  get_store self store_type backend_name =
      resolve unknown_store self.stores (store_type, backend_name)

  unfoldable pub get_event_sink : PluginRegistry O → Text → Result PluginError O
  unfolding resolve
  get_event_sink self = resolve unknown_event_sink self.event_sinks

  unfoldable pub list_plugins : PluginRegistry O → List (Plugin O)
  list_plugins self = values self.plugins
