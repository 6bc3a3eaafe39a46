-- ===== src/Plugins/Examples.antt =====
-- The theorems on plugins and requirements at concrete plugins.
use cobalt_wren.Prelude.{ℕ, true, false, [], ◌∷◌, ◌++◌, ◌≡◌, refl}
use cobalt_wren.Prelude.Equality.{nat_eq, list_eq, pair_eq}
use cobalt_wren.Prelude.Dict.{has, put}
use cobalt_wren.Prelude.Result.{ok}
use cobalt_wren.Prelude.Text.{codes}
use cobalt_wren.Plugins.Registry.{
  Plugin, empty_registry, register, register_all, list_plugins, check_contributions,
  write_contributions,
}
use cobalt_wren.Plugins.Registry.Registration.{
  CanRegister, extended, register_sound, register_complete,
}
use cobalt_wren.Plugins.Registry.Resolution.{list_plugins-register_all}
use cobalt_wren.Plugins.Requirements.{
  WorkflowRequirements, RuntimeDependencies, AreMet, check_names, check_workflow_requirements,
  check_workflow_requirements_sound, check_workflow_requirements_complete,
}

abbrev tools_plugin : Plugin ℕ
tools_plugin = record {
  name = codes "tools";
  workflows = [];
  tools = (codes "t", 1) ∷ (codes "u", 2) ∷ [];
  providers = [];
  stores = ((codes "artifact", codes "memory"), 3) ∷ [];
  event_sinks = [];
}

abbrev sinks_plugin : Plugin ℕ
sinks_plugin = record {
  name = codes "sinks";
  workflows = [];
  tools = [];
  providers = [];
  stores = [];
  event_sinks = (codes "django", 4) ∷ [];
}

tools_can : CanRegister {O = ℕ} empty_registry tools_plugin
tools_can = (refl, tt, (refl, refl, (refl, refl, tt)), tt, (refl, refl, tt), tt)

register_complete_example :
    register empty_registry tools_plugin ≡ ok (extended empty_registry tools_plugin)
register_complete_example = register_complete empty_registry tools_plugin tools_can

tools_registered : register empty_registry tools_plugin ≡ ok (extended empty_registry tools_plugin)
tools_registered = register_complete empty_registry tools_plugin tools_can

register_sound_example :
    CanRegister empty_registry tools_plugin
    × (extended empty_registry tools_plugin ≡ extended empty_registry tools_plugin)
register_sound_example = register_sound empty_registry tools_plugin tools_registered

both_registered :
    register_all empty_registry (tools_plugin ∷ sinks_plugin ∷ [])
    ≡ ok (extended (extended empty_registry tools_plugin) sinks_plugin)
unfolding register_all register check_contributions write_contributions has put
both_registered = refl

list_plugins-register_all_example :
    list_plugins (extended (extended empty_registry tools_plugin) sinks_plugin)
    ≡ list_plugins {O = ℕ} empty_registry ++ (tools_plugin ∷ sinks_plugin ∷ [])
list_plugins-register_all_example =
    list_plugins-register_all empty_registry (tools_plugin ∷ sinks_plugin ∷ []) both_registered

abbrev needs : WorkflowRequirements
needs = record {
  provider_profiles = codes "default" ∷ [];
  tools = codes "t" ∷ [];
  artifact_store = true;
  checkpoint_store = false;
  event_sinks = [];
}

abbrev offers : RuntimeDependencies
offers = record {
  providers = codes "spare" ∷ codes "default" ∷ [];
  tools = codes "t" ∷ codes "u" ∷ [];
  artifact_store = true;
  checkpoint_store = false;
  event_sinks = codes "django" ∷ [];
}

checked : check_workflow_requirements needs offers ≡ ok tt
unfolding check_workflow_requirements check_names
checked = refl

check_workflow_requirements_sound_example : AreMet needs offers
check_workflow_requirements_sound_example = check_workflow_requirements_sound needs offers checked

offers_meet : AreMet needs offers
offers_meet = ((refl, tt), (refl, tt), (λ h. refl), (λ h. h), tt)

check_workflow_requirements_complete_example : check_workflow_requirements needs offers ≡ ok tt
check_workflow_requirements_complete_example =
    check_workflow_requirements_complete needs offers offers_meet
