-- ===== src/Plugins/Requirements.antt =====
-- workflows/requirements.py.
use cobalt_wren.Prelude.{
  Bool, true, false, not, ◌&&◌, List, [], ◌∷◌, if◌then◌else◌, ◌≡◌, refl, arith,
}
use cobalt_wren.Prelude.Equality.{nat_eq, list_eq}
use cobalt_wren.Prelude.Result.{Result, ok, err, ◌>>◌, guard, on_ok}
use cobalt_wren.Prelude.Text.{Text}
use cobalt_wren.Plugins.Registry.{member}

pub record WorkflowRequirements : Type 0 where
  pub provider_profiles : List Text
  pub tools : List Text
  pub artifact_store : Bool
  pub checkpoint_store : Bool
  pub event_sinks : List Text

-- The names of a dependency bundle, and which stores are not None.
pub record RuntimeDependencies : Type 0 where
  pub providers : List Text
  pub tools : List Text
  pub artifact_store : Bool
  pub checkpoint_store : Bool
  pub event_sinks : List Text

-- WORKFLOW_REQUIREMENT_MISSING: the type of the requirement and its name.
pub data MissingRequirement : Type 0 where
  missing_provider_profile missing_tool missing_event_sink : Text → MissingRequirement
  missing_artifact_store missing_checkpoint_store : MissingRequirement

-- One of the three loops.
unfoldable pub check_names :
    (Text → MissingRequirement) → List Text → List Text → Result MissingRequirement (Unit {0})
check_names missing bundle [] = ok tt
check_names missing bundle (name ∷ names) =
    let rest = check_names missing bundle names in
    if not (member bundle name) then err (missing name) else rest

unfoldable pub check_workflow_requirements :
    WorkflowRequirements → RuntimeDependencies → Result MissingRequirement (Unit {0})
check_workflow_requirements requirements dependencies = do
  check_names missing_provider_profile dependencies.providers requirements.provider_profiles
  check_names missing_tool dependencies.tools requirements.tools
  guard (not (requirements.artifact_store && not dependencies.artifact_store))
      missing_artifact_store
  guard (not (requirements.checkpoint_store && not dependencies.checkpoint_store))
      missing_checkpoint_store
  check_names missing_event_sink dependencies.event_sinks requirements.event_sinks

abbrev pub AllIn : List Text → List Text → Type 0
AllIn bundle [] = Unit
AllIn bundle (name ∷ names) = (member bundle name ≡ true) × AllIn bundle names

-- What a workflow declares that it needs is there.
abbrev pub AreMet : WorkflowRequirements → RuntimeDependencies → Type 0
AreMet requirements dependencies =
    AllIn dependencies.providers requirements.provider_profiles
    × AllIn dependencies.tools requirements.tools
    × (requirements.artifact_store ≡ true → dependencies.artifact_store ≡ true)
    × (requirements.checkpoint_store ≡ true → dependencies.checkpoint_store ≡ true)
    × AllIn dependencies.event_sinks requirements.event_sinks

name_passed :
    (b : Bool) (x : MissingRequirement) {rest : Result MissingRequirement (Unit {0})} {u : Unit {0}}
    → (if not b then err x else rest) ≡ ok u
    → (b ≡ true) × (rest ≡ ok u)
name_passed true x h = (refl, h)
name_passed false x h = ground (arith, h)

check_names-AllIn :
    (missing : Text → MissingRequirement) (bundle names : List Text) {u : Unit {0}}
    → check_names missing bundle names ≡ ok u
    → AllIn bundle names
unfolding check_names
check_names-AllIn missing bundle [] h = tt
check_names-AllIn missing bundle (name ∷ names) h =
    let (here_in, rest) = name_passed (member bundle name) (missing name) h in
    (here_in, check_names-AllIn missing bundle names rest)

AllIn-check_names :
    (missing : Text → MissingRequirement) (bundle names : List Text)
    → AllIn bundle names
    → check_names missing bundle names ≡ ok tt
unfolding check_names
AllIn-check_names missing bundle [] h = refl
AllIn-check_names missing bundle (name ∷ names) h =
    rw h.0 (AllIn-check_names missing bundle names h.1)

store_passed :
    (required present : Bool) (x : MissingRequirement) {u : Unit {0}}
    → guard (not (required && not present)) x ≡ ok u
    → required ≡ true
    → present ≡ true
store_passed true true x h r = refl
store_passed true false x h r = ground (arith, h)
store_passed false present x h r = ground (arith, r)

passed_store :
    (required present : Bool) (x : MissingRequirement)
    → (required ≡ true → present ≡ true)
    → guard (not (required && not present)) x ≡ ok tt
passed_store true present x h = rw (h refl) refl
passed_store false present x h = refl

-- A check that succeeds leaves no requirement unmet.
pub check_workflow_requirements_sound :
    (requirements : WorkflowRequirements) (dependencies : RuntimeDependencies) {u : Unit {0}}
    → check_workflow_requirements requirements dependencies ≡ ok u
    → AreMet requirements dependencies
unfolding check_workflow_requirements
check_workflow_requirements_sound requirements dependencies h =
    on_ok
      (check_names missing_provider_profile dependencies.providers requirements.provider_profiles) _
      h
      λ _ p h1.
        on_ok (check_names missing_tool dependencies.tools requirements.tools) _ h1 λ _ t h2.
          on_ok
            (guard (not (requirements.artifact_store && not dependencies.artifact_store))
              missing_artifact_store)
            _ h2
            λ _ a h3.
              on_ok
                (guard (not (requirements.checkpoint_store && not dependencies.checkpoint_store))
                  missing_checkpoint_store)
                _ h3
                λ _ c h4. (
                  check_names-AllIn missing_provider_profile dependencies.providers
                      requirements.provider_profiles p,
                  check_names-AllIn missing_tool dependencies.tools requirements.tools t,
                  store_passed requirements.artifact_store dependencies.artifact_store
                      missing_artifact_store a,
                  store_passed requirements.checkpoint_store dependencies.checkpoint_store
                      missing_checkpoint_store c,
                  check_names-AllIn missing_event_sink dependencies.event_sinks
                      requirements.event_sinks h4,
                )

-- When every requirement is met, the check succeeds.
pub check_workflow_requirements_complete :
    (requirements : WorkflowRequirements) (dependencies : RuntimeDependencies)
    → AreMet requirements dependencies
    → check_workflow_requirements requirements dependencies ≡ ok tt
unfolding check_workflow_requirements
check_workflow_requirements_complete requirements dependencies (p, t, a, c, s) =
    rw
      (AllIn-check_names missing_provider_profile dependencies.providers
        requirements.provider_profiles p)
      (rw (AllIn-check_names missing_tool dependencies.tools requirements.tools t) (
        rw
          (passed_store requirements.artifact_store dependencies.artifact_store
            missing_artifact_store a)
          (rw
            (passed_store requirements.checkpoint_store dependencies.checkpoint_store
              missing_checkpoint_store c)
            (AllIn-check_names missing_event_sink dependencies.event_sinks requirements.event_sinks
              s))))
