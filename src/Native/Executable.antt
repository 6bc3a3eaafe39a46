-- ===== src/Native/Executable.antt =====
-- `NativeWorkflow` and `NativeExecutable` of native/__init__.py. The workflow's function is a
-- parameter: any calls on the context and the world.
pub mod Outcomes
use cobalt_wren.Prelude.{
  ℕ, Bool, true, false, not, Option, none, some, List, [], ◌∷◌, ◌++◌, if◌then◌else◌,
}
use cobalt_wren.Prelude.Result.{Result, ok, err}
use cobalt_wren.Prelude.Text.{Text, codes}
use cobalt_wren.Core.Value.{Value, null, dict, Fields, end, field, name}
use cobalt_wren.Native.Buffer.{Observations, last_step_name, attempt_count}
use cobalt_wren.Native.Names.{NameError, required_name}
use cobalt_wren.Native.Policies.{is_instance}
use cobalt_wren.Native.Replay.{EventSink, replay}
use cobalt_wren.Native.Schema.{SchemaError, validate_schema_value}
use cobalt_wren.Native.Steps.{StepError, thrown, Context, new_context, Calls}

-- What a workflow's function returns: a WorkflowExecutionResult with its output, or another value.
pub data Returned : Type 0 where
  execution_result : Fields → Returned
  plain : Value → Returned

-- `_normalize_output`
unfoldable pub normalize_output : Returned → Fields
normalize_output (execution_result output) = output
normalize_output (plain (dict fs)) = fs
normalize_output (plain null) = end
normalize_output (plain value) = field (name (codes "result")) value end

-- The requirements are kept as they are.
pub record NativeWorkflow (S R : Type 0) : Type 0 where
  pub workflow_name : Text
  pub function : Fields → Calls S Returned
  pub description : Text
  pub version : Text
  pub tags : List Text
  pub input_schema : Option Fields
  pub output_schema : Option Fields
  pub requirements : R

-- A workflow's result with its metadata.
pub record NativeResult : Type 0 where
  pub output : Fields
  pub step_count : ℕ
  pub attempt_count : ℕ
  pub last_step_name : Text

pub data ExecutionError : Type 0 where
  input_invalid output_invalid : SchemaError → ExecutionError
  workflow_raised : StepError → ExecutionError

-- A schema as the validation takes it.
abbrev pub schema_value : Option Fields → Value
schema_value none = null
schema_value (some schema) = dict schema

abbrev pub validated_output :
    Option Fields → Observations → ℕ → Fields → Result ExecutionError NativeResult
validated_output schema observations sequence result =
    elim (validate_schema_value (dict result) (schema_value schema)) [
      | err e ↦ err (output_invalid e)
      | ok u ↦ ok (record {
        output = result;
        step_count = sequence;
        attempt_count = attempt_count observations.operations;
        last_step_name = last_step_name observations;
      })
    ]

abbrev pub finished :
    Option Fields → Context → Result StepError Returned → Result ExecutionError NativeResult
finished schema context (err e) = err (workflow_raised e)
finished schema context (ok returned) =
    validated_output schema context.observations context.sequence (normalize_output returned)

-- An exception that `except Exception` lets pass.
abbrev pub is_interrupted : Result StepError Returned → Bool
is_interrupted (err (thrown e)) = not (is_instance e (codes "Exception" ∷ []))
is_interrupted _ = false

module _ {S R : Type 0} (workflow : NativeWorkflow S R) where
  -- The run of the workflow's function; the observations are replayed whatever its outcome, unless
  -- it is interrupted.
  abbrev pub run_and_replay :
      Option (EventSink S) → Value → Fields → S → Result ExecutionError NativeResult × S
  run_and_replay sink run_id input_payload s =
      let done = workflow.function input_payload (new_context, s) in
      (
        finished workflow.output_schema done.1.0 done.0,
        if is_interrupted done.0
            then done.1.1
            else replay sink run_id done.1.0.observations.operations done.1.1,
      )

  -- `NativeExecutable.execute`
  unfoldable pub execute :
      Option (EventSink S) → Value → Fields → S → Result ExecutionError NativeResult × S
  execute sink run_id input_payload s =
      elim (validate_schema_value (dict input_payload) (schema_value workflow.input_schema)) [
        | err e ↦ (err (input_invalid e), s)
        | ok u ↦ run_and_replay sink run_id input_payload s
      ]

-- The WorkflowContribution of a native workflow, with the fields of its definition and metadata.
pub record NativeContribution (R : Type 0) : Type 0 where
  pub kind : Text
  pub display_name : Text
  pub description : Text
  pub version : Text
  pub tags : List Text
  pub requirements : R
  pub input_schema : Option Fields
  pub output_schema : Option Fields

-- `given or own`: an empty mapping counts as none.
abbrev pub schema_or : Option Fields → Option Fields → Option Fields
schema_or none own = own
schema_or (some end) own = own
schema_or (some (field k v fs)) own = some (field k v fs)

abbrev pub given_or {ℓ} : {A : Type ℓ} → Option A → A → A
given_or none own = own
given_or (some given) own = given

-- `NativeWorkflow.contribution`
unfoldable pub contribution :
    {S R : Type 0}
    → NativeWorkflow S R
    → Text
    → Option R
    → Option Fields
    → Option Fields
    → Result NameError (NativeContribution R)
contribution workflow kind requirements input_schema output_schema =
    elim (required_name kind (codes "workflow kind")) [
      | err e ↦ err e
      | ok workflow_kind ↦ ok (record {
        kind = workflow_kind;
        display_name = workflow.workflow_name;
        description = workflow.description;
        version = workflow.version;
        tags = workflow.tags ++ codes "native" ∷ [];
        requirements = given_or requirements workflow.requirements;
        input_schema = schema_or input_schema workflow.input_schema;
        output_schema = schema_or output_schema workflow.output_schema;
      })
    ]
