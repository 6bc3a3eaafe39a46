-- ===== src/Native/Executable/Outcomes.antt =====
-- What an execution of a native workflow has done when it returns, native/__init__.py.
use cobalt_wren.Prelude.{ℕ, suc, Option, none, some, ◌≡◌, refl, subst, arith}
use cobalt_wren.Prelude.Result.{Result, ok, err, ok-injective}
use cobalt_wren.Core.Value.{Value, dict, Fields}
use cobalt_wren.Native.Buffer.{Observations, attempt_count, last_step_name}
use cobalt_wren.Native.Replay.{EventSink}
use cobalt_wren.Native.Schema.{SchemaError, validate_schema_value, fields_nesting}
use cobalt_wren.Native.Schema.Conforms.{Conforms}
use cobalt_wren.Native.Schema.Decides.{validate_schema_value_decides}
use cobalt_wren.Native.Steps.{StepError, Context, new_context}
use cobalt_wren.Native.Executable.{
  NativeWorkflow, NativeResult, ExecutionError, input_invalid, output_invalid, Returned,
  normalize_output, schema_value, validated_output, finished, run_and_replay, execute,
}

-- A value conforms to the schema that is given, if one is.
abbrev pub ConformsTo : Option Fields → Fields → Type 0
ConformsTo none fs = Unit
ConformsTo (some schema) fs = Conforms (suc (fields_nesting schema)) (dict fs) schema

conforms_if_valid :
    (schema : Option Fields) (fs : Fields) (u : Unit {0})
    → validate_schema_value (dict fs) (schema_value schema) ≡ ok u
    → ConformsTo schema fs
conforms_if_valid none fs u h = tt
conforms_if_valid (some schema) fs u h = (validate_schema_value_decides (dict fs) schema).0 h

validated_output-ok :
    (schema : Option Fields) (observations : Observations) (sequence : ℕ) (output : Fields)
    (result : NativeResult)
    → validated_output schema observations sequence output ≡ ok result
    → ConformsTo schema result.output × (result.step_count ≡ sequence)
validated_output-ok schema observations sequence output result h =
    by_validation (validate_schema_value (dict output) (schema_value schema)) refl h
  where
    by_validation :
        (v : Result SchemaError (Unit {0}))
        → validate_schema_value (dict output) (schema_value schema) ≡ v
        → (elim v [
          | err e ↦ err (output_invalid e)
          | ok u ↦ ok (record {
            output = output;
            step_count = sequence;
            attempt_count = attempt_count observations.operations;
            last_step_name = last_step_name observations;
          })
        ])
          ≡ ok result
        → ConformsTo schema result.output × (result.step_count ≡ sequence)
    by_validation (err e) valid k = absurd (ground (arith, k))
    by_validation (ok u) valid k =
        subst (λ r. ConformsTo schema r.output × (r.step_count ≡ sequence)) (ok-injective k)
          (conforms_if_valid schema output u valid, refl)

finished-ok :
    (schema : Option Fields) (context : Context) (returned : Result StepError Returned)
    (result : NativeResult)
    → finished schema context returned ≡ ok result
    → ConformsTo schema result.output × (result.step_count ≡ context.sequence)
finished-ok schema context (ok returned) result h =
    validated_output-ok schema context.observations context.sequence (normalize_output returned)
      result h
finished-ok schema context (err e) result h = absurd (ground (arith, h))

-- An execution that returns was given an input that conforms to the workflow's input schema, if it
-- has one, and gives an output that conforms to the output schema, if it has one; its step count is
-- the sequence that the workflow's function left in the context.
pub execute-Conforms :
    {S R : Type 0} (workflow : NativeWorkflow S R) (sink : Option (EventSink S)) (run_id : Value)
    (input : Fields) (s : S) (result : NativeResult)
    → (execute workflow sink run_id input s).0 ≡ ok result
    → ConformsTo workflow.input_schema input
      × (ConformsTo workflow.output_schema result.output
          × (result.step_count ≡ (workflow.function input (new_context, s)).1.0.sequence))
unfolding execute
execute-Conforms {S} {R} workflow sink run_id input s result h =
    by_input (validate_schema_value (dict input) (schema_value workflow.input_schema)) refl h
  where
    by_input :
        (v : Result SchemaError (Unit {0}))
        → validate_schema_value (dict input) (schema_value workflow.input_schema) ≡ v
        → (elim v as (λ v. Result ExecutionError NativeResult × S) [
          | err e ↦ (err (input_invalid e), s)
          | ok u ↦ run_and_replay workflow sink run_id input s
        ]).0
          ≡ ok result
        → ConformsTo workflow.input_schema input
          × (ConformsTo workflow.output_schema result.output
              × (result.step_count ≡ (workflow.function input (new_context, s)).1.0.sequence))
    by_input (err e) valid k = absurd (ground (arith, k))
    by_input (ok u) valid k = (
      conforms_if_valid workflow.input_schema input u valid,
      finished-ok workflow.output_schema (workflow.function input (new_context, s)).1.0
          (workflow.function input (new_context, s)).0 result k,
    )
