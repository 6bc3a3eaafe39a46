-- ===== src/Native/Buffer.antt =====
-- The observations that native/__init__.py buffers while a workflow runs. A symbolic span
-- `native-buffer-n` is the number n; of the summaries an operation has the value that is
-- summarized.
use cobalt_wren.Prelude.{
  ℕ, suc, Bool, true, false, none, some, List, [], ◌∷◌, ◌++◌, if◌then◌else◌, last?,
}
use cobalt_wren.Prelude.Int.{ℤ}
use cobalt_wren.Prelude.Text.{Text}
use cobalt_wren.Core.Value.{Value}

pub data FailStatus : Type 0 where
  retrying failed : FailStatus

-- What distinguishes `_StepStarted`, `_StepCompleted` and `_StepFailed`.
pub data Happening : Type 0 where
  step_started : Value → Happening
  step_completed : Value → Happening
  step_failed : FailStatus → Happening

-- What an operation says of its attempt.
pub record Attempt : Type 0 where
  pub name : Text
  pub subject_id : Text
  pub logical_sequence : ℕ
  pub attempt : ℕ
  pub max_attempts : ℤ

pub record Operation : Type 0 where
  pub symbolic_span : ℕ
  pub of : Attempt
  pub event_sequence : ℕ
  pub happening : Happening

pub record Observations : Type 0 where
  pub operations : List Operation
  pub span_counter : ℕ
  pub event_counter : ℕ

abbrev pub no_observations : Observations
no_observations = record { operations = []; span_counter = 0; event_counter = 0 }

-- An operation takes the next event sequence.
abbrev pub append_operation : ℕ → Attempt → Happening → Observations → Observations
append_operation span of happening b = record b {
  operations =
      b.operations
      ++ (record {
        symbolic_span = span;
        of = of;
        event_sequence = suc b.event_counter;
        happening = happening;
      })
        ∷ [];
  event_counter = suc b.event_counter;
}

-- The new span is the span counter afterwards.
unfoldable pub start : Attempt → Value → Observations → Observations
start of input_value b =
    append_operation (suc b.span_counter) of (step_started input_value)
      (record b { span_counter = suc b.span_counter })

unfoldable pub complete : ℕ → Attempt → Value → Observations → Observations
complete span of output_value = append_operation span of (step_completed output_value)

unfoldable pub fail : ℕ → Attempt → Bool → Observations → Observations
fail span of will_retry =
    append_operation span of (step_failed (if will_retry then retrying else failed))

abbrev pub is_started : Operation → Bool
is_started op = elim op.happening [
  | step_started input ↦ true
  | step_completed output ↦ false
  | step_failed status ↦ false
]

abbrev pub is_terminal : Happening → Bool
is_terminal (step_completed output) = true
is_terminal (step_failed failed) = true
is_terminal _ = false

abbrev pub terminal_names : List Operation → List Text
terminal_names [] = []
terminal_names (op ∷ ops) =
    let rest = terminal_names ops in if is_terminal op.happening then op.of.name ∷ rest else rest

-- `_last_step_name`
unfoldable pub last_step_name : Observations → Text
last_step_name b = elim (last? (terminal_names b.operations)) [ none ↦ [] | some name ↦ name ]

-- `attempt_count` of the result's metadata
unfoldable pub attempt_count : List Operation → ℕ
attempt_count [] = 0
attempt_count (op ∷ ops) = if is_started op then suc (attempt_count ops) else attempt_count ops
