-- ===== src/Native/Replay.antt =====
-- `replay` of native/__init__.py: the buffered observations go to an event sink.
pub mod Spans
use cobalt_wren.Prelude.{ℕ, Bool, true, false, Option, none, some, List, [], ◌∷◌, if◌then◌else◌}
use cobalt_wren.Prelude.Dict.{Dict, get, put}
use cobalt_wren.Prelude.Equality.{nat_eq}
use cobalt_wren.Core.Value.{Value, bool, int}
use cobalt_wren.Native.Buffer.{
  Operation, Happening, step_started, step_completed, step_failed, retrying, failed,
}

pub data Status : Type 0 where
  is_running is_succeeded is_retrying is_failed : Status

abbrev pub status_of : Happening → Status
status_of (step_started input) = is_running
status_of (step_completed output) = is_succeeded
status_of (step_failed retrying) = is_retrying
status_of (step_failed failed) = is_failed

-- A call of the sink. A projection carries the span, if there is one, and the status.
pub data SinkCall : Type 0 where
  span_completed span_failed : ℕ → Operation → SinkCall
  integration_projection : Option ℕ → Operation → Status → SinkCall

-- An event sink on its state `S`: `span_started` gives a span, or none where it raises. The
-- failures of its other calls are suppressed.
pub record EventSink (S : Type 0) : Type 0 where
  pub span_started : Operation → S → Option ℕ × S
  pub call : SinkCall → S → S

-- The spans of the sink by those of the buffer.
abbrev pub Spans : Type 0
Spans = Dict ℕ ℕ

module _ {S : Type 0} (sink : EventSink S) where
  abbrev pub noted_span : Spans → ℕ → Option ℕ → Spans
  noted_span spans symbolic none = spans
  noted_span spans symbolic (some actual) = put spans symbolic actual

  abbrev pub emit_projection : Option ℕ → Operation → S → S
  emit_projection span op = sink.call (integration_projection span op (status_of op.happening))

  -- `_complete_span` and `_fail_span`
  abbrev pub close_span : Option ℕ → Operation → Happening → S → S
  close_span none op happening s = s
  close_span (some span) op (step_started input) s = s
  close_span (some span) op (step_completed output) s = sink.call (span_completed span op) s
  close_span (some span) op (step_failed status) s = sink.call (span_failed span op) s

  abbrev pub replay_one : Operation → Happening → Spans × S → Spans × S
  replay_one op (step_started input) (spans, s) =
      let opened = sink.span_started op s in
      (noted_span spans op.symbolic_span opened.0, emit_projection opened.0 op opened.1)
  replay_one op happening (spans, s) =
      let span = get spans op.symbolic_span in
      (spans, emit_projection span op (close_span span op happening s))

  unfoldable pub replay_from : List Operation → Spans × S → Spans × S
  replay_from [] at = at
  replay_from (op ∷ ops) at = replay_from ops (replay_one op op.happening at)

-- `isinstance(run_id, int)`
abbrev pub is_int : Value → Bool
is_int (int n) = true
is_int (bool b) = true
is_int _ = false

unfoldable pub replay : {S : Type 0} → Option (EventSink S) → Value → List Operation → S → S
unfolding replay_from
replay none run_id ops s = s
replay (some sink) run_id ops s = if is_int run_id then (replay_from sink ops ([], s)).1 else s
