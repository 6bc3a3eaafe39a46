-- ===== src/Runs/Execution/Events.antt =====
-- The events of one execution, services/execution.py, as an observer of the run sees them.
use cobalt_wren.Prelude.{
  Bool, true, false, Option, none, some, List, [], ◌∷◌, ◌++◌, if◌then◌else◌, ◌≡◌, arith,
}
use cobalt_wren.Runs.Execution.{
  Event, run_started, span_started, span_failed, span_completed, run_cancelled, run_failed,
  run_completed, EventSink, PreparedWorkflow, Ending, returned, raised, workflow_cancelled,
  workflow_timeout, framework, foreign, opening_events, closing_events,
}

-- How an observer sees a run that is over.
pub data Verdict : Type 0 where
  completes fails cancels : Verdict

-- The span of the graph, as the observer knows it.
pub data Span : Type 0 where
  unspanned opened completed broken : Span

-- Where an observer of one execution stands.
pub data Phase : Type 0 where
  silent : Phase
  going : Span → Phase
  over : Span → Verdict → Phase

-- A span opens once, before anything else, and is closed before the run is over.
abbrev pub observe : Phase → Event → Option Phase
observe silent run_started = some (going unspanned)
observe (going unspanned) span_started = some (going opened)
observe (going opened) span_completed = some (going completed)
observe (going opened) span_failed = some (going broken)
observe (going opened) _ = none
observe (going span) run_completed = some (over span completes)
observe (going span) run_failed = some (over span fails)
observe (going span) run_cancelled = some (over span cancels)
observe _ _ = none

abbrev pub observe_all : Phase → List Event → Option Phase
observe_all p [] = some p
observe_all p (e ∷ es) = elim (observe p e) [ none ↦ none | some q ↦ observe_all q es ]

-- The span, in the hands of an observer, where the sink makes one.
abbrev pub span_if : Bool → Span → Span
span_if true span = span
span_if false span = unspanned

-- The phase that an execution which reports, with or without a span, must end in.
abbrev pub expected : Bool → Ending → Phase
expected spans (raised (workflow_cancelled message)) = over (span_if spans broken) cancels
expected spans (raised (workflow_timeout message)) = over (span_if spans broken) fails
expected spans (raised (framework message)) = over (span_if spans broken) fails
expected spans (raised (foreign text)) = over (span_if spans broken) fails
expected spans (returned result) =
    if result.paused
    then going (span_if spans completed)
    else over (span_if spans completed) completes

-- An execution with a sink, of a workflow that leaves its lifecycle to the control plane, opens
-- as a run that goes on, with its span open if the sink makes one: there it stays if the workflow
-- is interrupted. Otherwise the closing events close the span, as completed if the workflow
-- returned and as failed if it raised, and end the run as completed, failed or cancelled; a
-- workflow that paused leaves it going.
pub observe_execution :
    (prepared : PreparedWorkflow) (sink : EventSink) (ending : Ending)
    → prepared.control_plane_owns_lifecycle ≡ true
    → (observe_all silent (opening_events prepared (some sink))
        ≡ some (going (span_if sink.starts_spans opened)))
      × (observe_all silent
            (opening_events prepared (some sink) ++ closing_events prepared (some sink) ending)
          ≡ some (expected sink.starts_spans ending))
unfolding opening_events closing_events
observe_execution prepared sink (raised (workflow_cancelled message)) h =
    (ground arith, ground arith)
observe_execution prepared sink (raised (workflow_timeout message)) h = (ground arith, ground arith)
observe_execution prepared sink (raised (framework message)) h = (ground arith, ground arith)
observe_execution prepared sink (raised (foreign message)) h = (ground arith, ground arith)
observe_execution prepared sink (returned result) h = (ground arith, ground arith)

-- Without a sink, or with a workflow that owns its lifecycle, nothing is emitted.
unreported_execution :
    (prepared : PreparedWorkflow) (sink : EventSink) (ending : Ending)
    → prepared.control_plane_owns_lifecycle ≡ false
    → opening_events prepared (some sink) ++ closing_events prepared (some sink) ending ≡ []
unfolding opening_events closing_events
unreported_execution prepared sink (raised failure) h = ground arith
unreported_execution prepared sink (returned result) h = ground arith
