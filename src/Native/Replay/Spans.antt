-- ===== src/Native/Replay/Spans.antt =====
-- The spans under which the replay of native/__init__.py closes attempts.
use cobalt_wren.Prelude.{ℕ, suc, Option, some, List, [], ◌∷◌, ◌++◌, ◌≡◌, refl, sym, ap, ◌∙◌, subst}
use cobalt_wren.Prelude.Dict.{get, get-put_self}
use cobalt_wren.Prelude.Equality.{nat_eq}
use cobalt_wren.Core.Value.{Value}
use cobalt_wren.Native.Buffer.{
  Attempt, Operation, Happening, FailStatus, step_started, step_completed, step_failed, retrying,
  failed,
}
use cobalt_wren.Native.Replay.{
  EventSink, SinkCall, span_completed, span_failed, integration_projection, Status, is_succeeded,
  is_retrying, is_failed, Spans, close_span, emit_projection, replay_one, replay_from, noted_span,
}
use cobalt_wren.Native.Steps.Order.{running, Trace, begins, repeats, operation, next_attempt}

-- What closes an attempt.
pub data Ending : Type 0 where
  with_output : Value → Ending
  with_failure : FailStatus → Ending

abbrev pub happening_of : Ending → Happening
happening_of (with_output output) = step_completed output
happening_of (with_failure status) = step_failed status

-- The status that is projected at the end of an attempt, and what is told of its span.
abbrev pub ended_status : Ending → Status
ended_status (with_output output) = is_succeeded
ended_status (with_failure retrying) = is_retrying
ended_status (with_failure failed) = is_failed

abbrev pub end_of_span : Ending → ℕ → Operation → SinkCall
end_of_span (with_output output) = span_completed
end_of_span (with_failure status) = span_failed

module _ {S : Type 0} (sink : EventSink S) where
  replay_from-snoc :
      (ops : List Operation) (op : Operation) (at : Spans × S)
      → replay_from sink (ops ++ op ∷ []) at
        ≡ replay_one sink op op.happening (replay_from sink ops at)
  unfolding replay_from
  replay_from-snoc [] op at = refl
  replay_from-snoc (o ∷ ops) op at = replay_from-snoc ops op (replay_one sink o o.happening at)

  -- A close finds the span that was noted for its start.
  close_after_start :
      (of : Attempt) (span event later : ℕ) (input : Value) (ending : Ending) (at : Spans × S)
      (ref : ℕ)
      → (sink.span_started (operation span of event (step_started input)) at.1).0 ≡ some ref
      → (replay_one sink (operation span of later (happening_of ending)) (happening_of ending) (
          replay_one sink (operation span of event (step_started input)) (step_started input) at)).1
        ≡ emit_projection sink (some ref) (operation span of later (happening_of ending)) (
            close_span sink
              (some ref)
              (operation span of later (happening_of ending))
              (happening_of ending)
              (replay_one sink
                (operation span of event (step_started input))
                (step_started input)
                at).1)
  close_after_start of span event later input ending (spans, s) ref h = by_ending ending
    where
      opened : Option ℕ × S
      opened = sink.span_started (operation span of event (step_started input)) s

      found : get (noted_span sink spans span opened.0) span ≡ some ref
      found =
          subst (λ o. get (noted_span sink spans span o) span ≡ some ref) (sym h)
            (get-put_self spans span ref)

      closed : Ending → Option ℕ → S
      closed ending o = emit_projection sink o (operation span of later (happening_of ending)) (
          close_span sink o (operation span of later (happening_of ending)) (happening_of ending)
            (emit_projection sink opened.0 (operation span of event (step_started input)) opened.1))

      by_ending :
          (ending : Ending)
          → (replay_one sink (operation span of later (happening_of ending)) (happening_of ending) (
              replay_one sink
                (operation span of event (step_started input))
                (step_started input)
                (spans, s))).1
            ≡ closed ending (some ref)
      by_ending (with_output output) = ap (closed (with_output output)) found
      by_ending (with_failure status) = ap (closed (with_failure status)) found

  closing_calls :
      (ending : Ending) (ref span event : ℕ) (of : Attempt) (s : S)
      → emit_projection sink (some ref) (operation span of event (happening_of ending)) (
          close_span sink
            (some ref)
            (operation span of event (happening_of ending))
            (happening_of ending)
            s)
        ≡ sink.call
            (integration_projection
              (some ref)
              (operation span of event (happening_of ending))
              (ended_status ending))
            (sink.call (end_of_span ending ref (operation span of event (happening_of ending))) s)
  closing_calls (with_output output) ref span event of s = refl
  closing_calls (with_failure retrying) ref span event of s = refl
  closing_calls (with_failure failed) ref span event of s = refl

  -- The last operation is the start of the attempt `of`, and what closes the attempt is replayed
  -- under the span that the sink gave for that start.
  abbrev pub ClosedUnder : List Operation → ℕ → ℕ → Attempt → Ending → S → Type 0
  ClosedUnder ops events span of ending s =
      (before : List Operation) × (input : Value) × (ref : ℕ) × (ops
        ≡ before ++ operation span of events (step_started input) ∷ [])
      × ((sink.span_started (operation span of events (step_started input))
            (replay_from sink before ([], s)).1).0
          ≡ some ref)
      × ((replay_from sink (ops ++ operation span of (suc events) (happening_of ending) ∷ [])
            ([], s)).1
          ≡ sink.call
              (integration_projection (some ref)
                (operation span of (suc events) (happening_of ending)) (ended_status ending))
              (sink.call
                (end_of_span ending ref (operation span of (suc events) (happening_of ending)))
                (replay_from sink ops ([], s)).1))

  closed_under :
      (before : List Operation) (of : Attempt) (span events : ℕ) (input : Value) (ending : Ending)
      (s : S) (ref : ℕ)
      → (sink.span_started
          (operation span of events (step_started input))
          (replay_from sink before ([], s)).1).0
        ≡ some ref
      → ClosedUnder
          (before ++ operation span of events (step_started input) ∷ [])
          events
          span
          of
          ending
          s
  closed_under before of span events input ending s ref h = (
    before,
    input,
    ref,
    refl,
    h,
    ap (λ at. at.1)
          (replay_from-snoc (before ++ operation span of events (step_started input) ∷ [])
            (operation span of (suc events) (happening_of ending)) ([], s))
        ∙ (ap
              (λ at.
                (replay_one sink (operation span of (suc events) (happening_of ending))
                  (happening_of ending) at).1)
              (replay_from-snoc before (operation span of events (step_started input)) ([], s))
            ∙ (close_after_start of span events (suc events) input ending
                  (replay_from sink before ([], s)) ref h
                ∙ (ap
                      (λ at.
                        emit_projection sink (some ref)
                          (operation span of (suc events) (happening_of ending))
                          (close_span sink (some ref)
                            (operation span of (suc events) (happening_of ending))
                            (happening_of ending) at.1))
                      (sym (
                        replay_from-snoc before (operation span of events (step_started input))
                          ([], s)))
                    ∙ closing_calls ending ref span (suc events) of _))),
  )

  -- Where the operations that steps recorded end in an open attempt, and the sink opens every span,
  -- the last of them is the attempt's start, and the replay of what closes the attempt makes two
  -- calls of the sink, both for the span that the sink gave at that start: the span is completed
  -- after an output and failed after a failure, and then the status of the end is projected.
  pub replay_closes :
      (ops : List Operation) (events spans span : ℕ) (of : Attempt) (ending : Ending) (s : S)
      → ((op : Operation) (s : S) → (ref : ℕ) × ((sink.span_started op s).0 ≡ some ref))
      → Trace ops events spans (running of span)
      → ClosedUnder ops events span of ending s
  replay_closes _ _ _ _ _ ending s opens (begins {ops} {events} {spans} of input trace rest first) =
      let opened =
        opens (operation (suc spans) of (suc events) (step_started input))
          (replay_from sink ops ([], s)).1 in
      closed_under ops of (suc spans) (suc events) input ending s opened.0 opened.1
  replay_closes _ _ _ _ _ ending s opens (repeats {ops} {events} {spans} of input trace) =
      let opened =
        opens (operation (suc spans) (next_attempt of) (suc events) (step_started input))
          (replay_from sink ops ([], s)).1 in
      closed_under ops (next_attempt of) (suc spans) (suc events) input ending s opened.0 opened.1
