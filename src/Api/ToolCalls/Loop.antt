-- ===== src/Api/ToolCalls/Loop.antt =====
-- What the loop over the events of a stream sends on.
use godwit.Base.{
  ℕ, Bool, true, false, Option, List, [], ◌∷◌, ◌++◌, Result, ok, err, ◌≡◌, refl, ap, ◌∙◌,
  Bool-cases, inl, inr,
}
use godwit.Providers.Wire.{Wire}
use godwit.Providers.Streaming.{build_sse_error}
use godwit.Providers.SseEgress.{
  CanonicalEvent, delta, tool_call, finish, error, unknown, parse_canonical_event,
}
use godwit.Api.ToolCalls.{
  ToolCall, ToolCallBuffer, Sent, forwarded, result, failed, new, finish_all, tool_results,
  result_events, on_event, process_from, process_streaming_tool_calls,
}

module _ (w : Wire) (as_u64 : w.J → Option ℕ) where
  open w use {T, J}

  -- What is sent beside the results of tools: the events that are forwarded, and then the error.
  abbrev pub without_results : List (Sent w as_u64) → List (Sent w as_u64)
  without_results [] = []
  without_results (forwarded t ∷ s) = forwarded t ∷ without_results s
  without_results (result t ∷ s) = without_results s
  without_results (failed t ∷ s) = failed t ∷ without_results s

  -- The events up to the first error, and that error as an event.
  abbrev pub passed_on : List (Result T T) → List (Sent w as_u64)
  passed_on [] = []
  passed_on (ok e ∷ events) = forwarded e ∷ passed_on events
  passed_on (err e ∷ events) = failed (build_sse_error w e) ∷ []

  without_results-append :
      (s t : List (Sent w as_u64))
      → without_results (s ++ t) ≡ without_results s ++ without_results t
  without_results-append [] t = refl
  without_results-append (forwarded x ∷ s) t =
      ap (λ l. forwarded x ∷ l) (without_results-append s t)
  without_results-append (result x ∷ s) t = without_results-append s t
  without_results-append (failed x ∷ s) t = ap (λ l. failed x ∷ l) (without_results-append s t)

  module _ (resolve_tool_calls : List (ToolCall w as_u64) → List J) where
    only_results :
        (msgs : List J) → without_results (result_events w as_u64 resolve_tool_calls msgs) ≡ []
    only_results [] = refl
    only_results (m ∷ msgs) = only_results msgs

    tool_results-only :
        (cs : List (ToolCall w as_u64))
        → without_results (tool_results w as_u64 resolve_tool_calls cs) ≡ []
    unfolding tool_results
    tool_results-only [] = refl
    tool_results-only (c ∷ cs) = elim (Bool-cases (w.is_empty c.name)) [
      | inl nameless ↦ rw nameless (tool_results-only cs)
      | inr named ↦ rw named (
          without_results-append
            (result_events w as_u64 resolve_tool_calls (resolve_tool_calls (c ∷ [])))
            (tool_results w as_u64 resolve_tool_calls cs)
          ∙ ap (λ l. l ++ without_results (tool_results w as_u64 resolve_tool_calls cs))
              (only_results (resolve_tool_calls (c ∷ [])))
          ∙ tool_results-only cs)
    ]

    on_event-sent :
        (b : ToolCallBuffer w as_u64) (detected : Bool) (e : T) (kind : CanonicalEvent T)
        → without_results (on_event w as_u64 resolve_tool_calls b detected e kind).2
          ≡ forwarded e ∷ []
    on_event-sent b detected e (delta t) = refl
    on_event-sent b detected e (tool_call t) = refl
    on_event-sent b true e (finish p c r) =
        ap (λ l. forwarded e ∷ l) (tool_results-only (finish_all w as_u64 b).1)
    on_event-sent b false e (finish p c r) = refl
    on_event-sent b detected e (error t) = refl
    on_event-sent b detected e unknown = refl

    process_from-passed_on :
        (b : ToolCallBuffer w as_u64) (detected : Bool) (events : List (Result T T))
        → without_results (process_from w as_u64 resolve_tool_calls b detected events)
          ≡ passed_on events
    unfolding process_from
    process_from-passed_on b detected [] = refl
    process_from-passed_on b detected (err e ∷ events) = refl
    process_from-passed_on b detected (ok e ∷ events) =
        let (b', detected', sent) =
          on_event w as_u64 resolve_tool_calls b detected e (parse_canonical_event w e) in
        without_results-append sent (process_from w as_u64 resolve_tool_calls b' detected' events)
        ∙ ap
            (λ l.
              l ++ without_results (process_from w as_u64 resolve_tool_calls b' detected' events))
            (on_event-sent b detected e (parse_canonical_event w e))
        ∙ ap (λ l. forwarded e ∷ l) (process_from-passed_on b' detected' events)

    -- Beside the results of tools, a client gets every event up to the first error, in order and as it
    -- came, and then that error; the calls of tools take nothing away.
    pub process-passed_on :
        (events : List (Result T T))
        → without_results (process_streaming_tool_calls w as_u64 resolve_tool_calls events)
          ≡ passed_on events
    unfolding process_streaming_tool_calls
    process-passed_on events = process_from-passed_on (new w as_u64) false events
