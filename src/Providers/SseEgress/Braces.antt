-- ===== src/Providers/SseEgress/Braces.antt =====
-- What becomes of a text fragment that begins with a brace.
use godwit.Base.{true, none, [], ◌≡◌, ◌∙◌, arith}
use godwit.Providers.Wire.{Wire}
use godwit.Providers.Streaming.{build_sse_delta}
use godwit.Providers.SseEgress.{parse_canonical_event, tool_call}
use godwit.Providers.SseEgress.Canonical.{parse_canonical_event-build_sse_delta}
use godwit.Providers.SseEgress.OpenAiStream
use godwit.Providers.SseEgress.OpenAiStream.{OpenAiStreamTranslator}
use godwit.Providers.SseEgress.AnthropicStream
use godwit.Providers.SseEgress.AnthropicStream.{AnthropicStreamTranslator}

-- A text fragment that begins with a brace and is no JSON, such as the first of an answer in JSON,
-- reaches neither client once its stream has started.
pub brace_text_lost :
    (w : Wire) (o : OpenAiStreamTranslator w) (a : AnthropicStreamTranslator w) (s : w.T)
    → o.started ≡ true
    → a.started ≡ true
    → w.opens_brace s ≡ true
    → w.parse s ≡ none
    → ((OpenAiStream.push w o (build_sse_delta w s)).1 ≡ [])
      × ((AnthropicStream.push w a (build_sse_delta w s)).1 ≡ [])
unfolding OpenAiStream.push AnthropicStream.push
brace_text_lost w o a s ho ha brace bad =
    let read : parse_canonical_event w (build_sse_delta w s) ≡ tool_call s =
      parse_canonical_event-build_sse_delta w s ∙ (rw brace) in
    rw read (ground (arith, ho, ha, bad))
