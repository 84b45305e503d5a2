-- ===== src/Providers/Anthropic/Stream/Tests.antt =====
-- A short streamed answer that is cut off, and the theorem on it.
use godwit.Base.{none, List, [], ◌∷◌, map, ◌≡◌, refl}
use godwit.Base.Int.{pos}
use godwit.Providers.Wire.Values.{values, Word, plain}
use godwit.Providers.Streaming.{build_sse_delta}
use godwit.Providers.SseEgress.{delta, finish, parse_canonical_event}
use godwit.Providers.Anthropic.Stream.{
  normalize_all, normalize_anthropic_sse_event, build_sse_finish,
}
use godwit.Providers.Anthropic.Stream.Answer.{
  AnswerEvent, message_start, content_block_start, text_delta, content_block_stop, message_delta,
  message_stop, payload, meanings, answer_read,
}

abbrev answer : List (AnswerEvent Word)
answer =
    message_start (pos 12)
    ∷ content_block_start
    ∷ text_delta (plain "Once")
    ∷ text_delta (plain " upon")
    ∷ content_block_stop
    ∷ message_delta (plain "max_tokens") (pos 2)
    ∷ message_stop
    ∷ []

-- Neither the reason nor the 12 tokens of the prompt come through.
read_in_full :
    map
      (parse_canonical_event values)
      (normalize_all values (λ t. t) (map (payload values (λ t. t)) answer))
    ≡ (delta (plain "Once") ∷ delta (plain " upon") ∷ finish (pos 0) (pos 2) none ∷ [])
unfolding normalize_all normalize_anthropic_sse_event build_sse_finish build_sse_delta payload
    parse_canonical_event
read_in_full = refl

answer_read_example :
    map
      (parse_canonical_event values)
      (normalize_all values (λ t. t) (map (payload values (λ t. t)) answer))
    ≡ meanings values (λ t. t) answer
answer_read_example = answer_read values (λ t. t) answer
