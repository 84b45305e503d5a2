-- ===== src/Providers/SseEgress/AnthropicStream.antt =====
-- `AnthropicStreamTranslator` of crates/godwit-providers/src/sse_egress.rs.
pub mod Grammar
use godwit.Base.{
  Bool, true, false, not, ◌||◌, String, Option, none, some, List, [], ◌∷◌, ◌++◌, if◌then◌else◌,
}
use godwit.Base.Int.{ℤ, pos}
use godwit.Resilience.Fallback.{and_then}
use godwit.Providers.Wire.{Wire}
use godwit.Providers.SseEgress.{
  ServerSentFrame, plain, event, CanonicalEvent, delta, tool_call, finish, error, unknown, or_empty,
  or_zero, text_field, function_field, parse_canonical_event, canonical_to_openai_finish,
  canonical_to_anthropic_stop,
}

module _ (w : Wire) where
  open w use {
    T, J, lit, is_empty, parse, get, as_str, as_i64, null, of_text, of_int, of_list, of_fields,
  }

  pub record AnthropicStreamTranslator : Type 0 where
    pub id : T
    pub model : T
    pub started : Bool
    pub finished : Bool

  abbrev partial_of : Option T → Option T
  partial_of none = none
  partial_of (some args) = if is_empty args then none else some args

  pub extract_partial_json : T → Option T
  extract_partial_json packed =
      partial_of (and_then (parse packed) λ v. function_field w v "arguments")

  -- A named event; the name is the type of its payload.
  abbrev pub named : String → List (String × J) → ServerSentFrame J
  named name fs = event name (of_fields (("type", of_text (lit name)) ∷ fs))

  abbrev pub message_start : AnthropicStreamTranslator → ServerSentFrame J
  message_start t = named "message_start" (
      (
        "message",
        of_fields (
            ("id", of_text t.id)
            ∷ ("type", of_text (lit "message"))
            ∷ ("role", of_text (lit "assistant"))
            ∷ ("model", of_text t.model)
            ∷ ("content", of_list [])
            ∷ ("stop_reason", null)
            ∷ ("stop_sequence", null)
            ∷ (
              "usage",
              of_fields (("input_tokens", of_int (pos 0)) ∷ ("output_tokens", of_int (pos 0)) ∷ []),
            )
            ∷ []),
      )
      ∷ [])

  abbrev pub content_block_start : ServerSentFrame J
  content_block_start = named "content_block_start" (
      ("index", of_int (pos 0))
      ∷ (
        "content_block",
        of_fields (("type", of_text (lit "text")) ∷ ("text", of_text (lit "")) ∷ []),
      )
      ∷ [])

  abbrev pub content_block_delta : String → String → T → ServerSentFrame J
  content_block_delta kind key t = named "content_block_delta" (
      ("index", of_int (pos 0))
      ∷ ("delta", of_fields (("type", of_text (lit kind)) ∷ (key, of_text t) ∷ []))
      ∷ [])

  abbrev pub partial_frames : Option T → List (ServerSentFrame J)
  partial_frames none = []
  partial_frames (some args) = content_block_delta "input_json_delta" "partial_json" args ∷ []

  abbrev pub message_stop : ServerSentFrame J
  message_stop = named "message_stop" []

  -- The `match` of `push`, with the last frame of a stream that it finishes.
  abbrev pub anthropic_frames : CanonicalEvent T → Bool × List (ServerSentFrame J)
  anthropic_frames (delta s) = (false, content_block_delta "text_delta" "text" s ∷ [])
  anthropic_frames (tool_call packed) = (false, partial_frames (extract_partial_json packed))
  anthropic_frames (finish p c reason) = (
    true,
    named "message_delta" (
          (
            "delta",
            of_fields (
                ("stop_reason", of_text (lit (canonical_to_anthropic_stop w reason)))
                ∷ ("stop_sequence", null)
                ∷ []),
          )
          ∷ ("usage", of_fields (("output_tokens", of_int c) ∷ []))
          ∷ [])
        ∷ message_stop
        ∷ [],
  )
  anthropic_frames (error message) = (
    true,
    plain (
          of_fields (
            ("type", of_text (lit "error"))
            ∷ (
              "error",
              of_fields (("type", of_text (lit "api_error")) ∷ ("message", of_text message) ∷ []),
            )
            ∷ []))
        ∷ message_stop
        ∷ [],
  )
  anthropic_frames unknown = (false, [])

  pub new : T → T → AnthropicStreamTranslator
  new id model = record { id = id; model = model; started = false; finished = false }

  unfoldable pub push :
      AnthropicStreamTranslator → T → AnthropicStreamTranslator × List (ServerSentFrame J)
  unfolding extract_partial_json canonical_to_anthropic_stop
  push t d =
      let (done, frames) = anthropic_frames (parse_canonical_event w d) in
      if t.finished then (t, []) else (
        record t { started = true; finished = done },
        (if t.started then [] else message_start t ∷ content_block_start ∷ []) ++ frames,
      )
