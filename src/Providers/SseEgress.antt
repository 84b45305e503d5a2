-- ===== src/Providers/SseEgress.antt =====
-- crates/godwit-providers/src/sse_egress.rs: from the canonical stream back to the frames of OpenAI
-- and of Anthropic. JSON and texts are the interface `Wire`; a frame keeps its payload as JSON, which
-- `to_string` turns into its text.
pub mod Canonical
pub mod Braces
pub mod OpenAiStream
pub mod AnthropicStream
mod Tests
use godwit.Base.{
  Bool, true, false, not, ◌&&◌, ◌||◌, String, Option, none, some, List, [], ◌∷◌, ◌++◌,
  if◌then◌else◌,
}
use godwit.Base.Int.{ℤ, pos, wrap_i32}
use godwit.Resilience.Fallback.{and_then}
use godwit.Providers.Wire.{Wire}

-- `ServerSentFrame`, with the name of an event as its literal.
pub data ServerSentFrame (J : Type 0) : Type 0 where
  plain : J → ServerSentFrame J
  event : String → J → ServerSentFrame J

pub data CanonicalEvent (T : Type 0) : Type 0 where
  delta tool_call : T → CanonicalEvent T
  finish : ℤ → ℤ → Option T → CanonicalEvent T
  error : T → CanonicalEvent T
  unknown : CanonicalEvent T

module _ (w : Wire) where
  open w use {
    T, J, lit, is_lit, to_ascii_lowercase, is_empty, opens_brace, parse, render, get, as_str,
    as_i64, null, of_text, of_int, of_list, of_fields,
  }

  abbrev pub or_empty : Option T → T
  or_empty none = lit ""
  or_empty (some t) = t

  abbrev pub or_zero : Option ℤ → ℤ
  or_zero none = pos 0
  or_zero (some n) = n

  abbrev pub text_field : J → String → Option T
  text_field v key = and_then (get v key) as_str

  abbrev pub delta_event : T → CanonicalEvent T
  delta_event t = if opens_brace t then tool_call t else delta t

  abbrev pub typed_event : J → Option T → CanonicalEvent T
  typed_event v none = unknown
  typed_event v (some kind) =
      if is_lit kind "delta"
      then delta_event (or_empty (text_field v "delta"))
      else if is_lit kind "finish"
      then finish
          (wrap_i32
            (or_zero (and_then (get v "usage") λ u. and_then (get u "prompt_tokens") as_i64)))
          (wrap_i32
            (or_zero (and_then (get v "usage") λ u. and_then (get u "completion_tokens") as_i64)))
          (text_field v "finish_reason")
      else if is_lit kind "error"
      then error (or_empty (text_field v "message"))
      else unknown

  abbrev pub parsed_event : Option J → CanonicalEvent T
  parsed_event none = unknown
  parsed_event (some v) = typed_event v (text_field v "type")

  unfoldable pub parse_canonical_event : T → CanonicalEvent T
  parse_canonical_event d = parsed_event (parse d)

  abbrev first_of : T → List (String × String) → String → String
  first_of t [] otherwise = otherwise
  first_of t ((from, to) ∷ cases) otherwise =
      if is_lit t from then to else first_of t cases otherwise

  abbrev reason_as : List (String × String) → String → Option T → String
  reason_as cases otherwise none = otherwise
  reason_as cases otherwise (some reason) = first_of (to_ascii_lowercase reason) cases otherwise

  pub canonical_to_openai_finish : Option T → String
  canonical_to_openai_finish =
      reason_as
        (("end_turn", "stop")
          ∷ ("max_tokens", "length")
          ∷ ("tool_use", "tool_calls")
          ∷ ("stop", "stop")
          ∷ ("length", "length")
          ∷ ("tool_calls", "tool_calls")
          ∷ ("content_filter", "content_filter")
          ∷ [])
        "stop"

  pub canonical_to_anthropic_stop : Option T → String
  canonical_to_anthropic_stop =
      reason_as
        (("stop", "end_turn")
          ∷ ("length", "max_tokens")
          ∷ ("tool_calls", "tool_use")
          ∷ ("end_turn", "end_turn")
          ∷ ("max_tokens", "max_tokens")
          ∷ ("tool_use", "tool_use")
          ∷ ("content_filter", "end_turn")
          ∷ [])
        "end_turn"

  abbrev pub function_field : J → String → Option T
  function_field v key = and_then (and_then (get v "function") λ f. get f key) as_str
