-- ===== src/Providers/Anthropic/Stream.antt =====
-- `normalize_anthropic_sse_event` of crates/godwit-providers/src/anthropic.rs. An `SseEvent` is its
-- payload; JSON and texts are the interface `Wire`.
pub mod Answer
mod Tests
use godwit.Base.{String, Option, none, some, List, [], ◌∷◌, ◌++◌, if◌then◌else◌}
use godwit.Base.Int.{ℤ, pos, ◌+ℤ◌, wrap_i32}
use godwit.Resilience.Fallback.{and_then}
use godwit.Providers.Wire.{Wire}
use godwit.Providers.Streaming.{build_sse_delta, build_sse_error}

-- `parse_error` is what `serde_json` says of a payload that is no JSON.
module _ (w : Wire) (parse_error : w.T → w.T) where
  open w use {
    T, J, lit, is_lit, push_str, parse, render, get, as_str, as_i64, of_text, of_int, of_fields,
  }

  -- `as_i64().unwrap_or(0) as i32`; an index by a key that is missing gives `null`.
  abbrev count : Option ℤ → ℤ
  count none = pos 0
  count (some n) = wrap_i32 n

  -- `build_sse_finish`, whose sum is one of 32 bits.
  pub build_sse_finish : J → T
  build_sse_finish usage =
      let prompt_tokens = count (and_then (get usage "input_tokens") as_i64) in
      let completion_tokens = count (and_then (get usage "output_tokens") as_i64) in
      render (
        of_fields (
          ("type", of_text (lit "finish"))
          ∷ (
            "usage",
            of_fields (
                ("prompt_tokens", of_int prompt_tokens)
                ∷ ("completion_tokens", of_int completion_tokens)
                ∷ ("total_tokens", of_int (wrap_i32 (prompt_tokens +ℤ completion_tokens)))
                ∷ []),
          )
          ∷ []))

  abbrev delta_events : Option T → List T
  delta_events none = []
  delta_events (some text) = build_sse_delta w text ∷ []

  abbrev usage_events : Option J → List T
  usage_events none = []
  usage_events (some usage) = build_sse_finish usage ∷ []

  abbrev pub typed_events : J → Option T → List T
  typed_events v none = build_sse_error w (lit "anthropic sse event missing type field") ∷ []
  typed_events v (some kind) =
      if is_lit kind "content_block_delta"
      then delta_events (and_then (and_then (get v "delta") λ d. get d "text") as_str)
      else if is_lit kind "message_delta"
      then usage_events (get v "usage")
      else []

  abbrev parsed_events : T → Option J → List T
  parsed_events raw none =
      build_sse_error w (push_str (lit "failed to parse anthropic sse event: ") (parse_error raw))
      ∷ []
  parsed_events raw (some v) = typed_events v (and_then (get v "type") as_str)

  pub normalize_anthropic_sse_event : T → List T
  normalize_anthropic_sse_event raw = parsed_events raw (parse raw)

  -- The events of the payloads of a stream.
  pub normalize_all : List T → List T
  unfolding normalize_anthropic_sse_event
  normalize_all [] = []
  normalize_all (raw ∷ raws) = normalize_anthropic_sse_event raw ++ normalize_all raws
