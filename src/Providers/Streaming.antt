-- ===== src/Providers/Streaming.antt =====
-- crates/godwit-providers/src/streaming.rs: the payloads of the canonical stream, and the translation
-- of an OpenAI event into it. An `SseEvent` is its payload. JSON and texts are the interface `Wire`.
use godwit.Base.{String, Option, none, some, List, [], ◌∷◌, ◌++◌, map, if◌then◌else◌}
use godwit.Base.Int.{ℤ, pos, ◌+ℤ◌, wrap_i64}
use godwit.Resilience.Fallback.{and_then}
use godwit.Providers.Wire.{Wire}

module _ (w : Wire) where
  open w use {
    T, J, lit, is_empty, parse, render, get, as_array, as_str, as_i64, of_text, of_int, of_fields,
  }

  unfoldable pub build_sse_delta : T → T
  build_sse_delta delta =
      render (of_fields (("type", of_text (lit "delta")) ∷ ("delta", of_text delta) ∷ []))

  abbrev pub reason_field : Option T → List (String × J)
  reason_field none = []
  reason_field (some reason) = ("finish_reason", of_text reason) ∷ []

  -- The sum of the tokens wraps.
  unfoldable pub build_sse_finish : ℤ → ℤ → Option T → T
  build_sse_finish prompt_tokens completion_tokens finish_reason = render (
      of_fields (
        ("type", of_text (lit "finish"))
        ∷ (
          "usage",
          of_fields (
              ("prompt_tokens", of_int prompt_tokens)
              ∷ ("completion_tokens", of_int completion_tokens)
              ∷ ("total_tokens", of_int (wrap_i64 (prompt_tokens +ℤ completion_tokens)))
              ∷ []),
        )
        ∷ reason_field finish_reason))

  unfoldable pub build_sse_error : T → T
  build_sse_error message =
      render (of_fields (("type", of_text (lit "error")) ∷ ("message", of_text message) ∷ []))

  abbrev content_events : Option T → List T
  content_events none = []
  content_events (some content) = if is_empty content then [] else build_sse_delta content ∷ []

  abbrev call_events : Option (List J) → List T
  call_events none = []
  call_events (some calls) = map (λ call. build_sse_delta (render call)) calls

  abbrev or_zero : Option ℤ → ℤ
  or_zero none = pos 0
  or_zero (some n) = n

  abbrev finish_events : Option J → Option T → List T
  finish_events usage none = []
  finish_events usage (some reason) =
      build_sse_finish (or_zero (and_then usage λ u. and_then (get u "prompt_tokens") as_i64))
        (or_zero (and_then usage λ u. and_then (get u "completion_tokens") as_i64)) (some reason)
      ∷ []

  -- The body of the loop over the choices.
  pub choice_events : Option J → J → List T
  unfolding build_sse_delta build_sse_finish
  choice_events usage choice =
      let delta = get choice "delta" in
      content_events (and_then (and_then delta λ d. get d "content") as_str)
      ++ (call_events (and_then (and_then delta λ d. get d "tool_calls") as_array)
          ++ finish_events usage (and_then (get choice "finish_reason") as_str))

  abbrev choices_events : Option J → Option (List J) → List T
  choices_events usage none = []
  choices_events usage (some []) = []
  choices_events usage (some (c ∷ cs)) = choice_events usage c ++ choices_events usage (some cs)

  abbrev parsed_events : Option J → List T
  parsed_events none = []
  parsed_events (some parsed) =
      choices_events (get parsed "usage") (and_then (get parsed "choices") as_array)

  -- The events of one raw event.
  unfoldable pub normalize_openai_sse_event : T → List T
  unfolding choice_events
  normalize_openai_sse_event raw = parsed_events (parse raw)
