-- ===== src/Providers/Anthropic/Stream/Answer.antt =====
-- What a streamed answer of Anthropic becomes in the canonical stream.
use godwit.Base.{String, none, some, List, [], ◌∷◌, ◌++◌, map, ◌≡◌, refl, ap, ◌∙◌}
use godwit.Base.Int.{ℤ, pos, wrap_i32}
use godwit.Providers.Wire.{Wire}
use godwit.Providers.SseEgress.{CanonicalEvent, finish, delta_event, parse_canonical_event}
use godwit.Providers.SseEgress.Canonical.{
  parse_canonical_event-build_sse_delta, parse_canonical-fields,
}
use godwit.Providers.Anthropic.Stream.{
  build_sse_finish, normalize_anthropic_sse_event, normalize_all, typed_events,
}

-- The events of an answer, as the API documents them: the start of the message with the tokens of the
-- prompt, the start and the end of a block, fragments of a text and of the JSON of a tool, the stop
-- reason with the tokens of the completion, and the end.
pub data AnswerEvent (T : Type 0) : Type 0 where
  message_start : ℤ → AnswerEvent T
  content_block_start content_block_stop message_stop : AnswerEvent T
  text_delta input_json_delta : T → AnswerEvent T
  message_delta : T → ℤ → AnswerEvent T

module _ (w : Wire) (parse_error : w.T → w.T) where
  open w use {
    T, J, lit, opens_brace, render, of_text, of_int, of_fields, parse-render, get-of_fields,
    as_str-of_text, as_i64-of_int, is_lit-lit,
  }

  -- An event of a type, with the other fields of its payload.
  abbrev typed : String → List (String × J) → T
  typed kind fs = render (of_fields (("type", of_text (lit kind)) ∷ fs))

  abbrev delta_of : String → List (String × J) → List (String × J)
  delta_of kind fs = ("delta", of_fields (("type", of_text (lit kind)) ∷ fs)) ∷ []

  unfoldable pub payload : AnswerEvent T → T
  payload (message_start input_tokens) = typed "message_start" (
      (
        "message",
        of_fields (("usage", of_fields (("input_tokens", of_int input_tokens) ∷ [])) ∷ []),
      )
      ∷ [])
  payload content_block_start = typed "content_block_start" []
  payload content_block_stop = typed "content_block_stop" []
  payload message_stop = typed "message_stop" []
  payload (text_delta t) =
      typed "content_block_delta" (delta_of "text_delta" (("text", of_text t) ∷ []))
  payload (input_json_delta t) =
      typed "content_block_delta" (delta_of "input_json_delta" (("partial_json", of_text t) ∷ []))
  payload (message_delta reason output_tokens) = typed "message_delta" (
      ("delta", of_fields (("stop_reason", of_text reason) ∷ []))
      ∷ ("usage", of_fields (("output_tokens", of_int output_tokens) ∷ []))
      ∷ [])

  -- What the event says in the canonical stream.
  abbrev pub meaning : AnswerEvent T → List (CanonicalEvent T)
  meaning (text_delta t) = delta_event w t ∷ []
  meaning (message_delta reason output_tokens) =
      finish (pos 0) (wrap_i32 (wrap_i32 output_tokens)) none ∷ []
  meaning _ = []

  abbrev pub meanings : List (AnswerEvent T) → List (CanonicalEvent T)
  meanings [] = []
  meanings (e ∷ es) = meaning e ++ meanings es

  -- A payload is read by its type.
  normalize-typed :
      (kind : String) (fs : List (String × J))
      → normalize_anthropic_sse_event w parse_error (typed kind fs)
        ≡ typed_events w parse_error
            (of_fields (("type", of_text (lit kind)) ∷ fs))
            (some (lit kind))
  unfolding normalize_anthropic_sse_event
  normalize-typed kind fs = rw (parse-render, get-of_fields) (rw as_str-of_text)

  read_finish :
      (output_tokens : ℤ)
      → parse_canonical_event w (
          build_sse_finish w parse_error (of_fields (("output_tokens", of_int output_tokens) ∷ [])))
        ≡ finish (pos 0) (wrap_i32 (wrap_i32 output_tokens)) none
  unfolding build_sse_finish
  read_finish n =
      rw (parse_canonical-fields w _ "finish" refl)
        (simp (is_lit-lit, get-of_fields, as_i64-of_int))

  event_read :
      (e : AnswerEvent T)
      → map (parse_canonical_event w) (normalize_anthropic_sse_event w parse_error (payload e))
        ≡ meaning e
  unfolding payload
  event_read (message_start n) = rw (normalize-typed "message_start" _) (simp is_lit-lit)
  event_read content_block_start = rw (normalize-typed "content_block_start" _) (simp is_lit-lit)
  event_read content_block_stop = rw (normalize-typed "content_block_stop" _) (simp is_lit-lit)
  event_read message_stop = rw (normalize-typed "message_stop" _) (simp is_lit-lit)
  event_read (text_delta t) =
      rw (normalize-typed "content_block_delta" _)
        (simp (is_lit-lit, get-of_fields, as_str-of_text, parse_canonical_event-build_sse_delta w))
  event_read (input_json_delta t) =
      rw (normalize-typed "content_block_delta" _)
        (simp (is_lit-lit, get-of_fields, as_str-of_text))
  event_read (message_delta r n) =
      rw (normalize-typed "message_delta" _) (simp (is_lit-lit, get-of_fields, read_finish))

  map-append : {A B : Type 0} (f : A → B) (xs ys : List A) → map f (xs ++ ys) ≡ map f xs ++ map f ys
  map-append f [] ys = refl
  map-append f (x ∷ xs) ys = ap (λ l. f x ∷ l) (map-append f xs ys)

  -- A streamed answer is read as its fragments of text, in their order and as they came, but for those
  -- that begin with a brace, and a finish with the tokens of the completion: the stop reason, the
  -- tokens of the prompt and the fragments of tool calls are lost.
  pub answer_read :
      (es : List (AnswerEvent T))
      → map (parse_canonical_event w) (normalize_all w parse_error (map payload es)) ≡ meanings es
  unfolding normalize_all
  answer_read [] = refl
  answer_read (e ∷ es) =
      map-append (parse_canonical_event w) (normalize_anthropic_sse_event w parse_error (payload e))
        _
      ∙ rw (event_read e, answer_read es)
