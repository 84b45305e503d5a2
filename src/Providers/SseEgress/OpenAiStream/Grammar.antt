-- ===== src/Providers/SseEgress/OpenAiStream/Grammar.antt =====
-- The frames of an OpenAI stream, without the state of its translator.
use godwit.Base.{Bool, List, [], ◌∷◌, ◌++◌}
use godwit.Base.Int.{ℤ}
use godwit.Providers.Wire.{Wire}
use godwit.Providers.SseEgress.{
  ServerSentFrame, CanonicalEvent, delta, tool_call, finish, error, unknown, parse_canonical_event,
  canonical_to_openai_finish,
}
use godwit.Providers.SseEgress.OpenAiStream.{
  OpenAiStreamTranslator, role_chunk, chunk, tool_call_chunks, error_frame, push,
}

module _ (w : Wire) where
  open w use {T, J, lit, null, of_text, of_fields}

  -- The frames of the payloads of a stream, pushed one after the other.
  pub run : OpenAiStreamTranslator w → List T → List (ServerSentFrame J)
  run t [] = []
  run t (d ∷ ds) = let (t', frames) = push w t d in frames ++ run t' ds

  -- The frames of an event, then those of the later ones. A finish and an error end the stream.
  abbrev frames_from :
      OpenAiStreamTranslator w
      → CanonicalEvent T
      → List (ServerSentFrame J)
      → List (ServerSentFrame J)
  frames_from t (delta s) later = chunk w t null (of_fields (("content", of_text s) ∷ [])) ∷ later
  frames_from t (tool_call packed) later = tool_call_chunks w t packed ++ later
  frames_from t (finish p c reason) later =
      chunk w t (of_text (lit (canonical_to_openai_finish w reason))) (of_fields []) ∷ []
  frames_from t (error message) later = error_frame w message ∷ []
  frames_from t unknown later = later

  -- What the payloads stand for, up to and with the first that finishes the stream or is an error.
  pub body : OpenAiStreamTranslator w → List T → List (ServerSentFrame J)
  body t [] = []
  body t (d ∷ ds) = frames_from t (parse_canonical_event w d) (body t ds)

  -- A role chunk, if there is any payload, and the body.
  pub openai_stream : OpenAiStreamTranslator w → List T → List (ServerSentFrame J)
  openai_stream t [] = []
  openai_stream t (d ∷ ds) = role_chunk w t ∷ body t (d ∷ ds)

  -- A translator at work.
  abbrev at : T → T → ℤ → Bool → Bool → OpenAiStreamTranslator w
  at id model created started finished = record {
    id = id;
    model = model;
    created = created;
    started = started;
    finished = finished;
  }
