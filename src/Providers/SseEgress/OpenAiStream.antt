-- ===== src/Providers/SseEgress/OpenAiStream.antt =====
-- `OpenAiStreamTranslator` of crates/godwit-providers/src/sse_egress.rs.
pub mod Grammar
use godwit.Base.{
  Bool, true, false, not, ◌||◌, String, Option, none, some, List, [], ◌∷◌, ◌++◌, if◌then◌else◌,
}
use godwit.Base.Int.{ℤ, pos}
use godwit.Resilience.Fallback.{and_then}
use godwit.Providers.Wire.{Wire}
use godwit.Providers.SseEgress.{
  ServerSentFrame, plain, event, CanonicalEvent, delta, tool_call, finish, error, unknown, or_empty,
  or_zero, text_field, function_field, parse_canonical_event, canonical_to_openai_finish,
  canonical_to_anthropic_stop,
}

module _ (w : Wire) where
  open w use {
    T, J, lit, is_empty, parse, get, as_str, as_i64, null, of_text, of_int, of_list, of_fields,
  }

  pub record OpenAiStreamTranslator : Type 0 where
    pub id : T
    pub model : T
    pub created : ℤ
    pub started : Bool
    pub finished : Bool

  pub openai_chunk : T → T → ℤ → List J → ServerSentFrame J
  openai_chunk id model created choices = plain (
      of_fields (
        ("id", of_text id)
        ∷ ("object", of_text (lit "chat.completion.chunk"))
        ∷ ("created", of_int created)
        ∷ ("model", of_text model)
        ∷ ("choices", of_list choices)
        ∷ []))

  -- `openai_choice_common` with its finish reason and its delta.
  abbrev pub choice_with : J → J → J
  choice_with finish_reason fragment =
      of_fields
        (("index", of_int (pos 0)) ∷ ("finish_reason", finish_reason) ∷ ("delta", fragment) ∷ [])

  -- A chunk of a translator with one choice.
  abbrev pub chunk : OpenAiStreamTranslator → J → J → ServerSentFrame J
  chunk t finish_reason fragment =
      openai_chunk t.id t.model t.created (choice_with finish_reason fragment ∷ [])

  abbrev pub call_chunk : OpenAiStreamTranslator → J → T → List (String × J) → ServerSentFrame J
  call_chunk t index id function = chunk t null (
      of_fields (
        (
          "tool_calls",
          of_list (
              of_fields (
                ("index", index)
                ∷ ("type", of_text (lit "function"))
                ∷ ("function", of_fields function)
                ∷ (if is_empty id then [] else ("id", of_text id) ∷ []))
              ∷ []),
        )
        ∷ []))

  abbrev parts_chunks : OpenAiStreamTranslator → J → T → T → T → List (ServerSentFrame J)
  parts_chunks t index id name args =
      (if not (is_empty id) || not (is_empty name)
        then call_chunk t index id (("name", of_text name) ∷ ("arguments", of_text (lit "")) ∷ [])
          ∷ []
        else [])
      ++ (if is_empty args
          then []
          else call_chunk t index id (("arguments", of_text args) ∷ []) ∷ [])

  abbrev packed_chunks : OpenAiStreamTranslator → Option J → List (ServerSentFrame J)
  packed_chunks t none = []
  packed_chunks t (some v) =
      parts_chunks t (of_int (or_zero w (and_then (get v "index") as_i64)))
        (or_empty w (text_field w v "id")) (or_empty w (function_field w v "name"))
        (or_empty w (function_field w v "arguments"))

  pub tool_call_chunks : OpenAiStreamTranslator → T → List (ServerSentFrame J)
  tool_call_chunks t packed = packed_chunks t (parse packed)

  -- The first chunk of a stream.
  abbrev pub role_chunk : OpenAiStreamTranslator → ServerSentFrame J
  role_chunk t =
      chunk t null
        (of_fields (("role", of_text (lit "assistant")) ∷ ("content", of_text (lit "")) ∷ []))

  abbrev pub error_frame : T → ServerSentFrame J
  error_frame message = plain (
      of_fields (
        (
          "error",
          of_fields (
              ("message", of_text message)
              ∷ ("type", of_text (lit "server_error"))
              ∷ ("param", null)
              ∷ ("code", null)
              ∷ []),
        )
        ∷ []))

  -- The `match` of `push`: whether the stream is finished, and the frames.
  abbrev pub openai_frames :
      OpenAiStreamTranslator → CanonicalEvent T → Bool × List (ServerSentFrame J)
  openai_frames t (delta s) = (false, chunk t null (of_fields (("content", of_text s) ∷ [])) ∷ [])
  openai_frames t (tool_call packed) = (false, tool_call_chunks t packed)
  openai_frames t (finish p c reason) =
      (true, chunk t (of_text (lit (canonical_to_openai_finish w reason))) (of_fields []) ∷ [])
  openai_frames t (error message) = (true, error_frame message ∷ [])
  openai_frames t unknown = (false, [])

  pub new : T → T → ℤ → OpenAiStreamTranslator
  new id model created = record {
    id = id;
    model = model;
    created = created;
    started = false;
    finished = false;
  }

  unfoldable pub push :
      OpenAiStreamTranslator → T → OpenAiStreamTranslator × List (ServerSentFrame J)
  unfolding tool_call_chunks canonical_to_openai_finish openai_chunk
  push t d =
      let (done, frames) = openai_frames t (parse_canonical_event w d) in
      if t.finished then (t, []) else (
        record t { started = true; finished = done },
        (if t.started then [] else role_chunk t ∷ []) ++ frames,
      )
