-- ===== src/Providers/SseLines/Tests.antt =====
-- Runs of the reader of events, and the theorems at concrete chunks.
use godwit.Base.{String, Result, ok, err, List, [], ◌∷◌, ◌++◌, ◌≡◌, refl, if◌then◌else◌}
use godwit.Base.Utf8.{from_utf8_lossy}
use godwit.Providers.Wire.Values.{Word, plain, json, str, arr, obj, cons, nil, entry, end, values}
use godwit.Providers.Streaming.{build_sse_delta, normalize_openai_sse_event}
use godwit.Providers.SseLines.{
  Text, parse_sse_events, chat_stream_events, data_prefix, done_mark, same,
}
use godwit.Providers.SseLines.Frames.{
  Frame, payload, done, IsFramed, chunks, streamed, chat_stream_events-frames,
}

abbrev hello : Text
hello = 104 ∷ 105 ∷ []

abbrev world : Text
world = 119 ∷ 111 ∷ []

abbrev hello_line : Text
hello_line = data_prefix ++ (hello ++ (13 ∷ 10 ∷ []))

-- Empty lines, comments and the end mark are no events.
only_payloads :
    parse_sse_events (hello_line ++ (10 ∷ 58 ∷ 10 ∷ (data_prefix ++ done_mark))) ≡ hello ∷ []
unfolding parse_sse_events
only_payloads = refl

-- The text `hi` stands for a chunk of a completion with this content, and others for no JSON.
abbrev chunk : Word
chunk = json (
    obj (
      entry "choices"
        (arr (cons (obj (entry "delta" (obj (entry "content" (str (plain "hi")) end)) end)) nil))
        end))

abbrev of_chars : Text → Word
of_chars t = if same t hello then chunk else plain "?"

-- A chunk with two payloads, one that failed, and one with the end mark and a payload after it.
abbrev stream : List (Result String (List Frame))
stream = ok (payload hello ∷ payload world ∷ []) ∷ err "reset" ∷ ok (done ∷ payload hello ∷ []) ∷ []

hello-IsFramed : IsFramed (payload hello)
unfolding from_utf8_lossy
hello-IsFramed = (((refl, (refl, tt)), 104 ∷ [], 105, refl, refl), refl)

world-IsFramed : IsFramed (payload world)
unfolding from_utf8_lossy
world-IsFramed = (((refl, (refl, tt)), 119 ∷ [], 111, refl, refl), refl)

gives_content_twice :
    streamed values of_chars stream
    ≡ build_sse_delta values (plain "hi") ∷ build_sse_delta values (plain "hi") ∷ []
unfolding from_utf8_lossy normalize_openai_sse_event
gives_content_twice = refl

chat_stream_events-frames_example :
    chat_stream_events values of_chars (chunks values of_chars stream)
    ≡ streamed values of_chars stream
chat_stream_events-frames_example =
    chat_stream_events-frames values of_chars stream
      ((hello-IsFramed, (world-IsFramed, tt)), ((tt, (hello-IsFramed, tt)), tt))
