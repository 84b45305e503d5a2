-- ===== src/Providers/SseEgress/Tests.antt =====
-- The theorems at concrete streams.
use godwit.Base.{Option, some, List, [], ◌∷◌}
use godwit.Base.Int.{pos}
use godwit.Providers.Wire.Values.{values, Word, plain}
use godwit.Providers.Streaming.{build_sse_delta, build_sse_finish}
use godwit.Providers.SseEgress.OpenAiStream
use godwit.Providers.SseEgress.OpenAiStream.{OpenAiStreamTranslator}
use godwit.Providers.SseEgress.OpenAiStream.Grammar as OpenAiGrammar

abbrev stop : Option Word
stop = some (plain "stop")

abbrev stream : List Word
stream =
    build_sse_delta values (plain "hi")
    ∷ build_sse_finish values (pos 3) (pos 1) stop
    ∷ build_sse_delta values (plain "late")
    ∷ []
