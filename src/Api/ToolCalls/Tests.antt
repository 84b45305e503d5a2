-- ===== src/Api/ToolCalls/Tests.antt =====
-- The theorems at concrete streams.
use godwit.Base.{ℕ, Option, none, some, List, [], ◌∷◌, Result, ok, err, ◌≡◌, refl}
use godwit.Base.Int.{pos}
use godwit.Providers.Wire.Values.{
  values, Word, plain, json, Value, num, str, nothing, obj, entry, end,
}
use godwit.Providers.Streaming.{build_sse_delta, build_sse_finish}
use godwit.Api.ToolCalls.{ToolCall, new, push_delta, finish_all, process_streaming_tool_calls}
use godwit.Api.ToolCalls.Fragments.{push_deltas, fragments, runs, complete_all, finish_all-runs}
use godwit.Api.ToolCalls.Loop.{without_results, passed_on, process-passed_on}

abbrev as_u64 : Value → Option ℕ
as_u64 (num (pos n)) = some n
as_u64 _ = none

abbrev fragment : ℕ → Word → Word → Word → Word
fragment index id name arguments = json (
    obj (
      entry "index" (num (pos index)) (
        entry "id" (str id) (
          entry "function" (obj (entry "name" (str name) (entry "arguments" (str arguments) end)))
            end))))

abbrev two_calls : List Word
two_calls =
    fragment 0 (plain "a") (plain "f") (plain "{")
    ∷ fragment 0 (plain "") (plain "") (plain "}")
    ∷ plain "noise"
    ∷ fragment 1 (plain "b") (plain "g") (plain "{}")
    ∷ []

-- The fragments of a call are joined, and the next index ends it.
two_calls_joined :
    (finish_all values as_u64 (push_deltas values as_u64 (new values as_u64) two_calls)).1
    ≡ record { id = plain "a"; name = plain "f"; arguments = plain "{}" }
      ∷ record { id = plain "b"; name = plain "g"; arguments = plain "{}" }
      ∷ []
unfolding finish_all push_delta new
two_calls_joined = refl

finish_all-runs_example :
    (finish_all values as_u64 (push_deltas values as_u64 (new values as_u64) two_calls)).1
    ≡ complete_all values as_u64 (runs values as_u64 (fragments values as_u64 two_calls))
finish_all-runs_example = finish_all-runs values as_u64 two_calls

abbrev answers : List (ToolCall values as_u64) → List Value
answers cs = nothing ∷ []

abbrev events : List (Result Word Word)
events =
    ok (build_sse_delta values (fragment 0 (plain "a") (plain "f") (plain "{}")))
    ∷ ok (build_sse_finish values (pos 1) (pos 1) none)
    ∷ err (plain "closed")
    ∷ ok (plain "late")
    ∷ []

process-passed_on_example :
    without_results values as_u64 (process_streaming_tool_calls values as_u64 answers events)
    ≡ passed_on values as_u64 events
process-passed_on_example = process-passed_on values as_u64 answers events
