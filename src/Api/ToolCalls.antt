-- ===== src/Api/ToolCalls.antt =====
-- crates/godwit-api/src/proxy_streaming.rs: the buffer that puts the fragments of tool calls together,
-- and the loop over the events of a stream. JSON and texts are the interface `Wire`; what
-- `resolve_tool_calls` answers is a parameter. That the client has gone away is left out: a send that
-- fails is ignored by the code.
pub mod Fragments
pub mod Loop
mod Tests
use godwit.Base.{
  ℕ, Bool, true, false, not, ◌&&◌, String, Option, none, some, List, [], ◌∷◌, ◌++◌, if◌then◌else◌,
  nat_beq, Result, ok, err,
}
use godwit.Resilience.Fallback.{and_then}
use godwit.Providers.Wire.{Wire}
use godwit.Providers.Streaming.{build_sse_error}
use godwit.Providers.SseEgress.{
  CanonicalEvent, delta, tool_call, finish, error, unknown, parse_canonical_event, text_field,
  function_field, or_empty,
}

module _ (w : Wire) (as_u64 : w.J → Option ℕ) where
  open w use {T, J, lit, is_empty, parse, render, get, as_str, push_str, of_text, of_fields}

  -- `ToolCall`, whose type is always "function"; so is `CompleteToolCall`.
  pub record ToolCall : Type 0 where
    pub id : T
    pub name : T
    pub arguments : T

  pub record CurrentToolState : Type 0 where
    pub index : ℕ
    pub id : T
    pub name : T
    pub arguments : T

  pub record ToolCallBuffer : Type 0 where
    pub current_tool : Option CurrentToolState
    pub accumulated_tools : List ToolCall

  pub new : ToolCallBuffer
  new = record { current_tool = none; accumulated_tools = [] }

  abbrev index_of : Option ℕ → ℕ
  index_of none = 0
  index_of (some n) = n

  -- A fragment as it is parsed: the state that it starts.
  abbrev pub fragment_of : J → CurrentToolState
  fragment_of v = record {
    index = index_of (and_then (get v "index") as_u64);
    id = or_empty w (text_field w v "id");
    name = or_empty w (function_field w v "name");
    arguments = or_empty w (function_field w v "arguments");
  }

  abbrev pub complete : CurrentToolState → ToolCall
  complete s = record { id = s.id; name = s.name; arguments = s.arguments }

  abbrev pub non_empty_or : T → T → T
  non_empty_or new_one old = if is_empty new_one then old else new_one

  -- The fragment after those of the state.
  abbrev pub extend : CurrentToolState → CurrentToolState → CurrentToolState
  extend s f = record s {
    name = non_empty_or f.name s.name;
    arguments = push_str s.arguments f.arguments;
    id = non_empty_or f.id s.id;
  }

  abbrev pub push_fragment :
      ToolCallBuffer → Option CurrentToolState → CurrentToolState → ToolCallBuffer
  push_fragment b none f = record b { current_tool = some f }
  push_fragment b (some s) f =
      if nat_beq s.index f.index then record b { current_tool = some (extend s f) } else record b {
        accumulated_tools = b.accumulated_tools ++ (complete s ∷ []);
        current_tool = some f;
      }

  abbrev push_parsed : ToolCallBuffer → Option J → ToolCallBuffer
  push_parsed b none = b
  push_parsed b (some v) = push_fragment b b.current_tool (fragment_of v)

  pub push_delta : ToolCallBuffer → T → ToolCallBuffer
  push_delta b d = push_parsed b (parse d)

  abbrev completed : Option CurrentToolState → Option ToolCall
  completed none = none
  completed (some s) = some (complete s)

  pub finish_current_tool : ToolCallBuffer → ToolCallBuffer × Option ToolCall
  finish_current_tool b = (record b { current_tool = none }, completed b.current_tool)

  abbrev holds_tool : Option CurrentToolState → Bool
  holds_tool none = false
  holds_tool (some s) = not (is_empty s.arguments) && not (is_empty s.name)

  pub has_complete_tool : ToolCallBuffer → Bool
  has_complete_tool b = holds_tool b.current_tool

  abbrev with_last : List ToolCall → Option ToolCall → List ToolCall
  with_last all none = all
  with_last all (some c) = all ++ (c ∷ [])

  pub finish_all : ToolCallBuffer → ToolCallBuffer × List ToolCall
  unfolding finish_current_tool
  finish_all b =
      let all = b.accumulated_tools in
      let (b', last) = finish_current_tool (record b { accumulated_tools = [] }) in
      (b', with_last all last)

  -- What is sent on: an event of the stream, the result of a tool, or the error that ends it.
  pub data Sent : Type 0 where
    forwarded result failed : T → Sent

  module _ (resolve_tool_calls : List ToolCall → List J) where
    abbrev result_events : List J → List Sent
    result_events [] = []
    result_events (msg ∷ msgs) =
        result (render (of_fields (("type", of_text (lit "tool_result")) ∷ ("message", msg) ∷ [])))
        ∷ result_events msgs

    -- The loop over the tools; those without a name are left out.
    pub tool_results : List ToolCall → List Sent
    tool_results [] = []
    tool_results (c ∷ cs) =
        (if is_empty c.name then [] else result_events (resolve_tool_calls (c ∷ [])))
        ++ tool_results cs

    -- The `match` on an event: the buffer, whether a call was seen, and what is sent.
    abbrev pub on_event :
        ToolCallBuffer → Bool → T → CanonicalEvent T → ToolCallBuffer × Bool × List Sent
    on_event b detected e (tool_call packed) = (push_delta b packed, true, forwarded e ∷ [])
    on_event b detected e (finish p c r) =
        let (b', tools) = finish_all b in
        if detected
        then (b', true, forwarded e ∷ tool_results tools)
        else (b, false, forwarded e ∷ [])
    on_event b detected e _ = (b, detected, forwarded e ∷ [])

    -- `process_streaming_tool_calls`: the loop over the events, of which an error is the last.
    pub process_from : ToolCallBuffer → Bool → List (Result T T) → List Sent
    unfolding push_delta finish_all tool_results
    process_from b detected [] = []
    process_from b detected (err e ∷ events) = failed (build_sse_error w e) ∷ []
    process_from b detected (ok e ∷ events) =
        let (b', detected', sent) = on_event b detected e (parse_canonical_event w e) in
        sent ++ process_from b' detected' events

    pub process_streaming_tool_calls : List (Result T T) → List Sent
    unfolding process_from
    process_streaming_tool_calls = process_from new false
