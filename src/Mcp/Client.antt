-- ===== src/Mcp/Client.antt =====
-- `McpClient` of crates/godwit-mcp/src/client.rs: requests and their answers over the pipes of a server.
--
-- The lines that come from the server are what `read_frame` gives one after the other, trimmed and with
-- the blank ones left out, up to where the server closes its output; `read_frame` itself is left out.
-- What is written is a list of messages, and writing does not fail. Parsing a line (`from_frame`),
-- reading the list of tools and JSON are parameters. Starting the process is left out, and that an id,
-- which counts from 1, does not fit 64 bits.
pub mod Turns
mod Tests
use godwit.Base.{
  ℕ, suc, Bool, true, false, String, Option, none, some, List, [], ◌∷◌, ◌++◌, nat_beq, empty_text,
  ◌<>◌, if◌then◌else◌, Result, ok, err,
}
use godwit.Base.Int.{ℤ, pos, negsuc}
use godwit.Core.Json.{Json}
use godwit.Resilience.Fallback.{and_then}
use godwit.Mcp.Server.{
  RpcRequest, RpcError, RpcResponse, result, error, RpcMessage, request, response, notification,
}

pub data McpClientError : Type 0 where
  frame_error : String → McpClientError
  remote : String → ℤ → String → McpClientError
  closed : String → McpClientError
  unexpected_response_id : ℤ → ℤ → McpClientError
  empty_tool_result : String → McpClientError

abbrev pub same_id : ℤ → ℤ → Bool
same_id (pos a) (pos b) = nat_beq a b
same_id (negsuc a) (negsuc b) = nat_beq a b
same_id (pos a) (negsuc b) = false
same_id (negsuc a) (pos b) = false

module _ (js : Json) (from_frame : String → Result String (RpcMessage js.J)) where
  open js use {J, get, as_array, as_str, of_str, of_fields}

  pub record McpClient : Type 0 where
    pub next_id : ℕ
    pub written : List (RpcMessage J)
    pub incoming : List String

  -- The arms of the `match` on a response: the result of the request, if the response ends it.
  abbrev pub matched : ℤ → String → RpcResponse J → Result McpClientError J
  matched id method (result rid value) =
      if same_id rid id then ok value else err (unexpected_response_id id rid)
  matched id method (error rid e) = err (remote method e.code e.message)

  abbrev pub on_message :
      ℤ
      → String
      → List String
      → Result String (RpcMessage J)
      → List String × Result McpClientError J
      → List String × Result McpClientError J
  on_message id method lines (err e) rest = (lines, err (frame_error e))
  on_message id method lines (ok (response r)) rest = (lines, matched id method r)
  on_message id method lines (ok (request r)) rest = rest
  on_message id method lines (ok (notification m params)) rest = rest

  -- The loop of `request`: the lines that are left, and the result.
  pub await_response : ℤ → String → List String → List String × Result McpClientError J
  await_response id method [] = ([], err (closed method))
  await_response id method (line ∷ lines) =
      on_message id method lines (from_frame line) (await_response id method lines)

  -- `request`
  pub send_request : String → Option J → McpClient → McpClient × Result McpClientError J
  unfolding await_response
  send_request method params c =
      let (left, r) = await_response (pos c.next_id) method c.incoming in
      (
        record {
          next_id = suc c.next_id;
          written =
              c.written
              ++ (request (record { id = pos c.next_id; method = method; params = params }) ∷ []);
          incoming = left;
        },
        r,
      )

  abbrev add_text : String → Option String → String
  add_text all none = all
  add_text all (some t) = if empty_text all then t else all <> "\n" <> t

  abbrev texts : String → List J → String
  texts all [] = all
  texts all (item ∷ items) = texts (add_text all (and_then (get item "text") as_str)) items

  abbrev or_none : Option (List J) → List J
  or_none none = []
  or_none (some l) = l

  abbrev read_result : String → Result McpClientError J → Result McpClientError String
  read_result name (err e) = err e
  read_result name (ok r) =
      let t = texts "" (or_none (and_then (get r "content") as_array)) in
      if empty_text t then err (empty_tool_result name) else ok t

  pub call_tool : String → J → McpClient → McpClient × Result McpClientError String
  unfolding send_request
  call_tool name arguments c =
      let (c', r) =
        send_request "tools/call"
          (some (of_fields (("name", of_str name) ∷ ("arguments", arguments) ∷ []))) c in
      (c', read_result name r)
