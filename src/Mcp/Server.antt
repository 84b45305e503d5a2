-- ===== src/Mcp/Server.antt =====
-- `McpServer` of crates/godwit-mcp/src/server.rs: the loop over the lines and the handlers.
--
-- A line is what the reader gives, trimmed or not; parsing it (`from_frame`), JSON and the HTTP client
-- are parameters. The texts of the tool's description are left out; that writing fails is, too.
pub mod Answers
mod Tests
use godwit.Base.{
  ℕ, Bool, true, false, not, String, Option, none, some, List, [], ◌∷◌, ◌++◌, ◌<>◌, ◌==◌,
  string_key, show, empty_text, trim_end_slashes, if◌then◌else◌, Result, ok, err, ◌>>=◌,
}
use godwit.Base.Int.{ℤ, pos, negsuc}
use godwit.Core.Json.{Json, HttpResponse, is_success}
use godwit.Resilience.Fallback.{and_then}

pub record RpcRequest (J : Type 0) : Type 0 where
  pub id : ℤ
  pub method : String
  pub params : Option J

pub record RpcError : Type 0 where
  pub code : ℤ
  pub message : String

pub data RpcResponse (J : Type 0) : Type 0 where
  result : ℤ → J → RpcResponse J
  error : ℤ → RpcError → RpcResponse J

pub data RpcMessage (J : Type 0) : Type 0 where
  request : RpcRequest J → RpcMessage J
  response : RpcResponse J → RpcMessage J
  notification : String → Option J → RpcMessage J

-- `-32601`, `-32602` and `-32603`
abbrev pub method_not_found : ℤ
method_not_found = negsuc 32600

abbrev pub invalid_params : ℤ
invalid_params = negsuc 32601

abbrev pub internal_error : ℤ
internal_error = negsuc 32602

pub record GatewayConfig : Type 0 where
  pub base_url : String
  pub api_key : String
  pub default_model : String

-- What the server uses beside itself: the parser of a line, the client, and the constant answers.
pub record Outside (js : Json) : Type 0 where
  pub is_blank : String → Bool
  pub from_frame : String → Result String (RpcMessage js.J)
  pub post : String → String → js.J → Result String (HttpResponse js.J)
  pub server_info : js.J
  pub tools_list : js.J
  pub json_false : js.J

module _ (js : Json) (outside : Outside js) (gateway : GatewayConfig) where
  open js use {J, get, as_array, as_str, of_str, of_list, of_fields}
  open outside use {is_blank, from_frame, post, server_info, tools_list, json_false}

  abbrev pub Answer : Type 0
  Answer = Result RpcError J

  abbrev pub fail : {A : Type 0} → ℤ → String → Result RpcError A
  fail code message = err (record { code = code; message = message })

  abbrev or_text : String → Option String → String
  or_text d none = d
  or_text d (some s) = s

  abbrev or_fail : {A : Type 0} → String → Option A → Result RpcError A
  or_fail message none = fail invalid_params message
  or_fail message (some a) = ok a

  pub grant_initialize : Option J → Result RpcError (Unit {0})
  grant_initialize params =
      if empty_text (or_text "" (and_then (and_then params λ p. get p "protocolVersion") as_str))
      then fail invalid_params "missing protocolVersion"
      else ok tt

  pub handle_initialize : RpcRequest J → Answer
  unfolding grant_initialize
  handle_initialize req = do granted ← grant_initialize req.params; ok server_info

  pub handle_tools_list : RpcRequest J → Answer
  handle_tools_list req = ok tools_list

  abbrev first : List J → Option J
  first [] = none
  first (x ∷ xs) = some x

  -- `pointer("/choices/0/message/content")`, as a text
  abbrev completion_text : J → Option String
  completion_text v =
      and_then
        (and_then
          (and_then (and_then (and_then (get v "choices") as_array) first) λ c. get c "message")
          λ m. get m "content")
        as_str

  abbrev tool_result : String → J
  tool_result t = of_fields (
      ("content", of_list (of_fields (("type", of_str "text") ∷ ("text", of_str t) ∷ []) ∷ []))
      ∷ ("isError", json_false)
      ∷ [])

  abbrev read_body : Result String J → Answer
  read_body (err e) = fail internal_error ("failed to parse gateway response: " <> e)
  read_body (ok completion) =
      ok (tool_result (or_text "(empty response)" (completion_text completion)))

  abbrev read_response : Result String (HttpResponse J) → Answer
  read_response (err e) = fail internal_error ("gateway request failed: " <> e)
  read_response (ok r) =
      if is_success r.status
      then read_body r.json
      else fail internal_error ("gateway returned " <> show r.status <> ": " <> r.text)

  abbrev chat : J → Answer
  chat args = do
    messages ← or_fail "missing 'messages' argument" (get args "messages")
    read_response (
        post (trim_end_slashes gateway.base_url <> "/v1/chat/completions")
          ("Bearer " <> gateway.api_key)
          (of_fields (
            ("model", of_str (or_text gateway.default_model (and_then (get args "model") as_str)))
            ∷ ("messages", messages)
            ∷ [])))

  abbrev call_of : String → Option J → Answer
  call_of name params =
      if not (name == "godwit_chat")
      then fail invalid_params ("unknown tool '" <> name <> "' (only 'godwit_chat' is available)")
      else or_fail "missing 'arguments'" (and_then params λ p. get p "arguments") >>= chat

  pub handle_tools_call : RpcRequest J → Answer
  handle_tools_call req =
      call_of (or_text "" (and_then (and_then req.params λ p. get p "name") as_str)) req.params

  abbrev pub respond : ℤ → Answer → RpcResponse J
  respond id (ok value) = result id value
  respond id (err e) = error id e

  pub handle_request : RpcRequest J → RpcResponse J
  unfolding handle_initialize handle_tools_list handle_tools_call
  handle_request req =
      if req.method == "initialize"
      then respond req.id (handle_initialize req)
      else if req.method == "tools/list"
      then respond req.id (handle_tools_list req)
      else if req.method == "tools/call"
      then respond req.id (handle_tools_call req)
      else error req.id
          (record { code = method_not_found; message = "method not found: " <> req.method })

  abbrev pub answer_to : RpcMessage J → List (RpcResponse J)
  answer_to (request req) = handle_request req ∷ []
  answer_to (response r) = []
  answer_to (notification method params) = []

  abbrev pub served :
      Result String (RpcMessage J)
      → List (RpcResponse J) × Result String (Unit {0})
      → List (RpcResponse J) × Result String (Unit {0})
  served (err e) rest = ([], err e)
  served (ok message) (out, end) = (answer_to message ++ out, end)

  -- `serve`: what is written for the lines, and how the loop ends.
  pub serve : List String → List (RpcResponse J) × Result String (Unit {0})
  unfolding handle_request
  serve [] = ([], ok tt)
  serve (line ∷ lines) =
      let rest = serve lines in if is_blank line then rest else served (from_frame line) rest
