-- ===== src/Mcp/Server/Tests.antt =====
-- A server that reads a ping, a notification and a line that is no message.
use godwit.Base.{
  false, String, none, List, [], ◌∷◌, map, ◌==◌, string_key, empty_text, if◌then◌else◌, Result, ok,
  err, ◌≡◌, refl,
}
use godwit.Base.Int.{pos}
use godwit.Core.Json.{Json}
use godwit.Mcp.Server.{
  RpcMessage, request, notification, error, GatewayConfig, Outside, method_not_found,
  handle_request, serve,
}
use godwit.Mcp.Server.Answers.{response_id, request_ids, serve-ids}

-- JSON without any content.
abbrev unit_json : Json
unit_json = record {
  J = Unit {0};
  get = λ v k. none;
  as_array = λ v. none;
  as_str = λ v. none;
  as_u64 = λ v. none;
  is_object = λ v. false;
  set = λ v k x. v;
  of_str = λ s. tt;
  of_list = λ l. tt;
  of_fields = λ l. tt;
}

abbrev from_frame : String → Result String (RpcMessage (Unit {0}))
from_frame line =
    if line == "ping"
    then ok (request (record { id = pos 7; method = "ping"; params = none }))
    else if line == "note"
    then ok (notification "note" none)
    else err "expected value"

abbrev outside : Outside unit_json
outside = record {
  is_blank = empty_text;
  from_frame = from_frame;
  post = λ url auth body. err "connection refused";
  server_info = tt;
  tools_list = tt;
  json_false = tt;
}

abbrev gateway : GatewayConfig
gateway = record { base_url = "http://g/"; api_key = "k"; default_model = "m" }

abbrev lines : List String
lines = "ping" ∷ "" ∷ "note" ∷ []

answered : serve unit_json outside gateway lines ≡ (
  error (pos 7) (record { code = method_not_found; message = "method not found: ping" }) ∷ [],
  ok tt,
)
unfolding serve handle_request
answered = refl

fine : (serve unit_json outside gateway lines).1 ≡ ok tt
unfolding serve handle_request
fine = refl

serve-ids_example :
    map response_id (serve unit_json outside gateway lines).0
    ≡ request_ids unit_json outside gateway lines
serve-ids_example = serve-ids unit_json outside gateway lines
