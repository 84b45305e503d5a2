-- ===== src/Mcp/Registry/Tests.antt =====
-- A registry of two servers, and instances of the theorems on it.
use godwit.Base.{ℕ, String, none, [], ◌∷◌, ◌++◌, ok, ◌≡◌, refl, list_key, nat_key}
use godwit.Base.Dict
use godwit.Mcp.Registry.{
  Name, mark, McpServerConfig, McpTool, to_core_tool, Clients, Servers, from_config, then_ask,
  ensure_connected, call_tool, all_tools, tools_from, tools_for, split_tool_name,
}
use godwit.Mcp.Registry.Routes.{call_tool-to_core_tool}
use godwit.Mcp.Registry.Kept.{Grows, perform_all, perform_all-Grows, listing, calling}

-- "fs", "a__b", whose part "a" names no server, and the tool "get".
abbrev fs : Name
fs = 102 ∷ 115 ∷ []

abbrev a : Name
a = 97 ∷ []

abbrev b : Name
b = 98 ∷ []

abbrev server : Name → String → McpServerConfig
server name command = record { name = name; command = command; args = []; env = [] }

abbrev get_tool : McpTool ℕ
get_tool = record { name = 103 ∷ 101 ∷ 116 ∷ []; description = none; input_schema = 0 }

-- Every server is reached and has the one tool, which answers with the command of its server.
abbrev clients : Clients
clients = record {
  Client = String;
  J = ℕ;
  connect = λ config. ok config.command;
  list_tools = λ c. ok (get_tool ∷ []);
  call = λ c name arguments. ok c;
}

abbrev servers : Servers clients
servers =
    (fs, record { config = server fs "files"; client = none })
    ∷ (a ++ (mark ++ b), record { config = server (a ++ (mark ++ b)) "other"; client = none })
    ∷ []

configured :
    from_config clients Dict.empty (server fs "files" ∷ server (a ++ (mark ++ b)) "other" ∷ [])
    ≡ servers
unfolding from_config Dict.insert
configured = refl

both_listed :
    (all_tools clients servers).1
    ≡ (to_core_tool fs get_tool ∷ to_core_tool (a ++ (mark ++ b)) get_tool ∷ [])
unfolding all_tools tools_from tools_for ensure_connected to_core_tool Dict.get Dict.insert
both_listed = refl

called : (call_tool clients (to_core_tool fs get_tool).name 1 servers).1 ≡ ok "files"
unfolding call_tool to_core_tool split_tool_name ensure_connected Dict.get Dict.insert
called = refl

call_tool-to_core_tool_example :
    call_tool clients (to_core_tool fs get_tool).name 1 servers
    ≡ then_ask clients fs (λ c. ok c) (ensure_connected clients fs servers)
call_tool-to_core_tool_example = call_tool-to_core_tool clients fs get_tool 1 servers refl refl refl

absent : Dict.get a servers ≡ none
unfolding Dict.get
absent = refl

perform_all-Grows_example :
    Grows clients servers (perform_all clients (listing ∷ calling fs 1 ∷ []) servers)
perform_all-Grows_example = perform_all-Grows clients (listing ∷ calling fs 1 ∷ []) servers
