-- ===== src/Mcp/Registry.antt =====
-- `McpRegistry` of crates/godwit-mcp/src/registry.rs, with `McpTool` of tool.rs.
--
-- A name is its list of code points. Connecting to a server, and what a client answers, are parameters:
-- an answer depends on the client and the question alone. The servers are visited in the
-- order of the association list, where the code has that of a hash map.
pub mod Names
pub mod Routes
pub mod Kept
mod Tests
use godwit.Base.{
  ℕ, Bool, true, false, not, ◌&&◌, ◌||◌, String, Option, none, some, List, [], ◌∷◌, ◌++◌, map, drop,
  is_empty, nat_beq, if◌then◌else◌, Result, ok, err, list_key, nat_key,
}
use godwit.Base.Dict
use godwit.Base.Dict.{Dict}

abbrev pub Name : Type 0
Name = List ℕ

-- "__"
abbrev pub mark : Name
mark = 95 ∷ 95 ∷ []

abbrev pub starts_mark : Name → Bool
starts_mark (a ∷ b ∷ s) = nat_beq a 95 && nat_beq b 95
starts_mark (a ∷ []) = false
starts_mark [] = false

abbrev in_first : ℕ → Option (Name × Name) → Option (Name × Name)
in_first c none = none
in_first c (some (s, t)) = some (c ∷ s, t)

pub split_tool_name : Name → Option (Name × Name)
split_tool_name [] = none
split_tool_name (c ∷ s) =
    let rest = split_tool_name s in
    if starts_mark (c ∷ s) then some ([], drop 2 (c ∷ s)) else in_first c rest

pub record McpServerConfig : Type 0 where
  pub name : Name
  pub command : String
  pub args : List String
  pub env : Dict String String

pub record McpTool (J : Type 0) : Type 0 where
  pub name : Name
  pub description : Option String
  pub input_schema : J

-- `Tool`, whose type is always "function".
pub record Tool (J : Type 0) : Type 0 where
  pub name : Name
  pub description : Option String
  pub parameters : Option J

-- `to_core_tool`
pub to_core_tool : {J : Type 0} → Name → McpTool J → Tool J
to_core_tool server_name t = record {
  name = server_name ++ (mark ++ t.name);
  description = t.description;
  parameters = some t.input_schema;
}

-- The clients: how a server is connected to, and what it answers.
pub record Clients : Type 1 where
  pub Client : Type 0
  pub J : Type 0
  pub connect : McpServerConfig → Result String Client
  pub list_tools : Client → Result String (List (McpTool J))
  pub call : Client → Name → J → Result String String

pub data McpError : Type 0 where
  unknown_server invalid_tool_name : Name → McpError
  client_error : String → McpError

module _ (clients : Clients) where
  open clients use {Client, J, connect, list_tools, call}

  pub record ServerEntry : Type 0 where
    pub config : McpServerConfig
    pub client : Option Client

  abbrev pub Servers : Type 0
  Servers = Dict Name ServerEntry

  -- `from_config`
  pub from_config : Servers → List McpServerConfig → Servers
  from_config m [] = m
  from_config m (cfg ∷ cfgs) =
      from_config (Dict.insert cfg.name (record { config = cfg; client = none }) m) cfgs

  abbrev pub keep_client :
      Name → ServerEntry → Servers → Result String Client → Servers × Result McpError (Unit {0})
  keep_client name e m (err x) = (m, err (client_error x))
  keep_client name e m (ok c) = (Dict.insert name (record e { client = some c }) m, ok tt)

  abbrev pub connected :
      Name → ServerEntry → Servers → Option Client → Servers × Result McpError (Unit {0})
  connected name e m (some c) = (m, ok tt)
  connected name e m none = keep_client name e m (connect e.config)

  abbrev pub ensured : Name → Servers → Option ServerEntry → Servers × Result McpError (Unit {0})
  ensured name m none = (m, err (unknown_server name))
  ensured name m (some e) = connected name e m e.client

  pub ensure_connected : Name → Servers → Servers × Result McpError (Unit {0})
  ensure_connected name m = ensured name m (Dict.get name m)

  abbrev pub client_of : Option ServerEntry → Option Client
  client_of none = none
  client_of (some e) = e.client

  abbrev pub wrapped : {A : Type 0} → Result String A → Result McpError A
  wrapped (err x) = err (client_error x)
  wrapped (ok a) = ok a

  abbrev pub asked :
      {A : Type 0} → Name → (Client → Result String A) → Option Client → Result McpError A
  asked name f none = err (unknown_server name)
  asked name f (some c) = wrapped (f c)

  -- What a client of the name answers, which is connected first.
  abbrev pub then_ask :
      {A : Type 0}
      → Name
      → (Client → Result String A)
      → Servers × Result McpError (Unit {0})
      → Servers × Result McpError A
  then_ask name f (m, err e) = (m, err e)
  then_ask name f (m, ok done) = (m, asked name f (client_of (Dict.get name m)))

  pub tools_for : Name → Servers → Servers × Result McpError (List (McpTool J))
  unfolding ensure_connected
  tools_for name m = then_ask name list_tools (ensure_connected name m)

  abbrev offered : Name → Result McpError (List (McpTool J)) → List (Tool J)
  offered name (err e) = []
  offered name (ok tools) = map (to_core_tool name) tools

  -- The loop of `all_tools`; a server that fails is skipped.
  pub tools_from : List Name → Servers → Servers × List (Tool J)
  unfolding tools_for
  tools_from [] m = (m, [])
  tools_from (name ∷ names) m =
      let (m', tools) = tools_for name m in
      let (m'', out) = tools_from names m' in (m'', offered name tools ++ out)

  pub all_tools : Servers → Servers × List (Tool J)
  unfolding tools_from
  all_tools m = tools_from (map (λ entry. entry.0) m) m

  abbrev pub routed : Name → J → Servers → Option (Name × Name) → Servers × Result McpError String
  routed tool_name arguments m none = (m, err (invalid_tool_name tool_name))
  routed tool_name arguments m (some (server_name, bare_name)) =
      if not (is_empty server_name) && not (is_empty bare_name)
      then then_ask server_name (λ c. call c bare_name arguments) (ensure_connected server_name m)
      else (m, err (invalid_tool_name tool_name))

  pub call_tool : Name → J → Servers → Servers × Result McpError String
  unfolding split_tool_name ensure_connected
  call_tool tool_name arguments m = routed tool_name arguments m (split_tool_name tool_name)
