-- ===== src/Mcp/Registry/Routes.antt =====
-- Where a call of a tool goes, by the name that `to_core_tool` gave the tool.
use godwit.Base.{
  ℕ, false, none, [], ◌∷◌, ◌++◌, is_empty, ◌≡◌, refl, append_assoc, err, list_key, nat_key,
}
use godwit.Base.Dict
use godwit.Mcp.Registry.{
  Name, mark, McpTool, to_core_tool, Clients, unknown_server, Servers, then_ask, ensure_connected,
  call_tool,
}
use godwit.Mcp.Registry.Names.{Separable, split_tool_name-mark}

is_empty-append : (s : Name) (c : ℕ) (t : Name) → is_empty (s ++ (c ∷ t)) ≡ false
is_empty-append [] c t = refl
is_empty-append (a ∷ s) c t = refl

module _ (clients : Clients) where
  open clients use {J, call}

  -- A tool is called under the name that the registry lists it with at the client of its server, and by
  -- its own name, if neither name is empty and the name of the server can be told from the mark.
  pub call_tool-to_core_tool :
      (name : Name) (t : McpTool J) (arguments : J) (m : Servers clients)
      → Separable name
      → is_empty name ≡ false
      → is_empty t.name ≡ false
      → call_tool clients (to_core_tool name t).name arguments m
        ≡ then_ask clients name (λ c. call c t.name arguments) (ensure_connected clients name m)
  unfolding call_tool to_core_tool
  call_tool-to_core_tool name t arguments m separable named named' =
      rw (split_tool_name-mark name t.name separable, named, named')

  -- A tool of a server whose name has a mark in it is called at the server before the mark: if there is
  -- none, the call says that this server is unknown, though the tool is listed.
  pub marked_server_unreachable :
      (x y : Name) (t : McpTool J) (arguments : J) (m : Servers clients)
      → Separable x
      → is_empty x ≡ false
      → Dict.get x m ≡ none
      → call_tool clients (to_core_tool (x ++ (mark ++ y)) t).name arguments m
        ≡ (m, err (unknown_server x))
  unfolding call_tool to_core_tool ensure_connected
  marked_server_unreachable x y t arguments m separable named absent = rw (
    append_assoc x (mark ++ y) (mark ++ t.name),
    split_tool_name-mark x (y ++ (mark ++ t.name)) separable,
    named,
    absent,
    is_empty-append y 95 (95 ∷ t.name),
  )
