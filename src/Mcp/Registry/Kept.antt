-- ===== src/Mcp/Registry/Kept.antt =====
-- What the calls of the registry do to its servers: a server gets its client once, and keeps it.
use godwit.Base.{
  Bool, true, false, not, ◌&&◌, is_empty, String, Option, none, some, List, [], ◌∷◌, map,
  if◌then◌else◌, ◌≡◌, refl, sym, ◌∙◌, ap, ◌⊎◌, inl, inr, Result, ok, err, list_key, nat_key, ◌==◌,
  Bool-cases,
}
use godwit.Base.Dict
use godwit.Mcp.Registry.{
  Name, Clients, McpError, ServerEntry, Servers, keep_client, client_of, connected, ensured,
  ensure_connected, then_ask, tools_for, tools_from, all_tools, routed, call_tool, split_tool_name,
}

module _ (clients : Clients) where
  open clients use {Client, J, connect, list_tools, call}

  abbrev Entry : Type 0
  Entry = ServerEntry clients

  -- An entry stays, or it had no client and has got one.
  abbrev pub Grown : Option Entry → Option Entry → Type 0
  Grown old new =
      (new ≡ old)
      ⊎ ((e : Entry) × (c : Client) × (old ≡ some e)
          × (e.client ≡ none)
          × (connect e.config ≡ ok c)
          × (new ≡ some (record e { client = some c })))

  two_clients : (e : Entry) {c : Client} → some c ≡ e.client → e.client ≡ none → ⊥
  two_clients e h h' = cc

  Grown-trans : {a b c : Option Entry} → Grown a b → Grown b c → Grown a c
  Grown-trans (inl p) (inl q) = inl (q ∙ p)
  Grown-trans (inl p) (inr (e, c, old, bare, made, new)) = inr (e, c, sym p ∙ old, bare, made, new)
  Grown-trans (inr (e, c, old, bare, made, new)) (inl q) = inr (e, c, old, bare, made, q ∙ new)
  Grown-trans (inr (e, c, old, bare, made, new)) (inr (e', c', old', bare', made', new')) =
      absurd (two_clients e' (ap (client_of clients) (sym new ∙ old')) bare')

  pub Grows : Servers clients → Servers clients → Type 0
  Grows m m' = (name : Name) → Grown (Dict.get name m) (Dict.get name m')

  keep_client-Grows :
      (name : Name) (e : Entry) (m : Servers clients) (r : Result String Client)
      → Dict.get name m ≡ some e
      → e.client ≡ none
      → connect e.config ≡ r
      → Grows m (keep_client clients name e m r).0
  unfolding Grows
  keep_client-Grows name e m (err x) found bare made j = inl refl
  keep_client-Grows name e m (ok c) found bare made j =
      let new = record e { client = some c } in
      elim (Bool-cases (name == j)) [
        | inl hit ↦ inr (
          e,
          c,
          ap (λ i. Dict.get i m) (sym ((list_key.same_iff name j).0 hit)) ∙ found,
          bare,
          made,
          Dict.get-insert name j new m ∙ rw hit,
        )
        | inr miss ↦ inl (Dict.get-insert name j new m ∙ rw miss)
      ]

  connected-Grows :
      (name : Name) (e : Entry) (m : Servers clients) (o : Option Client)
      → Dict.get name m ≡ some e
      → e.client ≡ o
      → Grows m (connected clients name e m o).0
  unfolding Grows
  connected-Grows name e m (some c) found bare j = inl refl
  connected-Grows name e m none found bare j =
      keep_client-Grows name e m (connect e.config) found bare refl j

  ensured-Grows :
      (name : Name) (m : Servers clients) (o : Option Entry)
      → Dict.get name m ≡ o
      → Grows m (ensured clients name m o).0
  unfolding Grows
  ensured-Grows name m none found j = inl refl
  ensured-Grows name m (some e) found j = connected-Grows name e m e.client found refl j

  then_ask-Grows :
      {A : Type 0} (m : Servers clients) (name : Name) (f : Client → Result String A)
      (p : Servers clients × Result McpError (Unit {0}))
      → Grows m p.0
      → Grows m (then_ask clients name f p).0
  then_ask-Grows m name f (m', err e) h = h
  then_ask-Grows m name f (m', ok done) h = h

  ensure_connected-Grows :
      (name : Name) (m : Servers clients) → Grows m (ensure_connected clients name m).0
  unfolding ensure_connected
  ensure_connected-Grows name m = ensured-Grows name m (Dict.get name m) refl

  tools_for-Grows : (name : Name) (m : Servers clients) → Grows m (tools_for clients name m).0
  unfolding tools_for
  tools_for-Grows name m = then_ask-Grows m name list_tools _ (ensure_connected-Grows name m)

  tools_from-Grows :
      (names : List Name) (m : Servers clients) → Grows m (tools_from clients names m).0
  unfolding tools_from Grows
  tools_from-Grows [] m j = inl refl
  tools_from-Grows (name ∷ names) m j =
      Grown-trans (tools_for-Grows name m j) (tools_from-Grows names (tools_for clients name m).0 j)

  either_way :
      {A : Type 0} (m : Servers clients) (b : Bool) (p q : Servers clients × A)
      → Grows m p.0
      → Grows m q.0
      → Grows m (if b then p else q).0
  either_way m true p q h h' = h
  either_way m false p q h h' = h'

  routed-Grows :
      (tool_name : Name) (arguments : J) (m : Servers clients) (o : Option (Name × Name))
      → Grows m (routed clients tool_name arguments m o).0
  unfolding Grows
  routed-Grows tool_name arguments m none j = inl refl
  routed-Grows tool_name arguments m (some (server, bare)) j =
      either_way m (not (is_empty server) && not (is_empty bare)) _ _
        (then_ask-Grows m server (λ c. call c bare arguments) _ (ensure_connected-Grows server m))
        (λ i. inl refl) j

  -- The calls that a client of the registry makes.
  pub data Request : Type 0 where
    listing : Request
    listing_of : Name → Request
    calling : Name → J → Request

  pub perform : Request → Servers clients → Servers clients
  unfolding all_tools tools_for call_tool
  perform listing m = (all_tools clients m).0
  perform (listing_of name) m = (tools_for clients name m).0
  perform (calling name arguments) m = (call_tool clients name arguments m).0

  pub perform_all : List Request → Servers clients → Servers clients
  unfolding perform
  perform_all [] m = m
  perform_all (r ∷ rs) m = perform_all rs (perform r m)

  perform-Grows : (r : Request) (m : Servers clients) → Grows m (perform r m)
  unfolding perform
  perform-Grows listing m = tools_from-Grows (map (λ entry. entry.0) m) m
  perform-Grows (listing_of name) m = tools_for-Grows name m
  perform-Grows (calling name arguments) m = routed-Grows name arguments m (split_tool_name name)

  -- Whatever is listed and called, the entry of each server stays as it is, or had no client and has the
  -- one that its configuration connects to: a client that is there is never replaced.
  pub perform_all-Grows : (rs : List Request) (m : Servers clients) → Grows m (perform_all rs m)
  unfolding perform_all Grows
  perform_all-Grows [] m j = inl refl
  perform_all-Grows (r ∷ rs) m j =
      Grown-trans (perform-Grows r m j) (perform_all-Grows rs (perform r m) j)
