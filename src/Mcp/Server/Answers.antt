-- ===== src/Mcp/Server/Answers.antt =====
-- What the server writes for the lines that it reads.
use godwit.Base.{
  Bool, true, false, String, List, [], ◌∷◌, ◌++◌, map, ◌==◌, string_key, if◌then◌else◌, Result, ok,
  err, err-ne-ok, ◌≡◌, refl, Bool-cases, inl, inr,
}
use godwit.Base.Int.{ℤ}
use godwit.Core.Json.{Json}
use godwit.Mcp.Server.{
  RpcRequest, RpcResponse, result, error, RpcMessage, request, response, notification,
  GatewayConfig, Outside, Answer, respond, handle_initialize, handle_tools_list, handle_tools_call,
  handle_request, served, serve,
}

abbrev pub response_id : {J : Type 0} → RpcResponse J → ℤ
response_id (result id value) = id
response_id (error id e) = id

module _ (js : Json) (outside : Outside js) (gateway : GatewayConfig) where
  open js use {J}
  open outside use {is_blank, from_frame}

  respond-id :
      (id : ℤ) (a : Answer js outside gateway) → response_id (respond js outside gateway id a) ≡ id
  respond-id id (ok value) = refl
  respond-id id (err e) = refl

  one_of : {A : Type 0} (P : A → Type 0) (b : Bool) {x y : A} → P x → P y → P (if b then x else y)
  one_of P true p q = p
  one_of P false p q = q

  abbrev Names : ℤ → RpcResponse J → Type 0
  Names id r = response_id r ≡ id

  handle_request-id :
      (req : RpcRequest J) → response_id (handle_request js outside gateway req) ≡ req.id
  unfolding handle_request
  handle_request-id req =
      one_of (Names req.id) (req.method == "initialize")
        (respond-id req.id (handle_initialize js outside gateway req))
        (one_of (Names req.id) (req.method == "tools/list")
          (respond-id req.id (handle_tools_list js outside gateway req))
          (one_of (Names req.id) (req.method == "tools/call")
            (respond-id req.id (handle_tools_call js outside gateway req)) refl))

  abbrev ids_of : RpcMessage J → List ℤ
  ids_of (request req) = req.id ∷ []
  ids_of (response r) = []
  ids_of (notification method params) = []

  abbrev ids_before : Result String (RpcMessage J) → List ℤ → List ℤ
  ids_before (err e) rest = []
  ids_before (ok message) rest = ids_of message ++ rest

  -- The ids of the requests among the lines, up to the first line that is no message.
  abbrev pub request_ids : List String → List ℤ
  request_ids [] = []
  request_ids (line ∷ lines) =
      let rest = request_ids lines in
      if is_blank line then rest else ids_before (from_frame line) rest

  served-ids :
      (r : Result String (RpcMessage J)) (p : List (RpcResponse J) × Result String (Unit {0}))
      (ids : List ℤ)
      → map response_id p.0 ≡ ids
      → map response_id (served js outside gateway r p).0 ≡ ids_before r ids
  served-ids (err e) p ids h = refl
  served-ids (ok (request req)) p ids h = rw (handle_request-id req, h)
  served-ids (ok (response r)) p ids h = h
  served-ids (ok (notification method params)) p ids h = h

  -- The server writes one response to each request, in the order of the requests and with their ids,
  -- and nothing else, up to the first line that is no message.
  pub serve-ids :
      (lines : List String) → map response_id (serve js outside gateway lines).0 ≡ request_ids lines
  unfolding serve
  serve-ids [] = refl
  serve-ids (line ∷ lines) = elim (Bool-cases (is_blank line)) [
    | inl blank ↦ rw blank (serve-ids lines)
    | inr full ↦ rw full (served-ids (from_frame line) _ (request_ids lines) (serve-ids lines))
  ]

  -- A round that goes on, before lines that end with an error.
  round_before :
      (blank : Bool) (r : Result String (RpcMessage J))
      (p q : List (RpcResponse J) × Result String (Unit {0})) (e : String)
      → (if blank then p else served js outside gateway r p).1 ≡ ok tt
      → (p.1 ≡ ok tt → q ≡ (p.0, err e))
      → (if blank then q else served js outside gateway r q)
        ≡ ((if blank then p else served js outside gateway r p).0, err e)
  round_before true r p q e h next = next h
  round_before false (err x) p q e h next = absurd (err-ne-ok h)
  round_before false (ok message) p q e h next = rw (next h)

  -- A line that is not blank and no message ends the server, after the responses to the lines before it;
  -- nothing is written for it, and the lines after it are not read.
  pub malformed_line_ends_server :
      (before later : List String) (line e : String)
      → (serve js outside gateway before).1 ≡ ok tt
      → is_blank line ≡ false
      → from_frame line ≡ err e
      → serve js outside gateway (before ++ (line ∷ later))
        ≡ ((serve js outside gateway before).0, err e)
  unfolding serve
  malformed_line_ends_server [] later line e h full malformed = rw (full, malformed)
  malformed_line_ends_server (l ∷ before) later line e h full malformed =
      round_before (is_blank l) (from_frame l) (serve js outside gateway before) _ e h
        (λ fine. malformed_line_ends_server before later line e fine full malformed)
