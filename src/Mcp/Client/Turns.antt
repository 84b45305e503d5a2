-- ===== src/Mcp/Client/Turns.antt =====
-- Requests and answers in turn.
use godwit.Base.{
  ℕ, suc, Bool, true, false, String, Option, List, [], ◌∷◌, ◌++◌, nat_beq, if◌then◌else◌, Result,
  ok, err, ◌≡◌, refl, ◌∙◌, ap, arith, nat_beq_iff,
}
use godwit.Base.Int.{ℤ, pos}
use godwit.Core.Json.{Json}
use godwit.Mcp.Server.{RpcMessage, RpcResponse, request, response, notification, result}
use godwit.Mcp.Client.{
  McpClientError, unexpected_response_id, McpClient, await_response, send_request, on_message,
  matched,
}

module _ (js : Json) (from_frame : String → Result String (RpcMessage js.J)) where
  open js use {J}

  abbrev answers : Result String (RpcMessage J) → Bool
  answers (ok (request r)) = false
  answers (ok (notification m params)) = false
  answers (ok (response r)) = true
  answers (err e) = true

  -- Lines that are requests or notifications of the server.
  abbrev pub no_answer : List String → Bool
  no_answer [] = true
  no_answer (line ∷ lines) = if answers (from_frame line) then false else no_answer lines

  skip_line :
      (id : ℤ) (method : String) (lines : List String) (m : Result String (RpcMessage J)) (b : Bool)
      (rest : List String × Result McpClientError J)
      → (if answers m then false else b) ≡ true
      → (b ≡ true) × (on_message js from_frame id method lines m rest ≡ rest)
  skip_line id method lines (ok (request r)) b rest h = (h, refl)
  skip_line id method lines (ok (notification m params)) b rest h = (h, refl)
  skip_line id method lines (ok (response r)) b rest h = cc
  skip_line id method lines (err e) b rest h = cc

  await_response-answer :
      (id : ℤ) (method : String) (noise later : List String) (line : String) (r : RpcResponse J)
      → no_answer noise ≡ true
      → from_frame line ≡ ok (response r)
      → await_response js from_frame id method (noise ++ (line ∷ later))
        ≡ (later, matched js from_frame id method r)
  unfolding await_response
  await_response-answer id method [] later line r quiet h = rw h
  await_response-answer id method (l ∷ noise) later line r quiet h =
      let (quiet', skipped) =
        skip_line id method (noise ++ (line ∷ later)) (from_frame l) (no_answer noise)
          (await_response js from_frame id method (noise ++ (line ∷ later))) quiet in
      skipped ∙ await_response-answer id method noise later line r quiet' h

  -- A request is answered by the first response that comes, whatever requests and notifications of the
  -- server come before it; the lines behind it stay for the next request.
  pub send_request-answer :
      (method : String) (params : Option J) (c : McpClient js from_frame)
      (noise later : List String) (line : String) (r : RpcResponse J)
      → c.incoming ≡ noise ++ (line ∷ later)
      → no_answer noise ≡ true
      → from_frame line ≡ ok (response r)
      → ((send_request js from_frame method params c).1
          ≡ matched js from_frame (pos c.next_id) method r)
        × ((send_request js from_frame method params c).0.incoming ≡ later)
        × ((send_request js from_frame method params c).0.next_id ≡ suc c.next_id)
  unfolding send_request
  send_request-answer method params c noise later line r comes quiet h =
      let e =
        ap (await_response js from_frame (pos c.next_id) method) comes
        ∙ await_response-answer (pos c.next_id) method noise later line r quiet h in
      (ap (λ p. p.1) e, ap (λ p. p.0) e, refl)

  -- Requests in turn, and their results.
  pub send_all : List (String × Option J) → McpClient js from_frame → List (Result McpClientError J)
  unfolding send_request
  send_all [] c = []
  send_all ((method, params) ∷ rs) c =
      let (c', r) = send_request js from_frame method params c in r ∷ send_all rs c'

  module _ (line : ℕ → String) (value : ℕ → J)
      (answer : (k : ℕ) → from_frame (line k) ≡ ok (response (result (pos k) (value k)))) where
    -- The answers to as many requests from an id on.
    abbrev pub answers_from : ℕ → List (String × Option J) → List String
    answers_from k [] = []
    answers_from k (r ∷ rs) = line k ∷ answers_from (suc k) rs

    abbrev pub mismatches : ℕ → List (String × Option J) → List (Result McpClientError J)
    mismatches k [] = []
    mismatches k (r ∷ rs) =
        err (unexpected_response_id (pos (suc k)) (pos k)) ∷ mismatches (suc k) rs

    not_next : (k : ℕ) → nat_beq k (suc k) ≡ false
    not_next k = ground (arith, nat_beq_iff k (suc k))

    -- A client with one answer left over, to a request that was given up, never gets into step again:
    -- of a server that answers every request in turn, each request then gets the answer to the one
    -- before it, and fails.
    pub stays_out_of_step :
        (k : ℕ) (rs : List (String × Option J)) (written : List (RpcMessage J))
        (later : List String)
        → send_all rs
            (record { next_id = suc k; written = written; incoming = answers_from k rs ++ later })
          ≡ mismatches k rs
    unfolding send_all send_request await_response
    stays_out_of_step k [] written later = refl
    stays_out_of_step k ((method, params) ∷ rs) written later =
        rw (answer k, not_next k)
          (ap (λ l. err (unexpected_response_id (pos (suc k)) (pos k)) ∷ l)
            (stays_out_of_step (suc k) rs _ later))
