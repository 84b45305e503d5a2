-- ===== src/Mcp/Client/Tests.antt =====
-- A server that answers every request in turn, and instances of the theorems on it.
use godwit.Base.{
  ℕ, zero, suc, false, String, none, some, [], ◌∷◌, ◌++◌, Result, ok, err, ◌≡◌, refl, ap, ◌==◌,
  string_key, if◌then◌else◌,
}
use godwit.Base.Int.{pos}
use godwit.Core.Json.{Json}
use godwit.Mcp.Server.{RpcMessage, response, notification, result}
use godwit.Mcp.Client.{unexpected_response_id, McpClient, send_request, matched}
use godwit.Mcp.Client.Turns.{send_request-answer, send_all, stays_out_of_step}

-- A value is the number of its request.
abbrev numbers : Json
numbers = record {
  J = ℕ;
  get = λ v k. none;
  as_array = λ v. none;
  as_str = λ v. none;
  as_u64 = λ v. some v;
  is_object = λ v. false;
  set = λ v k x. v;
  of_str = λ s. 0;
  of_list = λ l. 0;
  of_fields = λ l. 0;
}

abbrev talking : String → Result String (RpcMessage ℕ)
talking line =
    if line == "log" then ok (notification "log" none) else ok (response (result (pos 1) 9))

abbrev first_client : McpClient numbers talking
first_client = record { next_id = 1; written = []; incoming = "log" ∷ "answer" ∷ "rest" ∷ [] }

send_request-answer_example :
    ((send_request numbers talking "tools/list" none first_client).1
      ≡ matched numbers talking (pos 1) "tools/list" (result (pos 1) 9))
    × ((send_request numbers talking "tools/list" none first_client).0.incoming ≡ "rest" ∷ [])
    × ((send_request numbers talking "tools/list" none first_client).0.next_id ≡ 2)
send_request-answer_example =
    send_request-answer numbers talking "tools/list" none first_client ("log" ∷ []) ("rest" ∷ [])
      "answer" (result (pos 1) 9) refl refl refl

-- The answer to a request is as many strokes as its id.
abbrev strokes : ℕ → String
strokes zero = ""
strokes (suc k) = String.◌∷◌ "I" (strokes k)

abbrev tally : String → ℕ
tally String.[] = 0
tally (String.◌∷◌ c s) = suc (tally s)

tally-strokes : (k : ℕ) → tally (strokes k) ≡ k
tally-strokes zero = refl
tally-strokes (suc k) = ap suc (tally-strokes k)

abbrev counting : String → Result String (RpcMessage ℕ)
counting line = ok (response (result (pos (tally line)) (tally line)))

answers_in_turn : (k : ℕ) → counting (strokes k) ≡ ok (response (result (pos k) k))
answers_in_turn k = ap (λ n. ok (response (result (pos n) n))) (tally-strokes k)

-- The answer to request 1 is left over when request 2 is made.
stays_out_of_step_example :
    send_all numbers counting
      (("tools/list", none) ∷ (("tools/list", none) ∷ []))
      (record { next_id = 2; written = []; incoming = strokes 1 ∷ (strokes 2 ∷ ([] ++ [])) })
    ≡ (err (unexpected_response_id (pos 2) (pos 1))
        ∷ (err (unexpected_response_id (pos 3) (pos 2)) ∷ []))
stays_out_of_step_example =
    stays_out_of_step numbers counting strokes (λ k. k) answers_in_turn 1
      (("tools/list", none) ∷ (("tools/list", none) ∷ [])) [] []
