-- ===== src/Api/Budget/Tests.antt =====
-- The tests of rate_limit.rs on budgets and on the estimate, with cents for decimals.
use godwit.Base.{ℕ, ◌≡◌, refl, leb, String, Option, some, List, [], ◌∷◌, Result, ok, err}
use godwit.Base.Int.{pos}
use godwit.Api.Responses.{budget_exceeded}
use godwit.Api.Budget.{
  Decimal, EndUser, check_end_user_budget, ChatMessage, text, sum_by, estimate_request_tokens,
}

abbrev cents : Decimal
cents = record { D = ℕ; zero_d = 0; ge = λ a b. leb b a }

-- A budget of 100 dollars.
abbrev fetch_end_user : ℕ → ℕ → Result String (Option (EndUser cents))
fetch_end_user user org = ok (some (record { max_budget_usd = some 10_000 }))

abbrev spent_all : ℕ → ℕ → Result String (Option ℕ)
spent_all user org = ok (some 15_000)

blocks_when_exceeded :
    check_end_user_budget cents fetch_end_user spent_all 1 2 ≡ err budget_exceeded
unfolding check_end_user_budget
blocks_when_exceeded = refl

abbrev hello : List ChatMessage
hello = record { role = "user"; content = some (text "hello world" ∷ []) } ∷ []

-- 4 bytes of the role and 11 of the text, and 10 tokens.
estimate_of_hello :
    estimate_request_tokens (record { messages = hello; max_tokens = some (pos 10) }) ≡ 13
unfolding estimate_request_tokens sum_by
estimate_of_hello = refl
