-- ===== src/Api/Budget/Estimate.antt =====
-- The token estimate of a chat request.
use godwit.Base.{ℕ, ◌+◌, ◌*◌, ◌/◌, ◌≤◌, ◌<◌, ◌≡◌, List, [], ◌∷◌, ◌++◌, Option, arith}
use godwit.Base.Int.{ℤ}
use godwit.Api.Budget.{ChatMessage, sum_by, message_len, completion_tokens, estimate_request_tokens}

sum_by-append :
    {A : Type 0} (f : A → ℕ) (xs ys : List A) → sum_by f (xs ++ ys) ≡ sum_by f xs + sum_by f ys
unfolding sum_by
sum_by-append f [] ys = omega arith
sum_by-append f (x ∷ xs) ys = omega (arith, sum_by-append f xs ys)

-- While the estimate of the longer conversation fits 32 bits, more messages never lower the estimate;
-- it is at least 1, at least the completion that is asked for, and, in bytes, within a token of a
-- quarter of the texts.
pub estimate_grows :
    (xs ys : List ChatMessage) (max_tokens : Option ℤ)
    → sum_by message_len (xs ++ ys) / 4 + completion_tokens max_tokens < 4_294_967_296
    → let estimate = estimate_request_tokens (record { messages = xs; max_tokens = max_tokens }) in
      (1 ≤ estimate)
      × (completion_tokens max_tokens ≤ estimate)
      × (estimate
          ≤ estimate_request_tokens (record { messages = xs ++ ys; max_tokens = max_tokens }))
      × (sum_by message_len xs + 4 * completion_tokens max_tokens ≤ 4 * estimate + 3)
      × (4 * estimate ≤ sum_by message_len xs + 4 * completion_tokens max_tokens + 4)
unfolding estimate_request_tokens
estimate_grows xs ys max_tokens h =
    let sum = sum_by-append message_len xs ys in
    (omega arith, omega arith, omega arith, omega arith, omega arith)
