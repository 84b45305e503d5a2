-- ===== src/Api/Responses/Clients.antt =====
-- What a client learns of an error.
use godwit.Base.{ℕ, ◌≤◌, ◌<◌, ◌≡◌, ◌⊎◌, ◌↔◌, inl, inr, refl, ap, String, some, List, arith}
use godwit.Api.Responses.{
  ApiError, unauthorized, forbidden, not_found, budget_exceeded, core, database, guardrails_error,
  into_response, internal, rate_limited, bad_request, moderation_blocked,
}

module _ (show_categories : List String → String) where
  -- Every error is answered with an error status; a time to wait is told exactly for a rate limit
  -- that has one; and all errors with status 500 get one and the same response, so that no text of an
  -- inner error reaches a client that way.
  pub response_tells :
      (e : ApiError)
      → (400 ≤ (into_response show_categories e).status)
        × ((into_response show_categories e).status ≤ 500)
        × ((n : ℕ)
            → ((into_response show_categories e).retry_after ≡ some n)
              ↔ (e ≡ rate_limited (some n)))
        × (((into_response show_categories e).status < 500)
            ⊎ (into_response show_categories e ≡ into_response show_categories internal))
  unfolding into_response
  response_tells unauthorized =
      (omega arith, omega arith, λ n. (λ h. cc, λ h. cc), inl (omega arith))
  response_tells forbidden = (omega arith, omega arith, λ n. (λ h. cc, λ h. cc), inl (omega arith))
  response_tells not_found = (omega arith, omega arith, λ n. (λ h. cc, λ h. cc), inl (omega arith))
  response_tells budget_exceeded =
      (omega arith, omega arith, λ n. (λ h. cc, λ h. cc), inl (omega arith))
  response_tells internal = (omega arith, omega arith, λ n. (λ h. cc, λ h. cc), inr refl)
  response_tells (bad_request msg) =
      (omega arith, omega arith, λ n. (λ h. cc, λ h. cc), inl (omega arith))
  response_tells (rate_limited r) =
      (omega arith, omega arith, λ n. (λ h. ap rate_limited h, λ h. cc), inl (omega arith))
  response_tells (core e) = (omega arith, omega arith, λ n. (λ h. cc, λ h. cc), inr refl)
  response_tells (database e) = (omega arith, omega arith, λ n. (λ h. cc, λ h. cc), inr refl)
  response_tells (moderation_blocked cs) =
      (omega arith, omega arith, λ n. (λ h. cc, λ h. cc), inl (omega arith))
  response_tells (guardrails_error e) =
      (omega arith, omega arith, λ n. (λ h. cc, λ h. cc), inr refl)
