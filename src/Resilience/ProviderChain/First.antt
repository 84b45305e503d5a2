-- ===== src/Resilience/ProviderChain/First.antt =====
-- Which provider answers a request for moderation or reranking, and how its configuration is read.
use godwit.Base.{ℕ, ◌≡◌, refl, Bool, Option, none, some, List, [], ◌∷◌, Result, ok, err}
use godwit.Core.Error.{PasteurError}
use godwit.Core.Json.{Json}
use godwit.Resilience.ProviderChain.{
  ProviderConfig, FallbackConfig, Service, Client, attempt, timeout_error, none_left, next_provider,
  execute_from, execute,
}

module _ (js : Json) (service : Service) where
  abbrev pub Attempt : Type 0
  Attempt = Option (Result PasteurError js.J)

  -- The response of an attempt, if there is one.
  abbrev pub response_of : Attempt → Option js.J
  response_of (some (ok response)) = some response
  response_of (some (err e)) = none
  response_of none = none

  abbrev pub error_of : ℕ → Attempt → Option PasteurError
  error_of secs (some (ok response)) = none
  error_of secs (some (err e)) = some e
  error_of secs none = some (timeout_error js service secs)

  abbrev pub pick : Option js.J → Option js.J → Option js.J
  pick (some r) rest = some r
  pick none rest = rest

  -- The first response among attempts.
  pub first_response : List Attempt → Option js.J
  first_response [] = none
  first_response (a ∷ rest) = pick (response_of a) (first_response rest)

  -- The error of the last attempt, or the given one if there is none.
  pub last_error_of : ℕ → Option PasteurError → List Attempt → Option PasteurError
  last_error_of secs e [] = e
  last_error_of secs e (a ∷ rest) = last_error_of secs (error_of secs a) rest

  abbrev pub answer : Option js.J → PasteurError → Result PasteurError js.J
  answer (some response) e = ok response
  answer none e = err e

  abbrev pub attempts :
      Client js service → (ProviderConfig → Bool) → js.J → List ProviderConfig → List Attempt
  attempts send in_time body [] = []
  attempts send in_time body (p ∷ ps) =
      attempt js service send in_time p body ∷ attempts send in_time body ps

  next_provider_lem :
      (secs : ℕ) (a : Attempt) (found : Option js.J)
      (last : Option PasteurError → Option PasteurError)
      (rest : PasteurError → Result PasteurError js.J)
      → ((e : PasteurError) → rest e ≡ answer found (none_left js service (last (some e))))
      → next_provider js service secs a rest
        ≡ answer (pick (response_of a) found) (none_left js service (last (error_of secs a)))
  next_provider_lem secs (some (ok response)) found last rest h = refl
  next_provider_lem secs (some (err e)) found last rest h = h e
  next_provider_lem secs none found last rest h = h (timeout_error js service secs)

  execute_from-first :
      (send : Client js service) (in_time : ProviderConfig → Bool) (secs : ℕ)
      (ps : List ProviderConfig) (body : js.J) (last : Option PasteurError)
      → execute_from js service send in_time secs ps body last
        ≡ answer
            (first_response (attempts send in_time body ps))
            (none_left js service (last_error_of secs last (attempts send in_time body ps)))
  unfolding execute_from first_response last_error_of
  execute_from-first send in_time secs [] body last = refl
  execute_from-first send in_time secs (p ∷ ps) body last =
      next_provider_lem secs (attempt js service send in_time p body)
        (first_response (attempts send in_time body ps))
        (λ e. last_error_of secs e (attempts send in_time body ps))
        (λ e. execute_from js service send in_time secs ps body (some e))
        (λ e. execute_from-first send in_time secs ps body (some e))

  -- Whatever the providers are, the answer is the first response that came in time, in their order;
  -- if there is none it is the error of the last one, which is a timeout error if that was too slow,
  -- or an error of its own if there are no providers.
  pub execute-first :
      (config : FallbackConfig) (send : Client js service) (in_time : ProviderConfig → Bool)
      (body : js.J)
      → execute js service config send in_time body
        ≡ answer (first_response (attempts send in_time body config.providers)) (
            none_left js service (
              last_error_of config.timeout_per_provider none
                (attempts send in_time body config.providers)))
  unfolding execute
  execute-first config send in_time body =
      execute_from-first send in_time config.timeout_per_provider config.providers body none
