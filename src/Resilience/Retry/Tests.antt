-- ===== src/Resilience/Retry/Tests.antt =====
-- Instances of the theorems on retries.
use godwit.Base.{ℕ, zero, suc, ◌≡◌, refl, [], ◌∷◌, Result, ok, err, nat_key}
use godwit.Providers.Adapter.{ProviderError, http}
use godwit.Resilience.Retry.{default, attempts, with_retry, is_retryable, contains, delay}
use godwit.Resilience.Retry.Outcome.{IsDecisive, delays, with_retry-IsDecisive}

-- Two calls fail with a status that is retried, the third succeeds.
abbrev third_works : ℕ → Result ProviderError ℕ
third_works zero = err (http 503 "unavailable")
third_works (suc zero) = err (http 429 "slow down")
third_works (suc (suc n)) = ok 7

retries_twice : with_retry default third_works ≡ (ok 7, 500 ∷ 1000 ∷ [])
unfolding with_retry attempts is_retryable contains delay default
retries_twice = refl

with_retry-IsDecisive_example :
    (k : ℕ) × IsDecisive default third_works 0 k
    × (with_retry default third_works ≡ (third_works k, delays default 0 k))
with_retry-IsDecisive_example = with_retry-IsDecisive default third_works
