-- ===== src/Resilience/Retry.antt =====
-- `RetryPolicy` and `with_retry` of crates/godwit-api/src/resilience.rs.
--
-- The call that is retried is a function from the number of the attempt to its result. The delays
-- that the loop sleeps stand beside the result. Machine arithmetic wraps, as in a release build.
pub mod Outcome
mod Tests
use godwit.Base.{
  ℕ, zero, suc, ◌+◌, ◌*◌, ◌%◌, ◌^◌, Bool, true, false, not, ◌||◌, ◌==◌, nat_key, List, [], ◌∷◌,
  Option, none, some, min, if◌then◌else◌, Result, ok, err,
}
use godwit.Providers.Adapter.{
  ProviderError, http, serialization, provider, capability_not_supported,
}

pub record RetryPolicy : Type 0 where
  pub max_retries : ℕ
  pub base_delay_ms : ℕ
  pub max_delay_ms : ℕ
  pub retryable_statuses : List ℕ

unfoldable pub default : RetryPolicy
default = record {
  max_retries = 2;
  base_delay_ms = 500;
  max_delay_ms = 8000;
  retryable_statuses = 429 ∷ 502 ∷ 503 ∷ 504 ∷ [];
}

abbrev pub u64_mod : ℕ
u64_mod = 18_446_744_073_709_551_616

pub contains : List ℕ → ℕ → Bool
contains [] n = false
contains (m ∷ ms) n = m == n || contains ms n

-- Configured statuses, and transport failures, which carry status 0.
pub is_retryable : RetryPolicy → ProviderError → Bool
unfolding contains
is_retryable policy (http status message) = status == 0 || contains policy.retryable_statuses status
is_retryable policy (serialization e) = false
is_retryable policy (provider e) = false
is_retryable policy (capability_not_supported e) = false

pub delay : RetryPolicy → ℕ → ℕ
delay policy attempt =
    min (policy.base_delay_ms * (2 ^ attempt % u64_mod) % u64_mod) policy.max_delay_ms

abbrev pub exhausted : ProviderError
exhausted = provider "retry attempts exhausted without a recoverable error"

abbrev pub unwrap_or : Option ProviderError → ProviderError → ProviderError
unwrap_or (some e) d = e
unwrap_or none d = d

-- The `match` on the result of an attempt; `rest` runs the later attempts.
abbrev pub next_attempt :
    {T : Type 0}
    → RetryPolicy
    → ℕ
    → Result ProviderError T
    → (ProviderError → Result ProviderError T × List ℕ)
    → Result ProviderError T × List ℕ
next_attempt policy attempt (ok v) rest = (ok v, [])
next_attempt policy attempt (err e) rest =
    let (r, slept) = rest e in
    if not (is_retryable policy e) || attempt == policy.max_retries
    then (err e, [])
    else (r, delay policy attempt ∷ slept)

module _ {T : Type 0} (policy : RetryPolicy) (f : ℕ → Result ProviderError T) where
  -- `remaining` is the number of rounds left of `for attempt in 0..=max_retries`.
  unfoldable pub attempts : ℕ → ℕ → Option ProviderError → Result ProviderError T × List ℕ
  attempts zero attempt last_err = (err (unwrap_or last_err exhausted), [])
  attempts (suc remaining) attempt last_err =
      next_attempt policy attempt (f attempt) (λ e. attempts remaining (suc attempt) (some e))

  unfoldable pub with_retry : Result ProviderError T × List ℕ
  unfolding attempts
  with_retry = attempts (policy.max_retries + 1) 0 none
