-- ===== src/Resilience/Retry/Outcome.antt =====
-- What `with_retry` returns, after how many calls and delays.
use mathlib.Core.Path.{subst}
use native.Mathlib.Nat.{mod-eq_of_lt, le-mul_of_pos_right}
use native.Mathlib.Decide.{ℕ_discrete}
use godwit.Base.{
  ℕ, zero, suc, ◌+◌, ◌*◌, ◌%◌, ◌^◌, ◌≤◌, ◌<◌, ◌≡◌, ◌≢◌, ◌⊎◌, inl, inr, refl, ap, ◌∙◌, true, false,
  nat_key, List, [], ◌∷◌, Option, none, some, arith, Result, ok, err, Bool-cases, min,
}
use godwit.Providers.Adapter.{ProviderError}
use godwit.Resilience.Retry.{
  RetryPolicy, is_retryable, delay, attempts, next_attempt, with_retry, u64_mod,
}

-- A result after which there is no further attempt, unless it is the last one anyway.
abbrev pub Stops : {T : Type 0} → RetryPolicy → Result ProviderError T → Type 0
Stops policy (ok v) = Unit
Stops policy (err e) = is_retryable policy e ≡ false

abbrev pub Retries : {T : Type 0} → RetryPolicy → Result ProviderError T → Type 0
Retries policy (ok v) = ⊥
Retries policy (err e) = is_retryable policy e ≡ true

-- The delays before the attempts from the given one on.
pub delays : RetryPolicy → ℕ → ℕ → List ℕ
delays policy attempt zero = []
delays policy attempt (suc n) = delay policy attempt ∷ delays policy (suc attempt) n

module _ {T : Type 0} (policy : RetryPolicy) (f : ℕ → Result ProviderError T) where
  -- Attempt `k` is decisive: those before it, from `first` on, are retried, and it is not.
  pub record IsDecisive (first k : ℕ) : Type 0 where
    pub after_first : first ≤ k
    pub within : k ≤ policy.max_retries
    pub retried : (j : ℕ) → first ≤ j → j < k → Retries policy (f j)
    pub stops : Stops policy (f k) ⊎ (k ≡ policy.max_retries)

  next_attempt_stop :
      (attempt : ℕ) (r : Result ProviderError T)
      (rest : ProviderError → Result ProviderError T × List ℕ)
      → Stops policy r ⊎ (attempt ≡ policy.max_retries)
      → next_attempt policy attempt r rest ≡ (r, [])
  next_attempt_stop attempt (ok v) rest h = refl
  next_attempt_stop attempt (err e) rest h =
      ground (arith, nat_key.same_iff attempt policy.max_retries)

  next_attempt_go :
      (attempt : ℕ) (e : ProviderError) (rest : ProviderError → Result ProviderError T × List ℕ)
      → is_retryable policy e ≡ true
      → attempt ≢ policy.max_retries
      → next_attempt policy attempt (err e) rest ≡ ((rest e).0, delay policy attempt ∷ (rest e).1)
  next_attempt_go attempt e rest h ne = ground (arith, nat_key.same_iff attempt policy.max_retries)

  -- The decision at one attempt.
  decide_attempt :
      (attempt : ℕ) (r : Result ProviderError T)
      → f attempt ≡ r
      → (Stops policy (f attempt) ⊎ (attempt ≡ policy.max_retries))
        ⊎ ((e : ProviderError) × (f attempt ≡ err e)
            × (is_retryable policy e ≡ true)
            × (attempt ≢ policy.max_retries))
  decide_attempt attempt (ok v) h = inl (inl (rw h tt))
  decide_attempt attempt (err e) h = elim (Bool-cases (is_retryable policy e)) [
    | inr no_retry ↦ inl (inl (rw h no_retry))
    | inl retry ↦ elim (ℕ_discrete attempt policy.max_retries) [
      | yes last ↦ inl (inr last)
      | no more ↦ inr (e, h, retry, more)
    ]
  ]

  earlier :
      (attempt k : ℕ) (x : ProviderError)
      → f attempt ≡ err x
      → is_retryable policy x ≡ true
      → IsDecisive (suc attempt) k
      → IsDecisive attempt k
  earlier attempt k x failed retry d =
      let after = d.after_first in
      record {
        after_first = omega arith;
        within = d.within;
        retried = λ j a b. elim (ℕ_discrete attempt j) [
          | yes same ↦ subst (λ i. Retries policy (f i)) same (rw failed retry)
          | no other ↦ d.retried j (omega arith) b
        ];
        stops = d.stops;
      }

  attempts-IsDecisive :
      (remaining attempt : ℕ) (last_err : Option ProviderError)
      → attempt + remaining ≡ policy.max_retries + 1
      → 0 < remaining
      → (k n : ℕ) × (k ≡ attempt + n)
        × IsDecisive attempt k
        × (attempts policy f remaining attempt last_err ≡ (f k, delays policy attempt n))
  unfolding delays attempts
  attempts-IsDecisive zero attempt last_err e h = elim h [ ]
  attempts-IsDecisive (suc remaining) attempt last_err e h =
      elim (decide_attempt attempt (f attempt) refl) [
        | inl stop ↦ (
          attempt,
          0,
          omega arith,
          record {
            after_first = omega arith;
            within = omega arith;
            retried = λ j a b. absurd (omega arith);
            stops = stop;
          },
          next_attempt_stop attempt (f attempt) _ stop,
        )
        | inr (x, failed, retry, more) ↦
            let (k, n, same, d, eq) =
              attempts-IsDecisive remaining (suc attempt) (some x) (omega arith) (omega arith) in
            (
              k,
              suc n,
              omega arith,
              earlier attempt k x failed retry d,
              ap
                    (λ r.
                      next_attempt policy attempt r
                        (λ y. attempts policy f remaining (suc attempt) (some y)))
                    failed
                  ∙ next_attempt_go attempt x
                      (λ y. attempts policy f remaining (suc attempt) (some y)) retry more
                  ∙ rw eq refl,
            )
      ]

  -- `with_retry` returns the result of the first attempt that succeeds, fails without being
  -- retryable, or is the last one allowed, and sleeps once for each attempt before it: it always
  -- returns what a call returned, and makes at most `max_retries + 1` calls.
  pub with_retry-IsDecisive :
      (k : ℕ) × IsDecisive 0 k × (with_retry policy f ≡ (f k, delays policy 0 k))
  unfolding with_retry
  with_retry-IsDecisive =
      let (k, n, same, d, eq) =
        attempts-IsDecisive (policy.max_retries + 1) 0 none (omega arith) (omega arith) in
      let count : n ≡ k = omega arith in
      (
        k,
        d,
        subst (λ m. attempts policy f (policy.max_retries + 1) 0 none ≡ (f k, delays policy 0 m))
            count eq,
      )

mod-mul-mod : (a b m : ℕ) → 0 < a → a * b < m → a * (b % m) % m ≡ a * b
mod-mul-mod a b m h k =
    let small : b < m = omega (arith, le-mul_of_pos_right b h) in
    rw (mod-eq_of_lt small) (mod-eq_of_lt k)

-- While the product fits 64 bits, the delay of attempt `n` is the base doubled n times, up to the
-- maximum; in particular the power of two has not wrapped around.
pub delay_doubles :
    (policy : RetryPolicy) (n : ℕ)
    → 0 < policy.base_delay_ms
    → policy.base_delay_ms * 2 ^ n < u64_mod
    → delay policy n ≡ min (policy.base_delay_ms * 2 ^ n) policy.max_delay_ms
unfolding delay
delay_doubles policy n h k =
    ap (λ d. min d policy.max_delay_ms) (mod-mul-mod policy.base_delay_ms (2 ^ n) u64_mod h k)
