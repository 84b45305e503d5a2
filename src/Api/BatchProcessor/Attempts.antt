-- ===== src/Api/BatchProcessor/Attempts.antt =====
-- How a request of a batch ends: its attempts, and what its result keeps and says.
use godwit.Base.{
  ℕ, zero, suc, ◌≤◌, ◌<◌, Bool, true, false, List, [], ◌∷◌, ◌++◌, Result, ◌≡◌, ◌⊎◌, inl, inr, refl,
  arith,
}
use godwit.Core.Error.{PasteurError}
use godwit.Providers.Wire.{Wire}
use godwit.Providers.Adapter.{UsageReport, ProviderError}
use godwit.Providers.Usage.{Decimals}
use godwit.Api.BatchParser.{ParsedBatchLine}
use godwit.Api.BatchProcessor.{
  BatchItemResult, ChatRequest, max_retries, exponential_backoff_delay, build_result,
  attempt_request, attempts_from, process_single_request,
}

module _ (w : Wire) (ds : Decimals w) {Resolved : Type 0}
    (resolve : ParsedBatchLine w.J ds.D → ℕ → Result PasteurError Resolved)
    (chat : ParsedBatchLine w.J ds.D
      → ℕ
      → Resolved
      → ChatRequest w ds
      → Result ProviderError UsageReport) where
  open w use {J}
  open ds use {D, zero_d}

  abbrev Line : Type 0
  Line = ParsedBatchLine J D

  abbrev attempt_at : Line → ℕ → BatchItemResult D
  attempt_at request n = (attempt_request w ds resolve chat request n).0

  -- The delays before an attempt.
  abbrev pub delays : ℕ → List ℕ
  delays zero = []
  delays (suc n) = delays n ++ (exponential_backoff_delay (suc n) ∷ [])

  -- The attempt that ends a request, and what its result says of it.
  pub record EndsWith (request : Line) (n : ℕ) (r : BatchItemResult D × List ℕ) : Type 0 where
    pub within : n ≤ max_retries
    pub failed_before : (k : ℕ) → k < n → (attempt_at request k).success ≡ false
    pub last : ((attempt_at request n).success ≡ true) ⊎ (n ≡ max_retries)
    pub success : r.0.success ≡ (attempt_at request n).success
    pub error : r.0.error ≡ (attempt_at request n).error
    pub slept : r.1 ≡ delays n

  failed_one : (f : ℕ → Bool) (k : ℕ) → f 0 ≡ false → k < 1 → f k ≡ false
  failed_one f zero e h = e
  failed_one f (suc k) e h = absurd (omega arith)

  failed_two : (f : ℕ → Bool) (k : ℕ) → f 0 ≡ false → f 1 ≡ false → k < 2 → f k ≡ false
  failed_two f zero e e' h = e
  failed_two f (suc zero) e e' h = e'
  failed_two f (suc (suc k)) e e' h = absurd (omega arith)

  ended_by :
      (request : Line) (s0 s1 s2 : Bool)
      → (attempt_at request 0).success ≡ s0
      → (attempt_at request 1).success ≡ s1
      → (attempt_at request 2).success ≡ s2
      → (n : ℕ) × EndsWith request n (process_single_request w ds resolve chat request)
  unfolding process_single_request attempts_from build_result exponential_backoff_delay
  ended_by request true s1 s2 e0 e1 e2 = (
    0,
    record {
      within = omega arith;
      failed_before = λ k h. absurd (omega arith);
      last = inl e0;
      success = rw e0;
      error = rw e0;
      slept = rw e0;
    },
  )
  ended_by request false true s2 e0 e1 e2 = (
    1,
    record {
      within = omega arith;
      failed_before = λ k h. failed_one (λ j. (attempt_at request j).success) k e0 h;
      last = inl e1;
      success = rw (e0, e1);
      error = rw (e0, e1);
      slept = rw (e0, e1);
    },
  )
  ended_by request false false true e0 e1 e2 = (
    2,
    record {
      within = omega arith;
      failed_before = λ k h. failed_two (λ j. (attempt_at request j).success) k e0 e1 h;
      last = inl e2;
      success = rw (e0, e1, e2);
      error = rw (e0, e1, e2);
      slept = rw (e0, e1, e2);
    },
  )
  ended_by request false false false e0 e1 e2 = (
    2,
    record {
      within = omega arith;
      failed_before = λ k h. failed_two (λ j. (attempt_at request j).success) k e0 e1 h;
      last = inr refl;
      success = rw (e0, e1, e2);
      error = rw (e0, e1, e2);
      slept = rw (e0, e1, e2);
    },
  )

  -- A request of a batch ends with the first attempt that succeeds, or else with the third: its result
  -- has the success and the error of that attempt, and the delays of the attempts up to it were slept.
  pub process_single_request-EndsWith :
      (request : Line)
      → (n : ℕ) × EndsWith request n (process_single_request w ds resolve chat request)
  process_single_request-EndsWith request =
      ended_by request (attempt_at request 0).success (attempt_at request 1).success
        (attempt_at request 2).success refl refl refl
