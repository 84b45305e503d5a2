-- ===== src/Api/BatchProcessor/Totals.antt =====
-- What the totals of a batch account for.
use godwit.Base.{
  ℕ, zero, suc, ◌+◌, ◌≤◌, String, Option, none, some, List, [], ◌∷◌, map, length, Result, ok, err,
  ◌≡◌, ◌⊎◌, inl, inr, refl, ap, ◌∙◌, arith, Bool-cases,
}
use godwit.Base.Int.{ℤ, pos}
use godwit.Base.Maybe.{◌>>=◌}
use godwit.Core.Error.{PasteurError}
use godwit.Resilience.Fallback.{keep_some}
use godwit.Providers.Wire.{Wire, field}
use godwit.Providers.Adapter.{UsageReport, ProviderError}
use godwit.Providers.Usage.{Decimals, decimal_field, compute_chat_cost}
use godwit.Api.BatchParser.{ParsedBatchLine}
use godwit.Api.BatchProcessor.{
  BatchItemResult, ChatRequest, max_retries, build_result, attempt_request, attempts_from,
  process_single_request, free, or_free, answered, resolved_to, process_all, process_batch,
  aggregate_results, successes, sum_d,
}

module _ (w : Wire) (ds : Decimals w) where
  open ds use {D, zero_d}

  free_price :
      (key : String)
      → field key (
          ("input_price_per_million", w.of_int (pos 0))
          ∷ ("output_price_per_million", w.of_int (pos 0))
          ∷ [])
        ≡ some (w.of_int (pos 0))
      → decimal_field w ds (free w ds) key ≡ some zero_d
  unfolding decimal_field
  free_price key e = rw (w.get-of_fields, e) (rw w.as_str-of_int ds.from_zero)

  free_sum :
      (p c : Option ℤ)
      → or_free w ds (
          p >>= λ i. c >>= λ o.
          some
            (ds.per_million (ds.add (ds.mul (ds.of_int i) zero_d) (ds.mul (ds.of_int o) zero_d))))
        ≡ zero_d
  free_sum none c = refl
  free_sum (some i) none = refl
  free_sum (some i) (some o) =
      rw (ds.mul_zero (ds.of_int i), ds.mul_zero (ds.of_int o), ds.add_zero) ds.per_million_zero

  -- At the prices of `build_result`, every use is free.
  free_cost :
      (usage : UsageReport) → or_free w ds (compute_chat_cost w ds (free w ds) usage) ≡ zero_d
  unfolding compute_chat_cost
  free_cost usage =
      rw (free_price "input_price_per_million" refl, free_price "output_price_per_million" refl)
        (free_sum usage.prompt_tokens usage.completion_tokens)

  module _ {Resolved : Type 0} (resolve : ParsedBatchLine w.J D → ℕ → Result PasteurError Resolved)
      (chat : ParsedBatchLine w.J D
        → ℕ
        → Resolved
        → ChatRequest w ds
        → Result ProviderError UsageReport) where
    abbrev Line : Type 0
    Line = ParsedBatchLine w.J D

    answered-custom_id :
        (request : Line) (r : Result ProviderError UsageReport)
        → (answered w ds resolve chat request r).0.custom_id ≡ request.custom_id
    answered-custom_id request (ok usage) = refl
    answered-custom_id request (err e) = refl

    attempt-custom_id :
        (request : Line) (n : ℕ) (r : Result PasteurError Resolved)
        → (resolved_to w ds resolve chat request n r).0.custom_id ≡ request.custom_id
    attempt-custom_id request n (err e) = refl
    attempt-custom_id request n (ok r) = answered-custom_id request _

    -- The result of a request: its id, its estimate, and a cost of nothing, if it has one.
    IsResultOf : Line → BatchItemResult D → Type 0
    IsResultOf request i =
        (i.custom_id ≡ request.custom_id)
        × (i.estimated_cost ≡ request.estimated_cost)
        × ((i.actual_cost ≡ none) ⊎ (i.actual_cost ≡ some zero_d))

    attempts_from-IsResultOf :
        (request : Line) (left attempt : ℕ) (last_error : Option String) (slept : List ℕ)
        → IsResultOf request
            (attempts_from w ds resolve chat request left attempt last_error slept).0
    unfolding attempts_from build_result attempt_request IsResultOf
    attempts_from-IsResultOf request zero attempt last_error slept = (refl, refl, inl refl)
    attempts_from-IsResultOf request (suc left) attempt last_error slept =
        let (result, usage) = attempt_request w ds resolve chat request attempt in
        elim (Bool-cases result.success) [
          | inl done ↦ rw done (
            attempt-custom_id request attempt (resolve request attempt),
            refl,
            inr (ap some (free_cost usage)),
          )
          | inr failed ↦ rw failed (attempts_from-IsResultOf request left (attempt + 1) _ _)
        ]

    process_all-custom_ids :
        (requests : List Line)
        → map (λ i. i.custom_id) (process_all w ds resolve chat requests)
          ≡ map (λ r. r.custom_id) requests
    unfolding process_single_request IsResultOf
    process_all-custom_ids [] = refl
    process_all-custom_ids (r ∷ rs) =
        ap (λ id. id ∷ map (λ i. i.custom_id) (process_all w ds resolve chat rs))
          (attempts_from-IsResultOf r (max_retries + 1) 0 none []).0
        ∙ ap (λ ids. r.custom_id ∷ ids) (process_all-custom_ids rs)

    process_all-estimates :
        (requests : List Line)
        → map (λ i. i.estimated_cost) (process_all w ds resolve chat requests)
          ≡ map (λ r. r.estimated_cost) requests
    unfolding process_single_request IsResultOf
    process_all-estimates [] = refl
    process_all-estimates (r ∷ rs) =
        ap (λ c. c ∷ map (λ i. i.estimated_cost) (process_all w ds resolve chat rs))
          (attempts_from-IsResultOf r (max_retries + 1) 0 none []).1
        ∙ ap (λ cs. r.estimated_cost ∷ cs) (process_all-estimates rs)

    length-process_all :
        (requests : List Line) → length (process_all w ds resolve chat requests) ≡ length requests
    length-process_all [] = refl
    length-process_all (r ∷ rs) = omega (arith, length-process_all rs)

    successes-le-length :
        (items : List (BatchItemResult D)) → successes w ds resolve chat items ≤ length items
    successes-le-length [] = omega arith
    successes-le-length (i ∷ is) = ground (arith, successes-le-length is)

    -- The results of a batch are those of its requests, in their order; the requests that succeeded
    -- and those that failed are all of them; and the estimate of the batch is the sum of theirs.
    pub batch_accounts_for_all :
        (requests : List Line)
        → (map (λ i. i.custom_id) (process_batch w ds resolve chat requests).items
            ≡ map (λ r. r.custom_id) requests)
          × ((process_batch w ds resolve chat requests).success_count
                + (process_batch w ds resolve chat requests).failure_count
              ≡ length requests)
          × ((process_batch w ds resolve chat requests).total_estimated_cost
              ≡ sum_d w ds resolve chat zero_d (map (λ r. r.estimated_cost) requests))
    unfolding process_batch aggregate_results
    batch_accounts_for_all requests = (
      process_all-custom_ids requests,
      omega (
        arith,
        length-process_all requests,
        successes-le-length (process_all w ds resolve chat requests),
      ),
      ap (sum_d w ds resolve chat zero_d) (process_all-estimates requests),
    )

    costs_nothing :
        (requests : List Line)
        → sum_d w ds resolve chat zero_d
            (keep_some (λ i. i.actual_cost) (process_all w ds resolve chat requests))
          ≡ zero_d
    unfolding process_single_request IsResultOf
    costs_nothing [] = refl
    costs_nothing (r ∷ rs) = elim (attempts_from-IsResultOf r (max_retries + 1) 0 none []).2 [
      | inl missing ↦ rw missing (costs_nothing rs)
      | inr nought ↦ rw nought (
          ap
            (λ total.
              sum_d w ds resolve chat total
                (keep_some (λ i. i.actual_cost) (process_all w ds resolve chat rs)))
            ds.add_zero
          ∙ costs_nothing rs)
    ]

    -- Whatever the requests of a batch use, the batch has no actual cost: each is priced at prices of 0.
    pub batch_has_no_cost :
        (requests : List Line) → (process_batch w ds resolve chat requests).total_actual_cost ≡ none
    unfolding process_batch aggregate_results
    batch_has_no_cost requests = rw (costs_nothing requests, ds.positive_zero)
