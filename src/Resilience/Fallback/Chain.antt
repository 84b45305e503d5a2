-- ===== src/Resilience/Fallback/Chain.antt =====
-- Which model of a chain answers a chat request.
use mathlib.Core.Path.{subst}
use mathlib.Core.Option.{some-injective}
use godwit.Base.{
  ℕ, zero, suc, ◌+◌, ◌<◌, ◌≡◌, ◌⊎◌, inl, inr, refl, sym, ap, ◌∙◌, true, false, Bool-cases, String,
  Option, none, some, List, [], ◌∷◌, length, get_elem?, Result, ok, err, ltb, arith,
}
use godwit.Core.Error.{PasteurError}
use godwit.Core.Json.{Json}
use godwit.Providers.Adapter.{ProviderError, UsageReport}
use godwit.Resilience.Fallback.{
  FallbackConfig, FallbackResult, Answer, chain_of, chain_of_row, from_model_config,
  is_retryable_error, call_chat_attempt, after_attempt, attempt_from, get_fallback_chain,
  call_chat_with_fallback,
}

abbrev pub Retries : {A : Type 0} → Result ProviderError A → Type 0
Retries (ok a) = ⊥
Retries (err e) = is_retryable_error e ≡ true

abbrev pub Stops : {A : Type 0} → Result ProviderError A → Type 0
Stops (ok a) = Unit
Stops (err e) = is_retryable_error e ≡ false

chain_of-starts :
    (model : String) (config : Option FallbackConfig)
    → (fallbacks : List String) × (chain_of model config ≡ model ∷ fallbacks)
chain_of-starts model none = ([], refl)
chain_of-starts model (some config) = (config.models, refl)

-- A chain begins with the model asked for.
chain_starts :
    (js : Json) (model : String) (row : Result String js.J)
    → (fallbacks : List String) × (chain_of_row js model row ≡ model ∷ fallbacks)
chain_starts js model (ok config) = chain_of-starts model (from_model_config js config)
chain_starts js model (err e) = ([], refl)

module _ {Request Resolved Response Pricing : Type 0}
    (resolve : String → Result PasteurError Resolved) (pricing : Resolved → Pricing)
    (call_chat : Resolved → Request → Result ProviderError (Response × Option UsageReport)) where
  -- What the attempt at place `k` of a chain, of model `m`, is returned as.
  abbrev pub outcome :
      ℕ
      → String
      → Result ProviderError (Answer resolve pricing call_chat)
      → Result ProviderError (FallbackResult Response Pricing)
  outcome k m (ok (response, usage, price)) = ok (record {
    response = response;
    usage = usage;
    model_used = m;
    model_pricing = price;
    attempts_made = k + 1;
    fallback_triggered = ltb 0 k;
  })
  outcome k m (err e) = err e

  abbrev attempt : String → Request → Result ProviderError (Answer resolve pricing call_chat)
  attempt m req = call_chat_attempt resolve pricing call_chat m req

  -- The attempt at place `k` of the chain, of model `m`, decides: every attempt before it fails in a
  -- way that is retried, and it does not, or is the last.
  pub record Decides (chain : List String) (req : Request) (k : ℕ) (m : String) : Type 0 where
    pub place : get_elem? chain k ≡ some m
    pub retried :
        (i : ℕ) (x : String) → i < k → get_elem? chain i ≡ some x → Retries (attempt x req)
    pub stops : Stops (attempt m req) ⊎ (k + 1 ≡ length chain)

  stop_here :
      (n idx : ℕ) (m : String) (r : Result ProviderError (Answer resolve pricing call_chat))
      (rest : ProviderError → Result ProviderError (FallbackResult Response Pricing))
      → Stops r ⊎ (n ≡ idx + 1)
      → after_attempt resolve pricing call_chat n idx m r rest ≡ outcome idx m r
  stop_here n idx m (ok a) rest h = refl
  stop_here n idx m (err e) rest h = ground arith

  go_on :
      (n idx : ℕ) (m : String) (e : ProviderError)
      (rest : ProviderError → Result ProviderError (FallbackResult Response Pricing))
      → is_retryable_error e ≡ true
      → idx + 1 < n
      → after_attempt resolve pricing call_chat n idx m (err e) rest ≡ rest e
  go_on n idx m e rest h k = ground arith

  decide :
      (r : Result ProviderError (Answer resolve pricing call_chat))
      → Stops r ⊎ ((e : ProviderError) × (r ≡ err e) × (is_retryable_error e ≡ true))
  decide (ok a) = inl tt
  decide (err e) = elim (Bool-cases (is_retryable_error e)) [
    | inl retry ↦ inr (e, refl, retry)
    | inr final ↦ inl final
  ]

  later :
      (m x : String) (chain : List String) (req : Request) (k : ℕ)
      → Retries (attempt m req)
      → Decides chain req k x
      → Decides (m ∷ chain) req (suc k) x
  later m x chain req k h d = record {
    place = d.place;
    retried = go;
    stops = elim d.stops [ inl s ↦ inl s | inr e ↦ inr (omega arith) ];
  }
    where
      go :
          (i : ℕ) (y : String)
          → i < suc k
          → get_elem? (m ∷ chain) i ≡ some y
          → Retries (attempt y req)
      go zero y lt e = subst (λ o. Retries (attempt o req)) (some-injective m y e) h
      go (suc i) y lt e = d.retried i y (omega arith) e

  attempt_from_decides :
      (n idx : ℕ) (m : String) (chain : List String) (req : Request)
      (last_error : Option ProviderError)
      → n ≡ idx + length (m ∷ chain)
      → (k : ℕ) × (x : String) × Decides (m ∷ chain) req k x
        × (attempt_from resolve pricing call_chat n idx (m ∷ chain) req last_error
            ≡ outcome (idx + k) x (attempt x req))
  unfolding attempt_from
  attempt_from_decides n idx m [] req last_error h = (
    0,
    m,
    record { place = refl; retried = λ i x lt e. absurd (omega arith); stops = inr refl },
    stop_here n idx m (attempt m req) _ (inr (omega arith))
        ∙ ap (λ j. outcome j m (attempt m req)) (omega arith),
  )
  attempt_from_decides n idx m (x ∷ chain) req last_error h = elim (decide (attempt m req)) [
    | inl stop ↦ (
      0,
      m,
      record { place = refl; retried = λ i y lt e. absurd (omega arith); stops = inl stop },
      stop_here n idx m (attempt m req) _ (inl stop)
          ∙ ap (λ j. outcome j m (attempt m req)) (omega arith),
    )
    | inr (e, failed, retry) ↦
        let rest : ProviderError → Result ProviderError (FallbackResult Response Pricing) =
          λ y. attempt_from resolve pricing call_chat n (suc idx) (x ∷ chain) req (some y) in
        let (k, y, d, eq) = attempt_from_decides n (suc idx) x chain req (some e) (omega arith) in
        let retries : Retries (attempt m req) = subst Retries (sym failed) retry in
        (
          suc k,
          y,
          later m y (x ∷ chain) req k retries d,
          ap (λ r. after_attempt resolve pricing call_chat n idx m r rest) failed
              ∙ go_on n idx m e rest retry (omega arith)
              ∙ eq
              ∙ ap (λ j. outcome j y (attempt y req)) (omega arith),
        )
  ]

  -- A chat request is answered by the first model of its chain whose attempt succeeds, fails in a way
  -- that is not retried, or is the last: the result tells which model that was, after how many
  -- attempts, and whether it was a fallback. The error that all attempts failed is never made up.
  pub fallback_decides :
      (js : Json) (get_by_public_id : String → Result String js.J) (model : String) (req : Request)
      → (k : ℕ) × (x : String) × Decides (get_fallback_chain js get_by_public_id model) req k x
        × (call_chat_with_fallback resolve pricing call_chat js get_by_public_id model req
            ≡ outcome k x (attempt x req))
  unfolding call_chat_with_fallback get_fallback_chain
  fallback_decides js get_by_public_id model req =
      let (fallbacks, starts) = chain_starts js model (get_by_public_id model) in
      subst
        (λ chain.
          (k : ℕ) × (x : String) × Decides chain req k x
          × (attempt_from resolve pricing call_chat (length chain) 0 chain req none
              ≡ outcome k x (attempt x req)))
        (sym starts)
        (let (k, x, d, eq) =
            attempt_from_decides (length (model ∷ fallbacks)) 0 model fallbacks req none
              (omega arith) in
          (k, x, d, eq ∙ ap (λ j. outcome j x (attempt x req)) (omega arith)))
