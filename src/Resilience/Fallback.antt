-- ===== src/Resilience/Fallback.antt =====
-- crates/godwit-api/src/fallback.rs: the chain of models of a chat request.
--
-- JSON values are a parameter, as are the model table, the model router and `call_chat` of proxy.rs,
-- which are read as functions for the time of one request.
pub mod Chain
mod Tests
use godwit.Base.{
  ℕ, zero, suc, ◌+◌, ◌%◌, Bool, true, false, not, ◌||◌, String, Option, none, some, List, [], ◌∷◌,
  leb, ltb, ◌==◌, nat_key, length, if◌then◌else◌, Result, ok, err, ◌>>=◌, has,
}
use godwit.Core.Error.{PasteurError, show_error}
use godwit.Core.Json.{Json}
use godwit.Providers.Adapter.{
  ProviderError, http, serialization, provider, capability_not_supported, UsageReport, no_usage,
}

pub record FallbackConfig : Type 0 where
  pub models : List String
  pub max_attempts : ℕ
  pub timeout_per_attempt : ℕ

pub record FallbackResult (Response Pricing : Type 0) : Type 0 where
  pub response : Response
  pub usage : UsageReport
  pub model_used : String
  pub model_pricing : Pricing
  pub attempts_made : ℕ
  pub fallback_triggered : Bool

-- `as u32`
abbrev pub u32_mod : ℕ
u32_mod = 4_294_967_296

abbrev pub and_then : {A B : Type 0} → Option A → (A → Option B) → Option B
and_then none f = none
and_then (some a) f = f a

abbrev pub or_default : {A : Type 0} → Option A → A → A
or_default none d = d
or_default (some a) d = a

-- `filter_map`
abbrev pub keep_some : {A B : Type 0} → (A → Option B) → List A → List B
keep_some f [] = []
keep_some f (a ∷ as') = keep (f a) (keep_some f as')
  where
    keep : {B : Type 0} → Option B → List B → List B
    keep none bs = bs
    keep (some b) bs = b ∷ bs

abbrev pub chain_of : String → Option FallbackConfig → List String
chain_of model_ref (some config) = model_ref ∷ config.models
chain_of model_ref none = model_ref ∷ []

module _ (js : Json) where
  abbrev read_config : js.J → List js.J → FallbackConfig
  read_config config arr = record {
    models = keep_some js.as_str arr;
    max_attempts =
        or_default (and_then (js.get config "max_fallback_attempts") js.as_u64) 3 % u32_mod;
    timeout_per_attempt =
        or_default (and_then (js.get config "timeout_per_attempt_secs") js.as_u64) 30;
  }

  pub from_model_config : js.J → Option FallbackConfig
  from_model_config config =
      and_then (and_then (js.get config "fallbacks") js.as_array)
        (λ arr. some (read_config config arr))

  -- The chain of a model whose row was read, or not.
  abbrev pub chain_of_row : String → Result String js.J → List String
  chain_of_row model_ref (ok config) = chain_of model_ref (from_model_config config)
  chain_of_row model_ref (err e) = model_ref ∷ []

  -- `get_by_public_id` of the model table gives the configuration of a model.
  pub get_fallback_chain : (String → Result String js.J) → String → List String
  get_fallback_chain get_by_public_id model_ref =
      chain_of_row model_ref (get_by_public_id model_ref)

-- 5xx, 429, and texts that speak of a timeout.
pub is_retryable_error : ProviderError → Bool
is_retryable_error (http status message) = leb 500 status || status == 429
is_retryable_error (provider msg) = has msg "timeout" || has msg "timed out"
is_retryable_error (serialization e) = false
is_retryable_error (capability_not_supported e) = false

abbrev pub all_failed : ProviderError
all_failed = provider "All fallback attempts failed"

module _ {Request Resolved Response Pricing : Type 0}
    (resolve : String → Result PasteurError Resolved) (pricing : Resolved → Pricing)
    (call_chat : Resolved → Request → Result ProviderError (Response × Option UsageReport)) where
  abbrev pub Answer : Type 0
  Answer = Response × UsageReport × Pricing

  abbrev called :
      Resolved → Result ProviderError (Response × Option UsageReport) → Result ProviderError Answer
  called resolved (ok (resp, usage)) = ok (resp, or_default usage no_usage, pricing resolved)
  called resolved (err e) = err e

  abbrev resolved_or : Result PasteurError Resolved → Request → Result ProviderError Answer
  resolved_or (ok resolved) req = called resolved (call_chat resolved req)
  resolved_or (err e) req = err (provider (show_error e))

  pub call_chat_attempt : String → Request → Result ProviderError Answer
  call_chat_attempt model_ref req = resolved_or (resolve model_ref) req

  -- The `match` on the result of the attempt `idx` of a chain of length `n`; `rest` runs the others.
  abbrev pub after_attempt :
      ℕ
      → ℕ
      → String
      → Result ProviderError Answer
      → (ProviderError → Result ProviderError (FallbackResult Response Pricing))
      → Result ProviderError (FallbackResult Response Pricing)
  after_attempt n idx model_ref (ok (response, usage, price)) rest = ok (record {
    response = response;
    usage = usage;
    model_used = model_ref;
    model_pricing = price;
    attempts_made = idx + 1;
    fallback_triggered = ltb 0 idx;
  })
  after_attempt n idx model_ref (err e) rest =
      let others = rest e in if leb n (idx + 1) || not (is_retryable_error e) then err e else others

  pub attempt_from :
      ℕ
      → ℕ
      → List String
      → Request
      → Option ProviderError
      → Result ProviderError (FallbackResult Response Pricing)
  attempt_from n idx [] req last_error = err (or_default last_error all_failed)
  attempt_from n idx (model_ref ∷ chain) req last_error =
      after_attempt n idx model_ref (call_chat_attempt model_ref req)
        (λ e. attempt_from n (suc idx) chain req (some e))

  pub call_chat_with_fallback :
      (js : Json)
      → (String → Result String js.J)
      → String
      → Request
      → Result ProviderError (FallbackResult Response Pricing)
  unfolding attempt_from
  call_chat_with_fallback js get_by_public_id initial_model req =
      let fallback_chain = get_fallback_chain js get_by_public_id initial_model in
      attempt_from (length fallback_chain) 0 fallback_chain req none
