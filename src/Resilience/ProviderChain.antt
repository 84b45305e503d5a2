-- ===== src/Resilience/ProviderChain.antt =====
-- What crates/godwit-api/src/moderation_fallback.rs and rerank_fallback.rs have in common: the
-- two files are the same code for two kinds of service, which `Service` tells apart.
--
-- JSON values and the HTTP client are parameters. `timeout` of tokio gives the result of the call if
-- the call ends in time, which is a parameter too.
pub mod First
pub mod Moderation
pub mod Rerank
mod Tests
use godwit.Base.{
  ℕ, Bool, true, false, String, Option, none, some, List, [], ◌∷◌, if◌then◌else◌, Result, ok, err,
  ◌>>=◌, ◌<>◌, show, trim_end_slashes,
}
use godwit.Core.Error.{PasteurError, provider}
use godwit.Core.Json.{Json, HttpResponse, is_success}
use godwit.Resilience.Fallback.{and_then, or_default, keep_some}

pub record ProviderConfig : Type 0 where
  pub name : String
  pub base_url : String
  pub api_key : Option String
  pub model : String

pub record FallbackConfig : Type 0 where
  pub providers : List ProviderConfig
  pub timeout_per_provider : ℕ

-- The words in which the two files differ.
pub record Service : Type 0 where
  pub noun : String
  pub path : String
  pub providers_key : String
  pub timeout_key : String
  pub default : FallbackConfig

module _ (js : Json) (service : Service) where
  -- One entry of the array of providers; `?` on a missing field skips the entry.
  pub read_provider : js.J → Option ProviderConfig
  read_provider v = and_then (and_then (js.get v "name") js.as_str) (λ name.
      and_then (and_then (js.get v "base_url") js.as_str) (λ base_url.
        and_then (and_then (js.get v "model") js.as_str) (λ model. some (record {
          name = name;
          base_url = base_url;
          api_key = and_then (js.get v "api_key") js.as_str;
          model = model;
        }))))

  unfoldable pub from_config_value : Option js.J → FallbackConfig
  unfolding read_provider
  from_config_value config =
      let providers =
        and_then (and_then (and_then config (λ c. js.get c service.providers_key)) js.as_array)
          (λ arr. some (keep_some read_provider arr)) in
      let timeout_secs = and_then (and_then config (λ c. js.get c service.timeout_key)) js.as_u64 in
      record {
        providers = or_default providers service.default.providers;
        timeout_per_provider = or_default timeout_secs service.default.timeout_per_provider;
      }

  pub normalize_response : js.J → js.J
  normalize_response response =
      let id =
        or_default (and_then (js.get response "id") js.as_str) (service.noun <> "-unknown") in
      let model = or_default (and_then (js.get response "model") js.as_str) "unknown" in
      let results = or_default (js.get response "results") (js.of_list []) in
      if js.is_object response
      then js.of_fields
          (("id", js.of_str id) ∷ ("model", js.of_str model) ∷ ("results", results) ∷ [])
      else response

  abbrev bearer : Option String → Option String
  bearer (some key) = some ("Bearer " <> key)
  bearer none = none

  -- The client posts a body to a URL, with an `Authorization` header or none.
  abbrev pub Client : Type 0
  Client = String → Option String → js.J → Result String (HttpResponse js.J)

  abbrev answered : Result String js.J → Result PasteurError js.J
  answered (ok value) = ok (normalize_response value)
  answered (err e) = err (provider ("failed to deserialize " <> service.noun <> " response: " <> e))

  abbrev received : Result String (HttpResponse js.J) → Result PasteurError js.J
  received (ok res) =
      if is_success res.status
      then answered res.json
      else err (provider ("HTTP " <> show res.status <> ": " <> res.text))
  received (err e) = err (provider e)

  pub call_provider : Client → ProviderConfig → js.J → Result PasteurError js.J
  call_provider send p body = received (
      send (trim_end_slashes p.base_url <> service.path) (bearer p.api_key)
        (js.set body "model" (js.of_str p.model)))

  -- The result under `timeout`: none if the call takes too long.
  abbrev pub attempt :
      Client → (ProviderConfig → Bool) → ProviderConfig → js.J → Option (Result PasteurError js.J)
  attempt send in_time p body = if in_time p then some (call_provider send p body) else none

  abbrev pub timeout_error : ℕ → PasteurError
  timeout_error secs = provider (service.noun <> " timeout after " <> show secs <> "s")

  abbrev pub none_left : Option PasteurError → PasteurError
  none_left (some e) = e
  none_left none = provider ("All " <> service.noun <> " providers failed")

  -- The `match` on one attempt; `rest` runs the others.
  abbrev pub next_provider :
      ℕ
      → Option (Result PasteurError js.J)
      → (PasteurError → Result PasteurError js.J)
      → Result PasteurError js.J
  next_provider secs (some (ok response)) rest = ok response
  next_provider secs (some (err e)) rest = rest e
  next_provider secs none rest = rest (timeout_error secs)

  pub execute_from :
      Client
      → (ProviderConfig → Bool)
      → ℕ
      → List ProviderConfig
      → js.J
      → Option PasteurError
      → Result PasteurError js.J
  execute_from send in_time secs [] body last_error = err (none_left last_error)
  execute_from send in_time secs (p ∷ ps) body last_error =
      next_provider secs (attempt send in_time p body)
        (λ e. execute_from send in_time secs ps body (some e))

  pub execute : FallbackConfig → Client → (ProviderConfig → Bool) → js.J → Result PasteurError js.J
  unfolding execute_from
  execute config send in_time body =
      execute_from send in_time config.timeout_per_provider config.providers body none
