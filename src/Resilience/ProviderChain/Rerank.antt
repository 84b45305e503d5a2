-- ===== src/Resilience/ProviderChain/Rerank.antt =====
-- `RerankFallback` of crates/godwit-api/src/rerank_fallback.rs.
use godwit.Base.{Option, none, [], ◌∷◌, Result, Bool}
use godwit.Core.Error.{PasteurError}
use godwit.Core.Json.{Json}
use godwit.Resilience.ProviderChain as ProviderChain
use godwit.Resilience.ProviderChain.{ProviderConfig, FallbackConfig, Service, Client}

-- `RerankFallbackConfig::default`
unfoldable pub rerank_default : FallbackConfig
rerank_default = record {
  providers =
      record {
        name = "cohere";
        base_url = "https://api.cohere.ai/v1";
        api_key = none;
        model = "rerank-english-v3.0";
      }
      ∷ record {
        name = "azure";
        base_url = "https://your-resource.openai.azure.com/openai";
        api_key = none;
        model = "rerank-model";
      }
      ∷ record {
        name = "self-hosted";
        base_url = "http://localhost:8000/v1";
        api_key = none;
        model = "rerank-model";
      }
      ∷ [];
  timeout_per_provider = 15;
}

unfoldable pub rerank : Service
rerank = record {
  noun = "rerank";
  path = "/rerank";
  providers_key = "rerank_providers";
  timeout_key = "rerank_timeout_per_provider_secs";
  default = rerank_default;
}

module _ (js : Json) where
  abbrev pub rerank_from_config_value : Option js.J → FallbackConfig
  rerank_from_config_value = ProviderChain.from_config_value js rerank

  abbrev pub rerank_normalize_response : js.J → js.J
  rerank_normalize_response = ProviderChain.normalize_response js rerank

  abbrev pub rerank_call_provider :
      Client js rerank → ProviderConfig → js.J → Result PasteurError js.J
  rerank_call_provider = ProviderChain.call_provider js rerank

  abbrev pub rerank_execute :
      FallbackConfig → Client js rerank → (ProviderConfig → Bool) → js.J → Result PasteurError js.J
  rerank_execute = ProviderChain.execute js rerank
