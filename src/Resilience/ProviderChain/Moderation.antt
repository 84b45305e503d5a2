-- ===== src/Resilience/ProviderChain/Moderation.antt =====
-- `ModerationFallback` of crates/godwit-api/src/moderation_fallback.rs.
use godwit.Base.{Option, none, [], ◌∷◌, Result, Bool}
use godwit.Core.Error.{PasteurError}
use godwit.Core.Json.{Json}
use godwit.Resilience.ProviderChain as ProviderChain
use godwit.Resilience.ProviderChain.{ProviderConfig, FallbackConfig, Service, Client}

-- `ModerationFallbackConfig::default`
unfoldable pub moderation_default : FallbackConfig
moderation_default = record {
  providers =
      record {
        name = "openai";
        base_url = "https://api.openai.com/v1";
        api_key = none;
        model = "text-moderation-latest";
      }
      ∷ record {
        name = "azure";
        base_url = "https://your-resource.openai.azure.com/openai";
        api_key = none;
        model = "text-moderation-latest";
      }
      ∷ record {
        name = "self-hosted";
        base_url = "http://localhost:8000/v1";
        api_key = none;
        model = "moderation-model";
      }
      ∷ [];
  timeout_per_provider = 10;
}

unfoldable pub moderation : Service
moderation = record {
  noun = "moderation";
  path = "/moderations";
  providers_key = "moderation_providers";
  timeout_key = "moderation_timeout_per_provider_secs";
  default = moderation_default;
}

module _ (js : Json) where
  abbrev pub moderation_from_config_value : Option js.J → FallbackConfig
  moderation_from_config_value = ProviderChain.from_config_value js moderation

  abbrev pub moderation_normalize_response : js.J → js.J
  moderation_normalize_response = ProviderChain.normalize_response js moderation

  abbrev pub moderation_call_provider :
      Client js moderation → ProviderConfig → js.J → Result PasteurError js.J
  moderation_call_provider = ProviderChain.call_provider js moderation

  abbrev pub moderation_execute :
      FallbackConfig
      → Client js moderation
      → (ProviderConfig → Bool)
      → js.J
      → Result PasteurError js.J
  moderation_execute = ProviderChain.execute js moderation
