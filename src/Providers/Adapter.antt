-- ===== src/Providers/Adapter.antt =====
-- The errors and the usage report of the `Adapter` trait, crates/godwit-providers/src/adapter.rs.
-- Requests, responses and the calls of the providers are parameters where they are used.
use godwit.Base.{ℕ, String, Option, none, ◌<>◌, show}
use godwit.Base.Int.{ℤ}

pub data ProviderError : Type 0 where
  http : ℕ → String → ProviderError
  serialization provider capability_not_supported : String → ProviderError

-- `UsageReport` less its two lengths in seconds, which are floats that the parts modelled do not read.
pub record UsageReport : Type 0 where
  pub prompt_tokens : Option ℤ
  pub completion_tokens : Option ℤ
  pub embedding_tokens : Option ℤ
  pub image_count : Option ℤ
  pub tts_characters : Option ℤ
  pub cache_read_tokens : Option ℤ
  pub cache_write_tokens : Option ℤ

-- `UsageReport::default()`
abbrev pub no_usage : UsageReport
no_usage = record {
  prompt_tokens = none;
  completion_tokens = none;
  embedding_tokens = none;
  image_count = none;
  tts_characters = none;
  cache_read_tokens = none;
  cache_write_tokens = none;
}

-- `to_string`
abbrev pub show_provider_error : ProviderError → String
show_provider_error (http status message) = "http error: " <> show status <> ": " <> message
show_provider_error (serialization e) = "serialization error: " <> e
show_provider_error (provider e) = "provider error: " <> e
show_provider_error (capability_not_supported e) = "capability not supported: " <> e
