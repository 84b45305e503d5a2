-- ===== src/Providers/Usage.antt =====
-- crates/godwit-providers/src/usage.rs: the price of a use. Decimals are an interface, and JSON and
-- texts the interface `Wire`. The length of an audio in seconds, a float, is an argument.
use godwit.Base.{Bool, false, String, Option, none, some, ◌≡◌}
use godwit.Base.Int.{ℤ, pos}
use godwit.Core.Capability.{
  Capability, chat, image_generation, image_edit, video_generation, audio_tts, audio_stt, embedding,
}
use godwit.Base.Maybe.{◌>>=◌}
use godwit.Providers.Wire.{Wire}
use godwit.Providers.Adapter.{UsageReport, no_usage}

-- What the code uses of `Decimal`, and the laws at zero that it relies on.
pub record Decimals (w : Wire) : Type 1 where
  pub D : Type 0
  pub zero_d : D
  pub add : D → D → D
  pub mul : D → D → D
  -- `/ Decimal::from(1_000_000)`
  pub per_million : D → D
  pub of_int : ℤ → D
  -- `d > Decimal::ZERO`
  pub positive : D → Bool
  pub from_str_exact : w.T → Option D
  pub from_zero : from_str_exact (w.render (w.of_int (pos 0))) ≡ some zero_d
  pub mul_zero : (d : D) → mul d zero_d ≡ zero_d
  pub add_zero : add zero_d zero_d ≡ zero_d
  pub per_million_zero : per_million zero_d ≡ zero_d
  pub positive_zero : positive zero_d ≡ false

-- `Usage` of crates/godwit-core/src/lib.rs; `cached` are the cached tokens of its details.
pub record Usage : Type 0 where
  pub prompt_tokens : ℤ
  pub completion_tokens : ℤ
  pub cached : Option ℤ

abbrev usage_report : Option Usage → UsageReport
usage_report none = no_usage
usage_report (some u) = record no_usage {
  prompt_tokens = some u.prompt_tokens;
  completion_tokens = some u.completion_tokens;
  cache_read_tokens = u.cached;
}

pub chat_usage_report : Option Usage → UsageReport
chat_usage_report = usage_report

module _ (w : Wire) (ds : Decimals w) where
  open w use {T, J, get, as_str, render}
  open ds use {D, add, mul, per_million, of_int, from_str_exact}

  abbrev text_or : J → Option T → T
  text_or v none = render v
  text_or v (some s) = s

  -- A price is a text, or a number as it is written.
  unfoldable pub decimal_field : J → String → Option D
  decimal_field pricing key = do
    value ← get pricing key
    from_str_exact (text_or value (as_str value))

  unfoldable pub compute_chat_cost : J → UsageReport → Option D
  unfolding decimal_field
  compute_chat_cost pricing usage = do
    input_price ← decimal_field pricing "input_price_per_million"
    output_price ← decimal_field pricing "output_price_per_million"
    input_tokens ← usage.prompt_tokens
    output_tokens ← usage.completion_tokens
    some (
        per_million
          (add (mul (of_int input_tokens) input_price) (mul (of_int output_tokens) output_price)))

  pub compute_embedding_cost : J → UsageReport → Option D
  unfolding decimal_field
  compute_embedding_cost pricing usage = do
    input_price ← decimal_field pricing "input_price_per_million"
    tokens ← usage.embedding_tokens
    some (per_million (mul (of_int tokens) input_price))

  pub compute_image_cost : J → UsageReport → Option D
  unfolding decimal_field
  compute_image_cost pricing usage = do
    image_price ← decimal_field pricing "image_price_per_image"
    count ← usage.image_count
    some (mul (of_int count) image_price)

  pub compute_audio_tts_cost : J → UsageReport → Option D
  unfolding decimal_field
  compute_audio_tts_cost pricing usage = do
    price_per_char ← decimal_field pricing "tts_price_per_character"
    chars ← usage.tts_characters
    some (mul (of_int chars) price_per_char)

  -- `audio_seconds` with `Decimal::from_f64_retain`
  module _ {F : Type 0} (from_f64_retain : F → Option D) where
    pub compute_audio_stt_cost : J → Option F → Option D
    unfolding decimal_field
    compute_audio_stt_cost pricing audio_seconds = do
      price_per_sec ← decimal_field pricing "stt_price_per_second"
      length ← audio_seconds
      seconds ← from_f64_retain length
      some (mul seconds price_per_sec)

    pub compute_cost : J → Capability → UsageReport → Option F → Option D
    unfolding compute_chat_cost compute_embedding_cost compute_image_cost compute_audio_tts_cost
        compute_audio_stt_cost
    compute_cost pricing chat usage seconds = compute_chat_cost pricing usage
    compute_cost pricing embedding usage seconds = compute_embedding_cost pricing usage
    compute_cost pricing image_generation usage seconds = compute_image_cost pricing usage
    compute_cost pricing image_edit usage seconds = compute_image_cost pricing usage
    compute_cost pricing audio_tts usage seconds = compute_audio_tts_cost pricing usage
    compute_cost pricing audio_stt usage seconds = compute_audio_stt_cost pricing seconds
    compute_cost pricing video_generation usage seconds = none
