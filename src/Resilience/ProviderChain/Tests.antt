-- ===== src/Resilience/ProviderChain/Tests.antt =====
-- Runs of chains of providers, with numbers for JSON.
use godwit.Base.{
  ℕ, ◌≡◌, refl, Bool, true, false, String, Option, none, some, ◌==◌, string_key, Result, ok, err,
  if◌then◌else◌,
}
use godwit.Core.Json.{Json, HttpResponse}
use godwit.Resilience.ProviderChain.{
  ProviderConfig, execute, execute_from, call_provider, normalize_response,
}
use godwit.Resilience.ProviderChain.Moderation.{moderation, moderation_default, moderation_execute}

abbrev js : Json
js = record {
  J = ℕ;
  get = λ v k. none;
  as_array = λ v. none;
  as_str = λ v. none;
  as_u64 = λ v. some v;
  is_object = λ v. false;
  set = λ v k x. v;
  of_str = λ s. 0;
  of_list = λ vs. 0;
  of_fields = λ fs. 0;
}

-- The first provider is down, the second too slow, the third answers.
abbrev send : String → Option String → ℕ → Result String (HttpResponse ℕ)
send url key body =
    if url == "https://api.openai.com/v1/moderations"
    then ok (record { status = 503; text = "down"; json = err "no JSON" })
    else ok (record { status = 200; text = ""; json = ok 42 })

abbrev in_time : ProviderConfig → Bool
in_time p = if p.name == "azure" then false else true

third_answers : moderation_execute js moderation_default send in_time 7 ≡ ok 42
unfolding execute execute_from call_provider normalize_response moderation_default moderation
third_answers = refl
