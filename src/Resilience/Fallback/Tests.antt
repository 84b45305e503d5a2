-- ===== src/Resilience/Fallback/Tests.antt =====
-- An instance of the theorem on fallback chains, with lists of texts for JSON.
use godwit.Base.{
  ℕ, ◌≡◌, refl, true, String, Option, none, some, List, [], ◌∷◌, map, ◌==◌, string_key, Result, ok,
  err, if◌then◌else◌,
}
use godwit.Core.Json.{Json}
use godwit.Providers.Adapter.{ProviderError, http, UsageReport, no_usage}
use godwit.Core.Error.{PasteurError}
use godwit.Resilience.Fallback.{
  get_fallback_chain, from_model_config, call_chat_with_fallback, attempt_from, call_chat_attempt,
  is_retryable_error,
}
use godwit.Resilience.Fallback.Chain.{Decides, outcome, fallback_decides}

abbrev only_text : List String → Option String
only_text (s ∷ []) = some s
only_text _ = none

-- An object has one field, `fallbacks`.
abbrev js : Json
js = record {
  J = List String;
  get = λ v k. if k == "fallbacks" then some v else none;
  as_array = λ v. some (map (λ s. s ∷ []) v);
  as_str = only_text;
  as_u64 = λ v. none;
  is_object = λ v. true;
  set = λ v k x. v;
  of_str = λ s. s ∷ [];
  of_list = λ vs. [];
  of_fields = λ fs. [];
}

abbrev rows : String → Result String (List String)
rows model = ok ("claude" ∷ "gemini" ∷ [])

abbrev resolve : String → Result PasteurError String
resolve model = ok model

-- Only `claude` is up.
abbrev call_chat : String → ℕ → Result ProviderError (String × Option UsageReport)
call_chat model req = if model == "claude" then ok ("hello", none) else err (http 503 "down")

abbrev price : String → ℕ
price model = 0

second_answers :
    call_chat_with_fallback resolve price call_chat js rows "gpt" 7
    ≡ ok (record {
      response = "hello";
      usage = no_usage;
      model_used = "claude";
      model_pricing = 0;
      attempts_made = 2;
      fallback_triggered = true;
    })
unfolding call_chat_with_fallback attempt_from call_chat_attempt is_retryable_error
    get_fallback_chain from_model_config
second_answers = refl

fallback_decides_example :
    (k : ℕ) × (x : String) × Decides resolve price call_chat
      (get_fallback_chain js rows "gpt")
      7
      k
      x
    × (call_chat_with_fallback resolve price call_chat js rows "gpt" 7
        ≡ outcome resolve price call_chat k x (call_chat_attempt resolve price call_chat x 7))
fallback_decides_example = fallback_decides resolve price call_chat js rows "gpt" 7
