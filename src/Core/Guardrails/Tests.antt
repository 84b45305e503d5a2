-- ===== src/Core/Guardrails/Tests.antt =====
-- The theorems at concrete messages. A moderation service that is down stands for all.
use godwit.Base.{
  ℕ, true, false, String, string_key, none, some, List, [], ◌∷◌, Result, err, ◌≡◌, refl, nat_beq,
}
use godwit.Base.Dict
use godwit.Core.Json.{Json, HttpResponse}
use godwit.Core.Chat.{ChatContent, text, ChatMessage}
use godwit.Core.PiiMasking.{Text, PiiMasker, mask}
use godwit.Core.Guardrails.{
  GuardrailsConfig, GuardrailsOrchestrator, rewrite_contents, rewrite_messages, moderate, pre_call,
}
use godwit.Core.Guardrails.Runs.{Remembers}
use godwit.Core.Guardrails.Calls.{pre_call-Remembers_last}

-- JSON without any content.
abbrev unit_json : Json
unit_json = record {
  J = Unit {0};
  get = λ v k. none;
  as_array = λ v. none;
  as_str = λ v. none;
  as_u64 = λ v. none;
  is_object = λ v. false;
  set = λ v k x. v;
  of_str = λ s. tt;
  of_list = λ l. tt;
  of_fields = λ l. tt;
}

abbrev down : Text → Result String (HttpResponse (Unit {0}))
down t = err "connection refused"

-- The pattern finds a leading 5.
abbrev find_five : Unit {0} → Text → List (ℕ × ℕ)
find_five r [] = []
find_five r (b ∷ t) = elim (nat_beq b 5) [ true ↦ (0, 1) ∷ [] | false ↦ [] ]

abbrev five : PiiMasker (Unit {0})
five = record {
  patterns = record { name = "five"; pattern = tt; replacement = 7 ∷ [] } ∷ [];
  mask_map = Dict.empty;
}

abbrev masking : GuardrailsConfig
masking = record {
  pii_enabled = true;
  moderation_pre = false;
  moderation_post = false;
  block_on_moderation_failure = true;
}

abbrev user : List ChatContent → ChatMessage
user cs = record { role = "user"; content = some cs }

abbrev at_work : GuardrailsOrchestrator unit_json (λ v. none) tt (λ t. false) down false find_five
at_work = record { pii_masker = some five; config = masking }

abbrev two_messages : List ChatMessage
two_messages = user (text (5 ∷ 1 ∷ []) ∷ []) ∷ user (text (2 ∷ []) ∷ []) ∷ []

pre_call-Remembers_last_example :
    (m' : PiiMasker (Unit {0})) × (some (record five { mask_map = ("r", []) ∷ [] }) ≡ some m')
    × Remembers false find_five "r" five m' (2 ∷ [])
unfolding pre_call rewrite_messages rewrite_contents mask Dict.insert Dict.get moderate
pre_call-Remembers_last_example =
    pre_call-Remembers_last unit_json (λ v. none) tt (λ t. false) down false find_five at_work
      (record { model = "m"; messages = two_messages }) "r" five ((5 ∷ 1 ∷ []) ∷ []) (2 ∷ []) refl
      refl refl refl
