-- ===== src/Core/Alerting/Tests.antt =====
-- Alerts on sample services, and instances of the theorems on them.
use godwit.Base.{
  ℕ, zero, suc, ◌*◌, ◌/◌, ◌≤◌, ◌<◌, String, Option, none, some, [], ◌∷◌, ◌++◌, leb, Result, ok, err,
  ◌≡◌, ◌⊎◌, refl, true, false, ◌==◌, string_key, if◌then◌else◌,
}
use godwit.Base.Int.{ℤ, pos, negsuc}
use godwit.Core.Alerting.{
  AlertingConfig, BudgetAlertPayload, recorded, posted, slept, status_set, retry_set, Services,
  webhook_failed, delay, delivered, send_webhook, deliver_from, check_config, check_configs,
  get_budget, get_current_spend, check_budgets,
}
use godwit.Core.Alerting.Delivery.{tries, last_try, verdict, send_webhook-EndsWith}
use godwit.Core.Alerting.Rounds.{in_vain, unreachable_webhook_ends_check}

abbrev config : Option ℕ → String → AlertingConfig
config team url = record {
  org_id = some 1;
  team_id = team;
  api_key_id = none;
  budget_threshold_percent = pos 80;
  webhook_url = url;
}

-- Amounts in cents; each scope has spent 90 dollars of 100.
abbrev percent : ℤ → ℕ → ℕ
percent (pos p) b = p * b / 100
percent (negsuc p) b = 0

-- Attempt 1 reaches "https://up"; nothing reaches the others.
abbrev answer : String → ℕ → Result String ℕ
answer url (suc zero) = if url == "https://up" then ok 200 else ok 503
answer url n = err "timed out"

abbrev services : Services
services = record {
  F = ℕ;
  zero_f = 0;
  leq = leb;
  percent_of = percent;
  Decimal = ℕ;
  to_f64 = λ d. d;
  enabled_configs = ok (
      config none "https://up"
      ∷ (config (some 7) "https://down" ∷ (config (some 8) "https://up" ∷ [])));
  summed_cost = λ org team key. ok (some 9000);
  key_budget = λ key. ok none;
  team_budget = λ team. ok (some 10000);
  organization_budget = λ org. ok (some 10000);
  post = λ url payload n. answer url n;
  insert_webhook = λ event url payload status. ok 5;
  set_status = λ id s n. ok tt;
  set_retry = λ id n. ok tt;
}

abbrev alert_80 : Option ℕ → BudgetAlertPayload ℕ
alert_80 team = record {
  event_type = "budget_80";
  org_id = some 1;
  team_id = team;
  api_key_id = none;
  current_spend = 9000;
  budget = 10000;
  threshold_percent = 80;
}

second_attempt : check_config services (config none "https://up") ≡ (
  recorded "budget_80" "https://up" (alert_80 none) "pending"
      ∷ posted "https://up" (alert_80 none)
      ∷ slept 30
      ∷ retry_set 5 1
      ∷ posted "https://up" (alert_80 none)
      ∷ status_set 5 "success" 1
      ∷ [],
  ok tt,
)
unfolding check_config send_webhook deliver_from delay get_budget get_current_spend
second_attempt = refl

send_webhook-EndsWith_example :
    (n : ℕ) × (n ≤ 5)
    × ((k : ℕ) → k < n → delivered services (answer "https://up" k) ≡ false)
    × ((delivered services (answer "https://up" n) ≡ true) ⊎ (n ≡ 5))
    × (send_webhook services "budget_80" "https://up" (alert_80 none) ≡ (
      recorded "budget_80" "https://up" (alert_80 none) "pending"
          ∷ (tries services (λ id s n. refl) (λ id n. refl) 5 "https://up" (alert_80 none) n
              ++ last_try services
                  (λ id s n. refl)
                  (λ id n. refl)
                  5
                  "https://up"
                  (alert_80 none)
                  n
                  (delivered services (answer "https://up" n))),
      verdict services
          (λ id s n. refl)
          (λ id n. refl)
          5
          "https://up"
          (alert_80 none)
          (delivered services (answer "https://up" n)),
    ))
send_webhook-EndsWith_example =
    send_webhook-EndsWith services (λ id s n. refl) (λ id n. refl) 5 "https://up" (alert_80 none)
      "budget_80" refl

before_is_fine : (check_configs services (config none "https://up" ∷ [])).1 ≡ ok tt
unfolding check_configs check_config send_webhook deliver_from delay get_budget get_current_spend
before_is_fine = refl

spent_by_team : get_current_spend services (config (some 7) "https://down") ≡ ok 9000
unfolding get_current_spend
spent_by_team = refl

budget_of_team : get_budget services (config (some 7) "https://down") ≡ ok 10000
unfolding get_budget
budget_of_team = refl

never_reached : (k : ℕ) → k ≤ 5 → delivered services (answer "https://down" k) ≡ false
never_reached zero h = refl
never_reached (suc zero) h = refl
never_reached (suc (suc k)) h = refl

unreachable_webhook_ends_check_example : check_budgets services ≡ (
  (check_configs services (config none "https://up" ∷ [])).0
      ++ in_vain services (λ id s n. refl) (λ id n. refl) 5 "https://down" (alert_80 (some 7)),
  err (webhook_failed "Max retries exceeded"),
)
unreachable_webhook_ends_check_example =
    unreachable_webhook_ends_check services (λ id s n. refl) (λ id n. refl)
      (config none "https://up" ∷ []) (config (some 8) "https://up" ∷ [])
      (config (some 7) "https://down") 9000 10000 5 refl before_is_fine spent_by_team budget_of_team
      refl refl refl never_reached
