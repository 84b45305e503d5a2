-- ===== src/Core/Alerting.antt =====
-- `AlertingService` of crates/godwit-core/src/alerting.rs.
--
-- The queries, the HTTP client and the arithmetic of 64-bit floats are parameters; what is written,
-- posted and slept is a trace. Timestamps are left out, and so is that a payload is no JSON.
pub mod Delivery
pub mod Rounds
mod Tests
use godwit.Base.{
  ℕ, zero, suc, ◌+◌, ◌-◌, Bool, true, false, String, Option, none, some, List, [], ◌∷◌, ltb, length,
  get_elem?, if◌then◌else◌, Result, ok, err,
}
use godwit.Base.Int.{ℤ, pos, negsuc}
use godwit.Base.Trace.{Traced, ◌>>=◌, ◌>>◌, ask, act}
use godwit.Core.Json.{is_success}

pub data AlertingError : Type 0 where
  database http webhook_failed : String → AlertingError

pub record AlertingConfig : Type 0 where
  pub org_id : Option ℕ
  pub team_id : Option ℕ
  pub api_key_id : Option ℕ
  pub budget_threshold_percent : ℤ
  pub webhook_url : String

pub record BudgetAlertPayload (F : Type 0) : Type 0 where
  pub event_type : String
  pub org_id : Option ℕ
  pub team_id : Option ℕ
  pub api_key_id : Option ℕ
  pub current_spend : F
  pub budget : F
  pub threshold_percent : ℕ

-- What the service does: the rows of `alerting_webhooks` that it writes, the posts, and the pauses in
-- seconds.
pub data Deed (F : Type 0) : Type 0 where
  recorded : String → String → BudgetAlertPayload F → String → Deed F
  posted : String → BudgetAlertPayload F → Deed F
  slept : ℕ → Deed F
  status_set : ℕ → String → ℕ → Deed F
  retry_set : ℕ → ℕ → Deed F

-- 64-bit floats, the tables, and the receivers of webhooks.
pub record Services : Type 1 where
  pub F : Type 0
  pub zero_f : F
  pub leq : F → F → Bool
  -- `budget * (percent as f64 / 100.0)`
  pub percent_of : ℤ → F → F
  pub Decimal : Type 0
  -- `to_string().parse::<f64>().unwrap_or(0.0)`
  pub to_f64 : Decimal → F
  pub enabled_configs : Result AlertingError (List AlertingConfig)
  pub summed_cost : Option ℕ → Option ℕ → Option ℕ → Result AlertingError (Option Decimal)
  pub key_budget : ℕ → Result AlertingError (Option Decimal)
  pub team_budget : ℕ → Result AlertingError (Option Decimal)
  pub organization_budget : ℕ → Result AlertingError (Option Decimal)
  -- the answer to a post by its attempt: a status, or a failure
  pub post : String → BudgetAlertPayload F → ℕ → Result String ℕ
  pub insert_webhook : String → String → BudgetAlertPayload F → String → Result AlertingError ℕ
  pub set_status : ℕ → String → ℕ → Result AlertingError (Unit {0})
  pub set_retry : ℕ → ℕ → Result AlertingError (Unit {0})

abbrev pub max_retries : ℕ
max_retries = 5

abbrev pub delays : List ℕ
delays = 30 ∷ 120 ∷ 600 ∷ 3600 ∷ []

abbrev or_last : Option ℕ → ℕ
or_last (some n) = n
or_last none = 3600

pub delay : ℕ → ℕ
delay attempt = or_last (get_elem? delays attempt)

module _ (services : Services) where
  open services use {
    F, zero_f, leq, percent_of, Decimal, to_f64, enabled_configs, summed_cost, key_budget,
    team_budget, organization_budget, post, insert_webhook, set_status, set_retry,
  }

  abbrev pub Job : Type 0 → Type 0
  Job A = Traced (Deed F) AlertingError A

  -- `unwrap_or_default`, as a float.
  abbrev amount : Option Decimal → F
  amount none = zero_f
  amount (some d) = to_f64 d

  abbrev read_amount : Result AlertingError (Option Decimal) → Result AlertingError F
  read_amount (err e) = err e
  read_amount (ok d) = ok (amount d)

  pub get_current_spend : AlertingConfig → Result AlertingError F
  get_current_spend c = read_amount (summed_cost c.org_id c.team_id c.api_key_id)

  -- The table of the narrowest id that is given.
  abbrev fetch_budget : Option ℕ → Option ℕ → Option ℕ → Result AlertingError (Option Decimal)
  fetch_budget org team (some key) = key_budget key
  fetch_budget org (some team) none = team_budget team
  fetch_budget (some org) none none = organization_budget org
  fetch_budget none none none = ok none

  pub get_budget : AlertingConfig → Result AlertingError F
  get_budget c = read_amount (fetch_budget c.org_id c.team_id c.api_key_id)

  abbrev pub delivered : Result String ℕ → Bool
  delivered (ok status) = is_success status
  delivered (err e) = false

  abbrev pub succeeded : ℕ → ℕ → Job (Unit {0})
  succeeded id attempt = act (status_set id "success" attempt) (set_status id "success" attempt)

  abbrev pub failed_for_good : ℕ → ℕ → Job (Unit {0})
  failed_for_good id attempt = do
    act (status_set id "failed" attempt) (set_status id "failed" attempt)
    ask (err (webhook_failed "Max retries exceeded"))

  abbrev pub paused : ℕ → ℕ → Job (Unit {0})
  paused id attempt = do
    act (slept (delay attempt)) (ok tt)
    act (retry_set id (attempt + 1)) (set_retry id (attempt + 1))

  -- The loop over the attempts, of which `left` come after this one.
  pub deliver_from : ℕ → String → BudgetAlertPayload F → ℕ → ℕ → Job (Unit {0})
  unfolding delay
  deliver_from id url payload attempt zero = do
    act (posted url payload) (ok tt)
    if delivered (post url payload attempt)
        then succeeded id attempt
        else failed_for_good id attempt
  deliver_from id url payload attempt (suc left) = do
    let rest = deliver_from id url payload (attempt + 1) left
    act (posted url payload) (ok tt)
    if delivered (post url payload attempt) then succeeded id attempt else paused id attempt >> rest

  pub send_webhook : String → String → BudgetAlertPayload F → Job (Unit {0})
  unfolding deliver_from
  send_webhook event_type url payload = do
    id ←
        act (recorded event_type url payload "pending")
          (insert_webhook event_type url payload "pending")
    deliver_from id url payload 0 max_retries

  -- `as u32`, of an `i32`
  abbrev pub as_u32 : ℤ → ℕ
  as_u32 (pos n) = n
  as_u32 (negsuc n) = 4_294_967_295 - n

  abbrev pub event_of : F → F → String
  event_of current_spend budget = if leq budget current_spend then "budget_100" else "budget_80"

  abbrev pub payload_of : AlertingConfig → F → F → BudgetAlertPayload F
  payload_of c current_spend budget = record {
    event_type = event_of current_spend budget;
    org_id = c.org_id;
    team_id = c.team_id;
    api_key_id = c.api_key_id;
    current_spend = current_spend;
    budget = budget;
    threshold_percent = as_u32 c.budget_threshold_percent;
  }

  abbrev pub alert : AlertingConfig → F → F → Job (Unit {0})
  alert c current_spend budget =
      if leq (percent_of c.budget_threshold_percent budget) current_spend
      then send_webhook (event_of current_spend budget) c.webhook_url
          (payload_of c current_spend budget)
      else ask (ok tt)

  -- A round of the loop of `check_budgets`.
  pub check_config : AlertingConfig → Job (Unit {0})
  unfolding send_webhook get_current_spend get_budget
  check_config c = do
    current_spend ← ask (get_current_spend c)
    budget ← ask (get_budget c)
    if leq budget zero_f then ask (ok tt) else alert c current_spend budget

  pub check_configs : List AlertingConfig → Job (Unit {0})
  unfolding check_config
  check_configs [] = ask (ok tt)
  check_configs (c ∷ cs) = do check_config c; check_configs cs

  pub check_budgets : Job (Unit {0})
  unfolding check_configs
  check_budgets = do configs ← ask enabled_configs; check_configs configs
