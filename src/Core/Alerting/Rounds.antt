-- ===== src/Core/Alerting/Rounds.antt =====
-- The rounds of `check_budgets`: what a delivery that fails does to those after it.
use godwit.Base.{
  ℕ, ◌≤◌, Bool, true, false, String, List, [], ◌∷◌, ◌++◌, ok, err, ◌≡◌, ◌⊎◌, inl, inr, ◌∙◌,
  append_assoc,
}
use godwit.Base.Trace.{>>-eq-ok, >>-ok, >>-err}
use godwit.Core.Alerting.{
  AlertingError, webhook_failed, AlertingConfig, BudgetAlertPayload, Deed, recorded, Services,
  get_current_spend, get_budget, delivered, event_of, payload_of, check_config, check_configs,
  check_budgets, send_webhook,
}
use godwit.Core.Alerting.Delivery.{tries, last_try, send_webhook-EndsWith}

module _ (services : Services) where
  open services use {
    F, zero_f, leq, percent_of, post, enabled_configs, insert_webhook, set_status, set_retry,
  }

  pub check_configs-failed :
      (before later : List AlertingConfig) (c : AlertingConfig) {deeds : List (Deed F)}
      {e : AlertingError}
      → (check_configs services before).1 ≡ ok tt
      → check_config services c ≡ (deeds, err e)
      → check_configs services (before ++ (c ∷ later))
        ≡ ((check_configs services before).0 ++ deeds, err e)
  unfolding check_configs
  check_configs-failed [] later c h failed = >>-err (check_config services c) _ failed
  check_configs-failed (d ∷ before) later c {deeds} h failed =
      let (fine, rest) = >>-eq-ok (check_config services d) (check_configs services before) h in
      >>-ok (check_config services d) _ fine
      ∙ rw (
        check_configs-failed before later c rest failed,
        >>-ok (check_config services d) (check_configs services before) fine,
        append_assoc (check_config services d).0 (check_configs services before).0 deeds,
      )

  module _ (status_works : (id : ℕ) (s : String) (n : ℕ) → set_status id s n ≡ ok tt)
      (retry_works : (id n : ℕ) → set_retry id n ≡ ok tt) where
    -- What is done for a webhook that no attempt reaches.
    abbrev pub in_vain : ℕ → String → BudgetAlertPayload F → List (Deed F)
    in_vain id url payload =
        recorded payload.event_type url payload "pending"
        ∷ (tries services status_works retry_works id url payload 5
            ++ last_try services status_works retry_works id url payload 5 false)

    is_last : (n : ℕ) {d : Bool} → ((d ≡ true) ⊎ (n ≡ 5)) → d ≡ false → n ≡ 5
    is_last n (inl h) h' = cc
    is_last n (inr h) h' = h

    ends_in_vain :
        (url : String) (payload : BudgetAlertPayload F) (id : ℕ)
        → insert_webhook payload.event_type url payload "pending" ≡ ok id
        → ((k : ℕ) → k ≤ 5 → delivered services (post url payload k) ≡ false)
        → send_webhook services payload.event_type url payload
          ≡ (in_vain id url payload, err (webhook_failed "Max retries exceeded"))
    ends_in_vain url payload id inserted refused =
        let (n, within, before, last, eq) =
          send_webhook-EndsWith services status_works retry_works id url payload payload.event_type
            inserted in
        eq ∙ rw (refused n within, is_last n last (refused n within))

    alert_in_vain :
        (c : AlertingConfig) (current_spend budget : F) (id : ℕ)
        → get_current_spend services c ≡ ok current_spend
        → get_budget services c ≡ ok budget
        → leq budget zero_f ≡ false
        → leq (percent_of c.budget_threshold_percent budget) current_spend ≡ true
        → insert_webhook
            (event_of services current_spend budget)
            c.webhook_url
            (payload_of services c current_spend budget)
            "pending"
          ≡ ok id
        → ((k : ℕ)
            → k ≤ 5
            → delivered services (post c.webhook_url (payload_of services c current_spend budget) k)
              ≡ false)
        → check_config services c ≡ (
          in_vain id c.webhook_url (payload_of services c current_spend budget),
          err (webhook_failed "Max retries exceeded"),
        )
    unfolding check_config
    alert_in_vain c current_spend budget id spent limit limited reached inserted refused =
        rw (spent, limit, limited, reached)
          (ends_in_vain c.webhook_url (payload_of services c current_spend budget) id inserted
            refused)

    -- A webhook that no attempt reaches ends the check of the budgets: of the configurations before it
    -- everything is done, of those after it nothing, whichever they are.
    pub unreachable_webhook_ends_check :
        (before later : List AlertingConfig) (c : AlertingConfig) (current_spend budget : F)
        (id : ℕ)
        → enabled_configs ≡ ok (before ++ (c ∷ later))
        → (check_configs services before).1 ≡ ok tt
        → get_current_spend services c ≡ ok current_spend
        → get_budget services c ≡ ok budget
        → leq budget zero_f ≡ false
        → leq (percent_of c.budget_threshold_percent budget) current_spend ≡ true
        → insert_webhook
            (event_of services current_spend budget)
            c.webhook_url
            (payload_of services c current_spend budget)
            "pending"
          ≡ ok id
        → ((k : ℕ)
            → k ≤ 5
            → delivered services (post c.webhook_url (payload_of services c current_spend budget) k)
              ≡ false)
        → check_budgets services ≡ (
          (check_configs services before).0
              ++ in_vain id c.webhook_url (payload_of services c current_spend budget),
          err (webhook_failed "Max retries exceeded"),
        )
    unfolding check_budgets
    unreachable_webhook_ends_check before later c current_spend budget id listed fine spent limit
          limited reached inserted refused =
        rw listed (
          check_configs-failed before later c fine
            (alert_in_vain c current_spend budget id spent limit limited reached inserted refused))
