-- ===== src/Core/Alerting/Delivery.antt =====
-- How the delivery of a webhook ends, and what it has done by then.
use godwit.Base.{
  ℕ, zero, suc, ◌+◌, ◌≤◌, ◌<◌, Bool, true, false, String, List, [], ◌∷◌, ◌++◌, Result, ok, err, ◌≡◌,
  ◌⊎◌, inl, inr, refl, if◌then◌else◌, arith, append_assoc, sym, ◌∙◌, ap,
}
use native.Mathlib.Numerals.{add-one}
use native.Mathlib.Decide.{ℕ_discrete}
use godwit.Core.Alerting.{
  AlertingError, webhook_failed, BudgetAlertPayload, Deed, recorded, posted, slept, status_set,
  retry_set, Services, delay, delivered, deliver_from, send_webhook,
}

module _ (services : Services)
    (status_works : (id : ℕ) (s : String) (n : ℕ) → services.set_status id s n ≡ ok tt)
    (retry_works : (id n : ℕ) → services.set_retry id n ≡ ok tt) (id : ℕ) (url : String)
    (payload : BudgetAlertPayload services.F) where
  open services use {F, post}

  abbrev delivered_at : ℕ → Bool
  delivered_at n = delivered services (post url payload n)

  -- What is done for the attempts before one.
  abbrev pub tries : ℕ → List (Deed F)
  tries zero = []
  tries (suc n) = tries n ++ (posted url payload ∷ slept (delay n) ∷ retry_set id (suc n) ∷ [])

  abbrev pub last_try : ℕ → Bool → List (Deed F)
  last_try n d = posted url payload ∷ status_set id (if d then "success" else "failed") n ∷ []

  abbrev pub verdict : Bool → Result AlertingError (Unit {0})
  verdict true = ok tt
  verdict false = err (webhook_failed "Max retries exceeded")

  -- The attempt `n`, from `first` on, that ends a delivery.
  pub record EndsWith (first left n : ℕ) (r : List (Deed F) × Result AlertingError (Unit {0}))
      : Type 0 where
    pub within : n ≤ first + left
    pub failed_before : (k : ℕ) → first ≤ k → k < n → delivered_at k ≡ false
    pub last : (delivered_at n ≡ true) ⊎ (n ≡ first + left)
    pub done : tries first ++ r.0 ≡ tries n ++ last_try n (delivered_at n)
    pub result : r.1 ≡ verdict (delivered_at n)

  from_first :
      (first n : ℕ)
      → delivered_at first ≡ false
      → ((k : ℕ) → suc first ≤ k → k < n → delivered_at k ≡ false)
      → (k : ℕ) → first ≤ k
      → k < n
      → delivered_at k ≡ false
  from_first first n e later k h h' = elim (ℕ_discrete k first) [
    | yes eq ↦ ap delivered_at eq ∙ e
    | no ne ↦ later k (omega arith) h'
  ]

  last_later :
      (first left n : ℕ)
      → (delivered_at n ≡ true) ⊎ (n ≡ suc first + left)
      → (delivered_at n ≡ true) ⊎ (n ≡ first + suc left)
  last_later first left n (inl h) = inl h
  last_later first left n (inr h) = inr (omega arith)

  deliver_from-EndsWith :
      (first left : ℕ) (b : Bool)
      → delivered_at first ≡ b
      → (n : ℕ) × EndsWith first left n (deliver_from services id url payload first left)
  unfolding deliver_from
  deliver_from-EndsWith first zero true e = (
    first,
    record {
      within = omega arith;
      failed_before = λ k h h'. absurd (omega arith);
      last = inl e;
      done = rw e;
      result = rw (e, status_works id "success" first);
    },
  )
  deliver_from-EndsWith first zero false e = (
    first,
    record {
      within = omega arith;
      failed_before = λ k h h'. absurd (omega arith);
      last = inr (omega arith);
      done = rw (e, status_works id "failed" first);
      result = rw (e, status_works id "failed" first);
    },
  )
  deliver_from-EndsWith first (suc left) true e = (
    first,
    record {
      within = omega arith;
      failed_before = λ k h h'. absurd (omega arith);
      last = inl e;
      done = rw e;
      result = rw (e, status_works id "success" first);
    },
  )
  deliver_from-EndsWith first (suc left) false e =
      let (n, r) = deliver_from-EndsWith (suc first) left (delivered_at (suc first)) refl in
      (
        n,
        record {
          within = (let h = r.within in omega arith);
          failed_before = from_first first n e r.failed_before;
          last = last_later first left n r.last;
          done =
              rw (e, add-one, retry_works id (suc first))
                (sym (append_assoc (tries first) _ _) ∙ r.done);
          result = rw (e, add-one, retry_works id (suc first)) r.result;
        },
      )

  send_webhook-inserted :
      (event_type : String)
      → services.insert_webhook event_type url payload "pending" ≡ ok id
      → send_webhook services event_type url payload ≡ (
          let (deeds, r) = deliver_from services id url payload 0 5 in
          (recorded event_type url payload "pending" ∷ deeds, r))
  unfolding send_webhook
  send_webhook-inserted event_type inserted = rw inserted

  -- Once its row is written, a webhook is posted until an attempt succeeds, six times at most, with the
  -- pauses between; the row then says success or failure, with the number of repetitions; and the answer
  -- is a failure if no attempt succeeded. The updates of the row work.
  pub send_webhook-EndsWith :
      (event_type : String)
      → services.insert_webhook event_type url payload "pending" ≡ ok id
      → (n : ℕ) × (n ≤ 5)
        × ((k : ℕ) → k < n → delivered_at k ≡ false)
        × ((delivered_at n ≡ true) ⊎ (n ≡ 5))
        × (send_webhook services event_type url payload ≡ (
          recorded event_type url payload "pending" ∷ (tries n ++ last_try n (delivered_at n)),
          verdict (delivered_at n),
        ))
  send_webhook-EndsWith event_type inserted =
      let (n, r) = deliver_from-EndsWith 0 5 (delivered_at 0) refl in
      (
        n,
        r.within,
        (λ k h. r.failed_before k (omega arith) h),
        r.last,
        send_webhook-inserted event_type inserted
            ∙ (λ i. (recorded event_type url payload "pending" ∷ r.done i, r.result i)),
      )
