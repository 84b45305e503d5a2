-- ===== src/Resilience/LoadBalancer/RoundRobin.antt =====
-- Consecutive choices of `RoundRobin`.
use native.Mathlib.Nat.{mod-eq_of_lt, mod-lt, mod-add-mod, add-mod_right}
use godwit.Base.{
  ℕ, zero, suc, ◌+◌, ◌-◌, ◌%◌, ◌≤◌, ◌<◌, ◌≡◌, ◌⊎◌, inl, inr, sym, ap, ◌∙◌, Option, some, List, ◌∷◌,
  length, arith, nat_key,
}
use godwit.Base.Dict.{get-insert}
use godwit.Resilience.CircuitBreaker.{usize_mod, fetch_add}
use godwit.Resilience.LoadBalancer.{
  Float64, States, round_robin, select_provider, get_state, or_new, state_of,
}

le-or_gt : (a b : ℕ) → (a ≤ b) ⊎ (b < a)
le-or_gt a b = ground arith

-- Some `k` below `n` takes `c` to `i`, modulo `n`.
mod-reaches : (c n i : ℕ) → i < n → (k : ℕ) × (k < n) × ((c + k) % n ≡ i)
mod-reaches c n i h =
    let r = c % n in
    let r_lt : r < n = mod-lt c (omega (arith, h)) in
    elim (le-or_gt r i) [
      | inl le ↦ (
        i - r,
        omega (arith, h),
        sym (mod-add-mod c n (i - r)) ∙ ap (λ x. x % n) (omega arith) ∙ mod-eq_of_lt h,
      )
      | inr gt ↦ (
        i + n - r,
        omega arith,
        sym (mod-add-mod c n (i + n - r))
            ∙ ap (λ x. x % n) (omega arith)
            ∙ add-mod_right i n
            ∙ mod-eq_of_lt h,
      )
    ]

module _ (fl : Float64) where
  -- The answer of the call after `k` calls before it.
  pub select_after : ℕ → States fl → List ℕ → Option ℕ
  select_after zero m ids = (select_provider fl m round_robin ids).1
  select_after (suc k) m ids = select_after k (select_provider fl m round_robin ids).0 ids

  -- The counter of the first model, which all choices among the models go by.
  abbrev pub counter : States fl → ℕ → ℕ
  counter m first = (state_of fl m first).rr_index

  counter-select :
      (m : States fl) (first : ℕ) (ids : List ℕ)
      → counter (select_provider fl m round_robin (first ∷ ids)).0 first
        ≡ fetch_add (counter m first)
  unfolding select_provider
  counter-select m first ids =
      ap (λ o. (or_new fl o).rr_index)
        (get-insert first first
          (record (state_of fl m first) { rr_index = fetch_add (counter m first) })
          (get_state fl m first).0)
      ∙ ground (arith, nat_key.same_iff first first)

  -- The call after `k` others picks the model k places on, cyclically, while the counter does not
  -- wrap around.
  pub round_robin_cycles :
      (k : ℕ) (m : States fl) (first : ℕ) (ids : List ℕ)
      → counter m first + k < usize_mod
      → select_after k m (first ∷ ids) ≡ some ((counter m first + k) % length (first ∷ ids))
  unfolding select_after select_provider
  round_robin_cycles zero m first ids h = ap (λ x. some (x % length (first ∷ ids))) (omega arith)
  round_robin_cycles (suc k) m first ids h =
      round_robin_cycles k (select_provider fl m round_robin (first ∷ ids)).0 first ids
        (omega (arith, counter-select m first ids))
      ∙ ap (λ x. some (x % length (first ∷ ids))) (omega (arith, counter-select m first ids))

  -- Of as many consecutive calls as there are models, one picks each of them, while the counter does
  -- not wrap around.
  pub round_robin_fair :
      (m : States fl) (first : ℕ) (ids : List ℕ) (i : ℕ)
      → i < length (first ∷ ids)
      → counter m first + length (first ∷ ids) ≤ usize_mod
      → (k : ℕ) × (k < length (first ∷ ids)) × (select_after k m (first ∷ ids) ≡ some i)
  round_robin_fair m first ids i h b =
      let (k, k_lt, k_mod) = mod-reaches (counter m first) (length (first ∷ ids)) i h in
      (k, k_lt, round_robin_cycles k m first ids (omega (arith, b, k_lt)) ∙ ap some k_mod)
