-- ===== src/Resilience/LoadBalancer/Selection.antt =====
-- What every strategy keeps: a choice is one of the models, and no request begins or ends by it.
use godwit.Base.{
  ℕ, suc, ◌+◌, ◌%◌, ◌<◌, ◌≤◌, ◌≡◌, refl, ap, ◌∙◌, Bool, true, false, some, List, [], ◌∷◌, length,
  arith, nat_key, ◌==◌, ltb, if◌then◌else◌,
}
use godwit.Base.Dict
use godwit.Base.Dict.{get-insert, get-insert_twice}
use godwit.Resilience.CircuitBreaker.{fetch_add}
use godwit.Resilience.LoadBalancer.InFlight.{in_flight-if}
use godwit.Resilience.LoadBalancer.{
  Float64, State, States, LoadBalanceStrategy, round_robin, least_busy, latency, or_new, state_of,
  state_of-get_state, get_state, select_least, select_from, select_provider, usize_max,
}

module _ (fl : Float64) where
  -- The requests in flight of a model.
  abbrev pub flight : States fl → ℕ → ℕ
  flight m id = (state_of fl m id).in_flight

  select_least-flight :
      {A : Type 0} (value : State fl → A) (lt : A → A → Bool) (m : States fl) (ids : List ℕ)
      (i min_idx : ℕ) (least : A) (j : ℕ)
      → flight (select_least fl value lt m ids i min_idx least).0 j ≡ flight m j
  unfolding select_least
  select_least-flight value lt m [] i min_idx least j = refl
  select_least-flight value lt m (id ∷ ids) i min_idx least j =
      select_least-flight value lt (get_state fl m id).0 ids (suc i) _ _ j
      ∙ ap (λ s. s.in_flight) (state_of-get_state fl m id j)

  either : (b : Bool) (x y n : ℕ) → x < n → y < n → (if b then y else x) < n
  either true x y n h k = k
  either false x y n h k = h

  mod_below : (x n : ℕ) → x % suc n < suc n
  mod_below x n = grind arith

  select_least-lt :
      {A : Type 0} (value : State fl → A) (lt : A → A → Bool) (m : States fl) (ids : List ℕ)
      (i min_idx n : ℕ) (least : A)
      → min_idx < n
      → i + length ids ≤ n
      → (select_least fl value lt m ids i min_idx least).1 < n
  unfolding select_least
  select_least-lt value lt m [] i min_idx n least h k = h
  select_least-lt value lt m (id ∷ ids) i min_idx n least h k =
      select_least-lt value lt (get_state fl m id).0 ids (suc i) _ n _
        (either (lt (value (get_state fl m id).1) least) min_idx i n h (omega arith)) (omega arith)

  same_flight :
      (m : States fl) (first j : ℕ)
      → (if first == j then flight m first else flight m j) ≡ flight m j
  same_flight m first j = ground (arith, nat_key.same_iff first j)

  round_robin-flight :
      (m : States fl) (first : ℕ) (ids : List ℕ) (j : ℕ)
      → flight (select_from fl round_robin m first ids).0 j ≡ flight m j
  unfolding get_state
  round_robin-flight m first ids j =
      let s = state_of fl m first in
      let s' = record s { rr_index = fetch_add s.rr_index } in
      ap (λ o. (or_new fl o).in_flight) (get-insert_twice first j s s' m)
      ∙ in_flight-if fl (first == j) s' (Dict.get j m)
      ∙ same_flight m first j

  pub select_provider-flight :
      (m : States fl) (strategy : LoadBalanceStrategy) (ids : List ℕ) (j : ℕ)
      → flight (select_provider fl m strategy ids).0 j ≡ flight m j
  unfolding select_provider
  select_provider-flight m strategy [] j = refl
  select_provider-flight m round_robin (id ∷ ids) j = round_robin-flight m id (id ∷ ids) j
  select_provider-flight m least_busy (id ∷ ids) j =
      select_least-flight (λ s. s.in_flight) ltb m (id ∷ ids) 0 0 usize_max j
  select_provider-flight m latency (id ∷ ids) j =
      select_least-flight (λ s. s.latency_ewma) fl.lt m (id ∷ ids) 0 0 fl.infinity j

  pub select_provider-lt :
      (m : States fl) (strategy : LoadBalanceStrategy) (id : ℕ) (ids : List ℕ)
      → (i : ℕ) × ((select_provider fl m strategy (id ∷ ids)).1 ≡ some i) × (i < length (id ∷ ids))
  unfolding select_provider
  select_provider-lt m round_robin id ids = (_, refl, mod_below _ (length ids))
  select_provider-lt m least_busy id ids = (
    _,
    refl,
    select_least-lt (λ s. s.in_flight) ltb m (id ∷ ids) 0 0 (length (id ∷ ids)) usize_max
        (omega arith) (omega arith),
  )
  select_provider-lt m latency id ids = (
    _,
    refl,
    select_least-lt (λ s. s.latency_ewma) fl.lt m (id ∷ ids) 0 0 (length (id ∷ ids)) fl.infinity
        (omega arith) (omega arith),
  )
