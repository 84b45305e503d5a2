-- ===== src/Resilience/LoadBalancer.antt =====
-- `LoadBalancer` of crates/godwit-api/src/load_balancer.rs.
--
-- The states of the models are a map, and an `Arc` of a state is shared with the map. The 64-bit
-- floats of the latencies are a parameter. `fetch_add` and `fetch_sub` wrap.
pub mod Choice
pub mod Latency
pub mod RoundRobin
pub mod InFlight
pub mod Selection
mod Tests
use godwit.Base.{
  ℕ, zero, suc, ◌+◌, ◌%◌, Bool, true, false, Option, none, some, List, [], ◌∷◌, nat_key, nat_beq,
  ltb, length, if◌then◌else◌, ◌≡◌, ap, ◌∙◌, arith,
}
use godwit.Base.Dict
use godwit.Base.Dict.{Dict, get-insert}
use godwit.Resilience.CircuitBreaker.{usize_mod, fetch_add, fetch_sub}

-- What the code uses of `f64`.
pub record Float64 : Type 1 where
  pub F : Type 0
  pub zero_f : F
  pub one_f : F
  pub infinity : F
  pub two_tenths : F
  pub add : F → F → F
  pub sub : F → F → F
  pub mul : F → F → F
  pub lt : F → F → Bool
  pub to_bits : F → ℕ

pub data LoadBalanceStrategy : Type 0 where
  round_robin least_busy latency : LoadBalanceStrategy

pub record LoadBalancerState (F : Type 0) : Type 0 where
  pub rr_index : ℕ
  pub in_flight : ℕ
  pub latency_ewma : F

-- `usize::MAX`
abbrev pub usize_max : ℕ
usize_max = 18_446_744_073_709_551_615

module _ (fl : Float64) where
  abbrev pub State : Type 0
  State = LoadBalancerState fl.F

  abbrev pub States : Type 0
  States = Dict ℕ State

  unfoldable pub new_state : State
  new_state = record { rr_index = 0; in_flight = 0; latency_ewma = fl.zero_f }

  abbrev pub or_new : Option State → State
  or_new (some s) = s
  or_new none = new_state

  -- `entry(model_id).or_insert_with(..)`
  unfoldable pub get_state : States → ℕ → States × State
  get_state m model_id = let s = or_new (Dict.get model_id m) in (Dict.insert model_id s m, s)

  -- The exponentially weighted mean; bits of 0 mean that there is no value yet.
  pub update_ewma : State → fl.F → State
  update_ewma s duration_ms =
      let alpha = fl.two_tenths in
      let old = s.latency_ewma in
      record s {
        latency_ewma =
            if nat_beq (fl.to_bits old) 0
            then duration_ms
            else fl.add (fl.mul alpha duration_ms) (fl.mul (fl.sub fl.one_f alpha) old);
      }

  -- The loop of `LeastBusy` and of `Latency`: `i` counts the models, `min_idx` and `least` hold the
  -- best so far.
  pub select_least :
      {A : Type 0} → (State → A) → (A → A → Bool) → States → List ℕ → ℕ → ℕ → A → States × ℕ
  unfolding get_state
  select_least value lt m [] i min_idx least = (m, min_idx)
  select_least value lt m (id ∷ ids) i min_idx least =
      let (m', s) = get_state m id in
      let better = lt (value s) least in
      select_least value lt m' ids (suc i) (if better then i else min_idx)
        (if better then value s else least)

  -- `select_provider` on a list that is not empty: its first model, and all of them.
  abbrev pub select_from : LoadBalanceStrategy → States → ℕ → List ℕ → States × ℕ
  select_from round_robin m first ids =
      let (m', s) = get_state m first in
      (Dict.insert first (record s { rr_index = fetch_add s.rr_index }) m', s.rr_index % length ids)
  select_from least_busy m first ids = select_least (λ s. s.in_flight) ltb m ids 0 0 usize_max
  select_from latency m first ids = select_least (λ s. s.latency_ewma) fl.lt m ids 0 0 fl.infinity

  unfoldable pub select_provider : States → LoadBalanceStrategy → List ℕ → States × Option ℕ
  unfolding select_least get_state
  select_provider m strategy [] = (m, none)
  select_provider m strategy (id ∷ ids) =
      let (m', idx) = select_from strategy m id (id ∷ ids) in (m', some idx)

  -- The guard that `increment_in_flight` returns is the id of its model.
  unfoldable pub increment_in_flight : States → ℕ → States
  unfolding get_state
  increment_in_flight m model_id =
      let (m', s) = get_state m model_id in
      Dict.insert model_id (record s { in_flight = fetch_add s.in_flight }) m'

  -- `InFlightGuard::drop`; the state of a guard is in the map.
  pub drop_guard : States → ℕ → States
  drop_guard m model_id =
      let s = or_new (Dict.get model_id m) in
      Dict.insert model_id (record s { in_flight = fetch_sub s.in_flight }) m

  unfoldable pub record_latency : States → ℕ → fl.F → States
  unfolding get_state update_ewma
  record_latency m model_id duration_ms =
      let (m', s) = get_state m model_id in Dict.insert model_id (update_ewma s duration_ms) m'

  -- The state of a model, made or not.
  abbrev pub state_of : States → ℕ → State
  state_of m model_id = or_new (Dict.get model_id m)

  pub state_of-get_state : (m : States) (id j : ℕ) → state_of (get_state m id).0 j ≡ state_of m j
  unfolding get_state
  state_of-get_state m id j =
      ap or_new (get-insert id j (state_of m id) m) ∙ ground (arith, nat_key.same_iff id j)
