-- ===== src/Resilience/LoadBalancer/Tests.antt =====
-- The tests of load_balancer.rs, with natural numbers for floats, and instances of the theorems.
use godwit.Base.{ℕ, ◌+◌, ◌-◌, ◌*◌, ◌%◌, ◌<◌, ◌≡◌, refl, some, [], ◌∷◌, ltb, ◌&&◌, arith, nat_key}
use godwit.Base.Dict
use godwit.Resilience.CircuitBreaker.{usize_mod}
use godwit.Resilience.LoadBalancer.{Float64, States, state_of, increment_in_flight, drop_guard}
use godwit.Resilience.LoadBalancer.Latency.{IsFloatOrder}
use godwit.Resilience.LoadBalancer.RoundRobin.{select_after, counter, round_robin_fair}
use godwit.Resilience.LoadBalancer.InFlight.{
  count, erase, Steps, here, next, begin, finish, in_flight_counts_guards,
}

-- Numbers up to a bound in place of floats.
abbrev fl : Float64
fl = record {
  F = ℕ;
  zero_f = 0;
  one_f = 1;
  infinity = 1_000_000;
  two_tenths = 0;
  add = λ x y. x + y;
  sub = λ x y. x - y;
  mul = λ x y. x * y;
  lt = λ x y. ltb x y && ltb x 1_000_000;
  to_bits = λ x. x;
}

fl-IsFloatOrder : IsFloatOrder fl
fl-IsFloatOrder = record {
  irreflexive = λ x. ground arith;
  transitive = λ x y z h k. ground arith;
  bounded = λ x y h. ground arith;
}

-- Model 7 has one request in flight and a mean of 20, model 8 none and one of 90.
abbrev busy : States fl
busy =
    (7, record { rr_index = 5; in_flight = 1; latency_ewma = 20 })
    ∷ (8, record { rr_index = 0; in_flight = 0; latency_ewma = 90 })
    ∷ []

counter-busy : counter fl busy 7 ≡ 5
unfolding Dict.get
counter-busy = refl

round_robin_fair_example : (k : ℕ) × (k < 2) × (select_after fl k busy (7 ∷ 8 ∷ []) ≡ some 1)
round_robin_fair_example =
    round_robin_fair fl busy 7 (8 ∷ []) 1 (omega arith) (omega (arith, counter-busy))

one_alive : 0 < count 7 (7 ∷ 7 ∷ [])
unfolding count
one_alive = omega arith

-- Two requests of model 7 begin, and one ends.
run :
    Steps fl
      (Dict.empty, [])
      (
        drop_guard fl (increment_in_flight fl (increment_in_flight fl Dict.empty 7) 7) 7,
        erase 7 (7 ∷ 7 ∷ []),
      )
run =
    next (next (next here (begin Dict.empty [] 7)) (begin _ (7 ∷ []) 7))
      (finish _ (7 ∷ 7 ∷ []) 7 one_alive)

in_flight_counts_guards_example :
    (state_of fl
      (drop_guard fl (increment_in_flight fl (increment_in_flight fl Dict.empty 7) 7) 7)
      7).in_flight
    ≡ count 7 (erase 7 (7 ∷ 7 ∷ [])) % usize_mod
in_flight_counts_guards_example = in_flight_counts_guards fl run 7
