-- ===== src/Resilience/LoadBalancer/InFlight.antt =====
-- The counters of requests in flight against the guards that are alive.
use godwit.Base.{
  ℕ, ◌+◌, ◌%◌, ◌<◌, ◌≡◌, refl, ap, ◌∙◌, Bool, true, false, Option, some, List, [], ◌∷◌, arith,
  nat_key, ◌==◌, if◌then◌else◌,
}
use godwit.Base.Dict
use godwit.Base.Dict.{get-insert, get-insert_twice}
use godwit.Resilience.CircuitBreaker.{usize_mod, fetch_add, fetch_sub}
use godwit.Resilience.LoadBalancer.{
  Float64, State, States, or_new, new_state, state_of, increment_in_flight, drop_guard,
}

-- The guards of a model among the guards alive.
unfoldable pub count : ℕ → List ℕ → ℕ
count id [] = 0
count id (g ∷ gs) = (if g == id then 1 else 0) + count id gs

-- The guards without the first of a model.
pub erase : ℕ → List ℕ → List ℕ
erase id [] = []
erase id (g ∷ gs) = let rest = erase id gs in if g == id then gs else g ∷ rest

count-erase :
    (id j : ℕ) (gs : List ℕ)
    → 0 < count id gs
    → count j (erase id gs) + (if id == j then 1 else 0) ≡ count j gs
unfolding count erase
count-erase id j [] h = omega (arith, h)
count-erase id j (g ∷ gs) h = ground (arith, count-erase id j gs)

module _ (fl : Float64) where
  -- The balancer and the guards alive: a request begins, or the guard of one is dropped.
  pub data Step : States fl × List ℕ → States fl × List ℕ → Type 0 where
    begin :
        (m : States fl) (gs : List ℕ) (id : ℕ) → Step (m, gs) (increment_in_flight fl m id, id ∷ gs)
    finish :
        (m : States fl) (gs : List ℕ) (id : ℕ)
        → 0 < count id gs
        → Step (m, gs) (drop_guard fl m id, erase id gs)

  pub data Steps (s : States fl × List ℕ) : States fl × List ℕ → Type 0 where
    here : Steps s s
    next : {t u : States fl × List ℕ} → Steps s t → Step t u → Steps s u

  pub record IsCounted (s : States fl × List ℕ) : Type 0 where
    pub counted : (id : ℕ) → (state_of fl s.0 id).in_flight ≡ count id s.1 % usize_mod

  pub in_flight-if :
      (b : Bool) (s : State fl) (o : Option (State fl))
      → (or_new fl (if b then some s else o)).in_flight
        ≡ (if b then s.in_flight else (or_new fl o).in_flight)
  in_flight-if true s o = refl
  in_flight-if false s o = refl

  pub in_flight-increment :
      (m : States fl) (id j : ℕ)
      → (state_of fl (increment_in_flight fl m id) j).in_flight
        ≡ (if id == j then fetch_add (state_of fl m id).in_flight else (state_of fl m j).in_flight)
  unfolding increment_in_flight
  in_flight-increment m id j =
      let s = state_of fl m id in
      let s' = record s { in_flight = fetch_add s.in_flight } in
      ap (λ o. (or_new fl o).in_flight) (get-insert_twice id j s s' m)
      ∙ in_flight-if (id == j) s' (Dict.get j m)

  pub in_flight-drop :
      (m : States fl) (id j : ℕ)
      → (state_of fl (drop_guard fl m id) j).in_flight
        ≡ (if id == j then fetch_sub (state_of fl m id).in_flight else (state_of fl m j).in_flight)
  unfolding drop_guard
  in_flight-drop m id j =
      let s = state_of fl m id in
      let s' = record s { in_flight = fetch_sub s.in_flight } in
      ap (λ o. (or_new fl o).in_flight) (get-insert id j s' m)
      ∙ in_flight-if (id == j) s' (Dict.get j m)

  Step-IsCounted : {s t : States fl × List ℕ} → Step s t → IsCounted s → IsCounted t
  unfolding count
  Step-IsCounted (begin m gs id) c = record {
    counted = λ j.
        ground
          (arith, in_flight-increment m id j, c.counted id, c.counted j, nat_key.same_iff id j);
  }
  Step-IsCounted (finish m gs id live) c = record {
    counted = λ j. ground (
      arith,
      in_flight-drop m id j,
      c.counted id,
      c.counted j,
      nat_key.same_iff id j,
      count-erase id j gs live,
    );
  }

  Steps-IsCounted : {s t : States fl × List ℕ} → Steps s t → IsCounted s → IsCounted t
  Steps-IsCounted here c = c
  Steps-IsCounted (next run step) c = Step-IsCounted step (Steps-IsCounted run c)

  start-IsCounted : IsCounted (Dict.empty, [])
  unfolding Dict.get new_state count
  start-IsCounted = record { counted = λ id. refl }

  -- From an empty balancer, the counter of every model is the number of its guards alive, as a
  -- 64-bit number.
  pub in_flight_counts_guards :
      {m : States fl} {gs : List ℕ}
      → Steps (Dict.empty, []) (m, gs)
      → (id : ℕ) → (state_of fl m id).in_flight ≡ count id gs % usize_mod
  in_flight_counts_guards run id = (Steps-IsCounted run start-IsCounted).counted id
