-- ===== src/Resilience/LoadBalancer/Latency.antt =====
-- The choice of `Latency`, for any floats whose order is as documented.
use mathlib.Core.Path.{subst}
use godwit.Base.{
  ℕ, suc, ◌+◌, ◌≡◌, ◌⊎◌, inl, inr, refl, sym, ap, true, false, Bool-cases, some, List, [], ◌∷◌, map,
  get_elem?, All, arith,
}
use godwit.Resilience.LoadBalancer.{Float64, latency, States, select_provider, state_of}
use godwit.Resilience.LoadBalancer.Choice.{arg_min, select_least-arg_min}

-- What is used of the order of floats, which holds of NaN too: no value is below itself, the order
-- is transitive, and what is below any value is below infinity.
pub record IsFloatOrder (fl : Float64) : Type 0 where
  pub irreflexive : (x : fl.F) → fl.lt x x ≡ false
  pub transitive : (x y z : fl.F) → fl.lt x y ≡ true → fl.lt y z ≡ true → fl.lt x z ≡ true
  pub bounded : (x y : fl.F) → fl.lt x y ≡ true → fl.lt x fl.infinity ≡ true

module _ (fl : Float64) where
  abbrev pub NoneBelow : fl.F → List fl.F → Type 0
  NoneBelow y = All (λ v. fl.lt v y ≡ false)

  -- The chosen place holds a latency that no latency is below.
  pub record IsLeast (vs : List fl.F) (r : ℕ) : Type 0 where
    pub value : fl.F
    pub found : get_elem? vs r ≡ some value
    pub least : NoneBelow value vs

module _ (fl : Float64) (order : IsFloatOrder fl) where
  -- If nothing is below `x`, and what is below `y` is below `x`, then nothing is below `y`.
  NoneBelow-mono :
      (x y : fl.F) (vs : List fl.F)
      → ((v : fl.F) → fl.lt v y ≡ true → fl.lt v x ≡ true)
      → NoneBelow fl x vs
      → NoneBelow fl y vs
  NoneBelow-mono x y [] h p = tt
  NoneBelow-mono x y (v ∷ vs) h p = (
    elim (Bool-cases (fl.lt v y)) [ inl t ↦ cc (h v t, p.0) | inr f ↦ f ],
    NoneBelow-mono x y vs h p.1,
  )

  not_below : (x y : fl.F) → fl.lt x y ≡ true → fl.lt y x ≡ false
  not_below x y h = elim (Bool-cases (fl.lt y x)) [
    | inl t ↦ cc (order.transitive x y x h t, order.irreflexive x)
    | inr f ↦ f
  ]

  Improved : List fl.F → ℕ → fl.F → ℕ → Type 0
  Improved vs i least r =
      (k : ℕ) × (y : fl.F) × (r ≡ i + k)
      × (get_elem? vs k ≡ some y)
      × (fl.lt y least ≡ true)
      × NoneBelow fl y vs

  arg_min_least :
      (vs : List fl.F) (i min_idx : ℕ) (least : fl.F)
      → ((arg_min fl.lt vs i min_idx least ≡ min_idx) × NoneBelow fl least vs)
        ⊎ Improved vs i least (arg_min fl.lt vs i min_idx least)
  unfolding arg_min Improved
  arg_min_least [] i min_idx least = inl (refl, tt)
  arg_min_least (v ∷ vs) i min_idx least = elim (Bool-cases (fl.lt v least)) [
    | inl better ↦ rw better (elim (arg_min_least vs (suc i) i v) [
      | inl (same, none_below) ↦
          inr (0, v, omega arith, refl, better, (order.irreflexive v, none_below))
      | inr (k, y, e, found, below, none_below) ↦ inr (
        suc k,
        y,
        omega arith,
        found,
        order.transitive y v least below better,
        (not_below y v below, none_below),
      )
    ])
    | inr worse ↦ rw worse (elim (arg_min_least vs (suc i) min_idx least) [
      | inl (same, none_below) ↦ inl (same, (refl, none_below))
      | inr (k, y, e, found, below, none_below) ↦ inr (
        suc k,
        y,
        omega arith,
        found,
        below,
        (
          elim (Bool-cases (fl.lt v y)) [
            | inl t ↦ cc (order.transitive v y least t below, worse)
            | inr f ↦ f
          ],
          none_below,
        ),
      )
    ])
  ]

  arg_min-IsLeast :
      (v : fl.F) (vs : List fl.F) → IsLeast fl (v ∷ vs) (arg_min fl.lt (v ∷ vs) 0 0 fl.infinity)
  unfolding Improved
  arg_min-IsLeast v vs = elim (arg_min_least (v ∷ vs) 0 0 fl.infinity) [
    | inl (same, none_below) ↦ subst (IsLeast fl (v ∷ vs)) (sym same) (record {
      value = v;
      found = refl;
      least = NoneBelow-mono fl.infinity v (v ∷ vs) (λ u t. order.bounded u v t) none_below;
    })
    | inr (k, y, e, found, below, none_below) ↦
        let same : k ≡ arg_min fl.lt (v ∷ vs) 0 0 fl.infinity = omega arith in
        subst (IsLeast fl (v ∷ vs)) same (record { value = y; found = found; least = none_below })
  ]

  -- `Latency` picks a model whose mean latency no other mean is below, for any floats whose order is
  -- irreflexive, transitive and bounded by infinity.
  pub latency-IsLeast :
      (m : States fl) (id : ℕ) (ids : List ℕ)
      → (r : ℕ) × ((select_provider fl m latency (id ∷ ids)).1 ≡ some r)
        × IsLeast fl (map (λ j. (state_of fl m j).latency_ewma) (id ∷ ids)) r
  unfolding select_provider
  latency-IsLeast m id ids = (
    arg_min fl.lt (map (λ j. (state_of fl m j).latency_ewma) (id ∷ ids)) 0 0 fl.infinity,
    ap some (select_least-arg_min fl (λ s. s.latency_ewma) fl.lt m (id ∷ ids) 0 0 fl.infinity),
    arg_min-IsLeast (state_of fl m id).latency_ewma (map (λ j. (state_of fl m j).latency_ewma) ids),
  )
