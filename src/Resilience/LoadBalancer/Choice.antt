-- ===== src/Resilience/LoadBalancer/Choice.antt =====
-- The choice of `LeastBusy` and `Latency`: the least value, and its first place.
use mathlib.Core.Path.{ap₂, subst}
use godwit.Base.{
  ℕ, zero, suc, ◌+◌, ◌≤◌, ◌<◌, ◌≡◌, ◌⊎◌, inl, inr, refl, sym, ap, ◌∙◌, Bool, Bool-cases, some, List,
  [], ◌∷◌, map, get_elem?, ltb, if◌then◌else◌, All, arith,
}
use godwit.Resilience.LoadBalancer.{
  Float64, least_busy, State, States, get_state, select_least, select_provider, state_of,
  state_of-get_state, usize_max,
}

-- The loop over the values alone.
unfoldable pub arg_min : {A : Type 0} → (A → A → Bool) → List A → ℕ → ℕ → A → ℕ
arg_min lt [] i min_idx least = min_idx
arg_min lt (v ∷ vs) i min_idx least =
    let better = lt v least in
    arg_min lt vs (suc i) (if better then i else min_idx) (if better then v else least)

module _ (fl : Float64) {A : Type 0} (value : State fl → A) (lt : A → A → Bool) where
  values-get_state :
      (m : States fl) (id : ℕ) (ids : List ℕ)
      → map (λ j. value (state_of fl (get_state fl m id).0 j)) ids
        ≡ map (λ j. value (state_of fl m j)) ids
  values-get_state m id [] = refl
  values-get_state m id (j ∷ ids) =
      ap₂ ◌∷◌ (ap value (state_of-get_state fl m id j)) (values-get_state m id ids)

  -- Making states on the way does not change the choice.
  pub select_least-arg_min :
      (m : States fl) (ids : List ℕ) (i min_idx : ℕ) (least : A)
      → (select_least fl value lt m ids i min_idx least).1
        ≡ arg_min lt (map (λ j. value (state_of fl m j)) ids) i min_idx least
  unfolding select_least arg_min
  select_least-arg_min m [] i min_idx least = refl
  select_least-arg_min m (id ∷ ids) i min_idx least =
      let v = value (state_of fl m id) in
      let better = lt v least in
      select_least-arg_min (get_state fl m id).0 ids (suc i) (if better then i else min_idx)
        (if better then v else least)
      ∙ ap
          (λ vs.
            arg_min lt vs (suc i) (if better then i else min_idx) (if better then v else least))
          (values-get_state m id ids)

-- Entry `r` holds a value that no entry is below, and it is below every entry before it.
pub record IsFirstLeast (vs : List ℕ) (r : ℕ) : Type 0 where
  pub value : ℕ
  pub found : get_elem? vs r ≡ some value
  pub least : All (λ v. value ≤ v) vs
  pub first : (k v : ℕ) → k < r → get_elem? vs k ≡ some v → value < v

-- The outcome of the loop from place `i` on: nothing below the bound, or the first least entry.
abbrev Improved : List ℕ → ℕ → ℕ → ℕ → Type 0
Improved vs i least r =
    (k v : ℕ) × (r ≡ i + k)
    × (get_elem? vs k ≡ some v)
    × (v < least)
    × All (λ u. v ≤ u) vs
    × ((j u : ℕ) → j < k → get_elem? vs j ≡ some u → v < u)

All-le : (a b : ℕ) (vs : List ℕ) → a ≤ b → All (λ u. b ≤ u) vs → All (λ u. a ≤ u) vs
All-le a b [] h p = tt
All-le a b (v ∷ vs) h p = (omega arith, All-le a b vs h p.1)

Improved-cons :
    (v : ℕ) (vs : List ℕ) (i least bound r : ℕ)
    → bound ≤ v
    → bound ≤ least
    → Improved vs (suc i) bound r
    → Improved (v ∷ vs) i least r
Improved-cons v vs i least bound r h h' (k, w, e, found, below, all, first) =
    (suc k, w, omega arith, found, omega arith, (omega arith, all), λ j u lt e. go j u lt e)
  where
    go : (j u : ℕ) → j < suc k → get_elem? (v ∷ vs) j ≡ some u → w < u
    go zero u lt e = let same : v ≡ u = cc in omega arith
    go (suc j) u lt e = first j u (omega arith) e

arg_min_first :
    (vs : List ℕ) (i min_idx least : ℕ)
    → ((arg_min ltb vs i min_idx least ≡ min_idx) × All (λ v. least ≤ v) vs)
      ⊎ Improved vs i least (arg_min ltb vs i min_idx least)
unfolding arg_min
arg_min_first [] i min_idx least = inl (refl, tt)
arg_min_first (v ∷ vs) i min_idx least = elim (Bool-cases (ltb v least)) [
  | inl better ↦ rw better (elim (arg_min_first vs (suc i) i v) [
    | inl (same, all) ↦ inr (
      0,
      v,
      omega arith,
      refl,
      ground arith,
      (omega arith, all),
      λ j u lt e. absurd (omega arith),
    )
    | inr found ↦ inr (Improved-cons v vs i least v _ (omega arith) (ground arith) found)
  ])
  | inr worse ↦ rw worse (elim (arg_min_first vs (suc i) min_idx least) [
    | inl (same, all) ↦ inl (same, (ground arith, all))
    | inr found ↦ inr (Improved-cons v vs i least least _ (ground arith) (omega arith) found)
  ])
]

least_of_arg_min :
    (v : ℕ) (vs : List ℕ)
    → All (λ u. u ≤ usize_max) (v ∷ vs)
    → IsFirstLeast (v ∷ vs) (arg_min ltb (v ∷ vs) 0 0 usize_max)
least_of_arg_min v vs h = elim (arg_min_first (v ∷ vs) 0 0 usize_max) [
  | inl (same, all) ↦ subst (IsFirstLeast (v ∷ vs)) (sym same) (record {
    value = v;
    found = refl;
    least = All-le v usize_max (v ∷ vs) h.0 all;
    first = λ k u lt e. absurd (omega arith);
  })
  | inr (k, w, e, found, below, all, first) ↦
      let same : k ≡ arg_min ltb (v ∷ vs) 0 0 usize_max = omega arith in
      subst (IsFirstLeast (v ∷ vs)) same
        (record { value = w; found = found; least = all; first = first })
]

-- `LeastBusy` picks the first of the models with the fewest requests in flight, if the counts are
-- 64-bit numbers.
pub least_busy_first :
    (fl : Float64) (m : States fl) (id : ℕ) (ids : List ℕ)
    → All (λ v. v ≤ usize_max) (map (λ j. (state_of fl m j).in_flight) (id ∷ ids))
    → (r : ℕ) × ((select_provider fl m least_busy (id ∷ ids)).1 ≡ some r)
      × IsFirstLeast (map (λ j. (state_of fl m j).in_flight) (id ∷ ids)) r
unfolding select_provider
least_busy_first fl m id ids h = (
  arg_min ltb (map (λ j. (state_of fl m j).in_flight) (id ∷ ids)) 0 0 usize_max,
  ap some (select_least-arg_min fl (λ s. s.in_flight) ltb m (id ∷ ids) 0 0 usize_max),
  least_of_arg_min (state_of fl m id).in_flight (map (λ j. (state_of fl m j).in_flight) ids) h,
)
