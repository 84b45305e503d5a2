-- ===== src/Api/ModelRouter/Flight.antt =====
-- What a resolution does to the counters of requests in flight.
use godwit.Base.{
  ℕ, ◌<◌, String, nat_key, ◌==◌, nat_beq, Option, none, some, List, [], ◌∷◌, map, Result, ok, err,
  ◌≡◌, refl, ap, ◌∙◌, sym, arith, if◌then◌else◌, Bool-cases, inl, inr, ==-refl,
}
use mathlib.Core.Option.{some-injective}
use mathlib.Core.Path.{subst}
use godwit.Core.Error.{PasteurError}
use godwit.Core.Json.{Json}
use godwit.Core.Capability.{Capability}
use godwit.Resilience.CircuitBreaker.{usize_mod, fetch_add, fetch_sub}
use godwit.Resilience.LoadBalancer.{Float64, States, increment_in_flight, drop_guard}
use godwit.Resilience.LoadBalancer.InFlight.{in_flight-increment, in_flight-drop}
use godwit.Resilience.LoadBalancer.Selection.{flight, select_provider-flight}
use godwit.Api.ModelRouter.{
  Model, ProviderProfile, Services, ResolvedModel, Found, has_capability, with_selected,
  select_load_balanced, resolve_among, resolve_listed, resolve_reference, candidates_of,
  strategy_for, equip, keep_guard, guarded, capable, capable_found, resolve, split_once,
}
use godwit.Api.ModelRouter.Sound.{equip-Equipped}

-- A counter with the request of a guard, if there is one for the model.
abbrev pub with_guard : Option ℕ → ℕ → ℕ → ℕ
with_guard none j n = n
with_guard (some id) j n = if id == j then fetch_add n else n

module _ (js : Json) (fl : Float64) (sv : Services js) where
  abbrev Out : Type 0
  Out = Result PasteurError (ResolvedModel js fl sv)

  -- The counter of a model after a resolution.
  abbrev pub after : Out → ℕ → ℕ → ℕ
  after (err e) j n = n
  after (ok r) j n = with_guard r.in_flight j n

  FlightKept : States fl → Option (Found js fl sv) → Type 0
  FlightKept m o = (f : Found js fl sv) → o ≡ some f → (j : ℕ) → flight fl f.0 j ≡ flight fl m j

  kept :
      (m m' : States fl) (f : Found js fl sv) {x : _}
      → ((j : ℕ) → flight fl m' j ≡ flight fl m j)
      → ◌≡◌ {A = Option (Found js fl sv)} (some (m', x)) (some f)
      → (j : ℕ) → flight fl f.0 j ≡ flight fl m j
  kept m m' f h e j = ap (λ g. flight fl g.0 j) (sym (some-injective _ _ e)) ∙ h j

  with_selected-FlightKept :
      (m m' : States fl) (o : Option (Model js))
      → ((j : ℕ) → flight fl m' j ≡ flight fl m j)
      → FlightKept m (with_selected js fl sv m' o)
  unfolding FlightKept
  with_selected-FlightKept m m' none h f e j = cc
  with_selected-FlightKept m m' (some model) h f e j = kept m m' f h e j

  resolve_among-FlightKept :
      (m : States fl) (models : List (Model js)) → FlightKept m (resolve_among js fl sv m models)
  unfolding FlightKept select_load_balanced
  resolve_among-FlightKept m [] f e j = kept m m f (λ k. refl) e j
  resolve_among-FlightKept m (c ∷ []) f e j = kept m m f (λ k. refl) e j
  resolve_among-FlightKept m (c ∷ d ∷ ds) f e j =
      with_selected-FlightKept m _ _
        (select_provider-flight fl m (strategy_for js (c ∷ d ∷ ds)) (map (λ x. x.id) (c ∷ d ∷ ds)))
        f e j

  resolve_listed-FlightKept :
      (m : States fl) (suffix : String) (r : Result PasteurError (List (Model js)))
      → FlightKept m (resolve_listed js fl sv m suffix r)
  unfolding FlightKept
  resolve_listed-FlightKept m suffix (err e') f e j = kept m m f (λ k. refl) e j
  resolve_listed-FlightKept m suffix (ok models) f e j =
      resolve_among-FlightKept m (candidates_of js suffix models) f e j

  resolve_reference-FlightKept :
      (m : States fl) (model_ref : String) (capability : Capability) (o : Option (String × String))
      → FlightKept m (resolve_reference js fl sv m model_ref capability o)
  unfolding FlightKept
  resolve_reference-FlightKept m model_ref capability (some (name, suffix)) f e j =
      kept m m f (λ k. refl) e j
  resolve_reference-FlightKept m model_ref capability none f e j =
      resolve_listed-FlightKept m model_ref sv.list_models f e j

  taken :
      (id j : ℕ) (m : States fl)
      → (if id == j then fetch_add (flight fl m id) else flight fl m j)
        ≡ (if id == j then fetch_add (flight fl m j) else flight fl m j)
  taken id j m = ground (arith, nat_key.same_iff id j)

  -- A counter that goes up and down again is as it was.
  up_and_down : (n : ℕ) → n < usize_mod → fetch_sub (fetch_add n) ≡ n
  up_and_down n h = omega arith

  dropped :
      (m : States fl) (id j : ℕ)
      → flight fl m j < usize_mod
      → flight fl (drop_guard fl (increment_in_flight fl m id) id) j ≡ flight fl m j
  dropped m id j h = elim (Bool-cases (id == j)) [
    | inl same ↦
        let e : id ≡ j = (nat_key.same_iff id j).0 same in
        let up : flight fl (increment_in_flight fl m id) id ≡ fetch_add (flight fl m id) =
          in_flight-increment fl m id id ∙ (rw (==-refl id)) in
        in_flight-drop fl (increment_in_flight fl m id) id j
        ∙ (rw same (
            ap fetch_sub up
            ∙ up_and_down (flight fl m id) (subst (λ k. flight fl m k < usize_mod) (sym e) h)
            ∙ ap (flight fl m) e))
    | inr other ↦
        in_flight-drop fl (increment_in_flight fl m id) id j
        ∙ (rw other (in_flight-increment fl m id j ∙ (rw other)))
  ]

  keep_guard-after :
      (m : States fl) (id : ℕ) (o : Out) (j : ℕ)
      → ((r : ResolvedModel js fl sv) → o ≡ ok r → r.in_flight ≡ some id)
      → flight fl m j < usize_mod
      → flight fl (keep_guard js fl sv (increment_in_flight fl m id) id o).0 j
        ≡ after (keep_guard js fl sv (increment_in_flight fl m id) id o).1 j (flight fl m j)
  keep_guard-after m id (err e) j g h = dropped m id j h
  keep_guard-after m id (ok r) j g h = rw (g r refl) (in_flight-increment fl m id j ∙ taken id j m)

  unguarded-after :
      (m : States fl) (o : Out) (j : ℕ)
      → ((r : ResolvedModel js fl sv) → o ≡ ok r → r.in_flight ≡ none)
      → flight fl m j ≡ after o j (flight fl m j)
  unguarded-after m (err e) j g = refl
  unguarded-after m (ok r) j g = rw (g r refl)

  guarded-after :
      (m : States fl) (model : Model js) (profile : ProviderProfile js) (j : ℕ)
      → flight fl m j < usize_mod
      → flight fl (guarded js fl sv m model profile).0 j
        ≡ after (guarded js fl sv m model profile).1 j (flight fl m j)
  guarded-after m model profile j h = elim (Bool-cases (nat_beq model.id 0)) [
    | inl nil ↦ rw nil (
        unguarded-after m (equip js fl sv model profile none) j
          (λ r e. (equip-Equipped js fl sv model profile none e).same_guard))
    | inr real ↦ rw real (
        keep_guard-after m model.id (equip js fl sv model profile (some model.id)) j
          (λ r e. (equip-Equipped js fl sv model profile (some model.id) e).same_guard) h)
  ]

  capable-after :
      (m : States fl) (capability : Capability)
      (found : Result PasteurError (Model js × ProviderProfile js)) (j : ℕ)
      → flight fl m j < usize_mod
      → flight fl (capable js fl sv m capability found).0 j
        ≡ after (capable js fl sv m capability found).1 j (flight fl m j)
  capable-after m capability (err e) j h = refl
  capable-after m capability (ok (model, profile)) j h =
      elim (Bool-cases (has_capability js model capability)) [
        | inl able ↦ rw able (guarded-after m model profile j h)
        | inr unable ↦ rw unable
      ]

  found-after :
      (m : States fl) (capability : Capability) (o : Option (Found js fl sv)) (j : ℕ)
      {m' : States fl} {out : Out}
      → FlightKept m o
      → flight fl m j < usize_mod
      → capable_found js fl sv o capability ≡ some (m', out)
      → flight fl m' j ≡ after out j (flight fl m j)
  unfolding FlightKept
  found-after m capability none j k h e = cc
  found-after m capability (some (m1, found)) j k h e =
      let same = k (m1, found) refl j in
      let e' = some-injective _ _ e in
      ap (λ p. flight fl p.0 j) (sym e')
      ∙ capable-after m1 capability found j (subst (λ n. n < usize_mod) (sym same) h)
      ∙ ap (λ p. after p.1 j (flight fl m1 j)) e'
      ∙ ap (after _ j) same

  -- A resolution adds one request to the model whose guard it returns, as a 64-bit number, and changes
  -- no other counter; if it fails, it changes none. The counters are 64-bit numbers before.
  pub resolve-flight :
      (m : States fl) (model_ref : String) (capability : Capability) (j : ℕ) {m' : States fl}
      {out : Out}
      → flight fl m j < usize_mod
      → resolve js fl sv m model_ref capability ≡ some (m', out)
      → flight fl m' j ≡ after out j (flight fl m j)
  unfolding resolve
  resolve-flight m model_ref capability j h e =
      found-after m capability _ j
        (resolve_reference-FlightKept m model_ref capability (split_once model_ref)) h e
