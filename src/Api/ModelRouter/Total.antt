-- ===== src/Api/ModelRouter/Total.antt =====
-- Every reference is resolved without a panic.
use godwit.Base.{
  ℕ, zero, suc, ◌<◌, String, Option, none, some, List, [], ◌∷◌, map, length, get_elem?, Result, ok,
  err, ◌≡◌, refl, ap, arith,
}
use godwit.Core.Error.{PasteurError}
use godwit.Core.Json.{Json}
use godwit.Core.Capability.{Capability}
use godwit.Resilience.LoadBalancer.{Float64, States, select_provider}
use godwit.Resilience.LoadBalancer.Selection.{select_provider-lt}
use godwit.Api.ModelRouter.{
  Model, Services, split_once, strategy_for, candidates_of, select_load_balanced, resolve_among,
  resolve_listed, resolve_reference, capable_found, capable, resolve, with_profile, Found,
  Resolution,
}

get_elem?-lt :
    {A : Type 0} (xs : List A) (i : ℕ) → i < length xs → (x : A) × (get_elem? xs i ≡ some x)
get_elem?-lt [] i h = absurd (omega arith)
get_elem?-lt (x ∷ xs) zero h = (x, refl)
get_elem?-lt (x ∷ xs) (suc i) h = get_elem?-lt xs i (omega arith)

length-map : {A B : Type 0} (f : A → B) (xs : List A) → length (map f xs) ≡ length xs
length-map f [] = refl
length-map f (x ∷ xs) = omega (arith, length-map f xs)

module _ (js : Json) (fl : Float64) (sv : Services js) where
  select_load_balanced-total :
      (m : States fl) (c : Model js) (cs : List (Model js))
      → (f : Found js fl sv) × (select_load_balanced js fl sv m (c ∷ cs) ≡ some f)
  unfolding select_load_balanced
  select_load_balanced-total m c cs =
      let strategy = strategy_for js (c ∷ cs) in
      let ids = map (λ d. d.id) cs in
      let (i, ei, lt) = select_provider-lt fl m strategy c.id ids in
      let (model, em) = get_elem?-lt (c ∷ cs) i (omega (arith, length-map (λ d. d.id) cs, lt)) in
      (((select_provider fl m strategy (c.id ∷ ids)).0, with_profile js fl sv model), rw (ei, em))

  resolve_among-total :
      (m : States fl) (models : List (Model js))
      → (f : Found js fl sv) × (resolve_among js fl sv m models ≡ some f)
  resolve_among-total m [] = (_, refl)
  resolve_among-total m (c ∷ []) = (_, refl)
  resolve_among-total m (c ∷ d ∷ ds) = select_load_balanced-total m c (d ∷ ds)

  resolve_listed-total :
      (m : States fl) (suffix : String) (r : Result PasteurError (List (Model js)))
      → (f : Found js fl sv) × (resolve_listed js fl sv m suffix r ≡ some f)
  resolve_listed-total m suffix (err e) = (_, refl)
  resolve_listed-total m suffix (ok models) = resolve_among-total m (candidates_of js suffix models)

  resolve_reference-total :
      (m : States fl) (model_ref : String) (capability : Capability) (o : Option (String × String))
      → (f : Found js fl sv) × (resolve_reference js fl sv m model_ref capability o ≡ some f)
  resolve_reference-total m model_ref capability (some (name, suffix)) = (_, refl)
  resolve_reference-total m model_ref capability none =
      resolve_listed-total m model_ref sv.list_models

  -- `resolve` returns for every reference, whatever the repositories answer: its index into the
  -- candidates is never out of bounds.
  pub resolve-total :
      (m : States fl) (model_ref : String) (capability : Capability)
      → (r : Resolution js fl sv) × (resolve js fl sv m model_ref capability ≡ some r)
  unfolding resolve
  resolve-total m model_ref capability =
      let (f, e) = resolve_reference-total m model_ref capability (split_once model_ref) in
      (capable js fl sv f.0 capability f.1, ap (λ o. capable_found js fl sv o capability) e)
