-- ===== src/Api/ModelRouter/Sound.antt =====
-- What a resolved model has.
use godwit.Base.{
  ℕ, true, String, string_key, nat_beq, Option, none, some, Result, ok, err, >>=-eq-ok,
  ok-injective, ◌≡◌, inl, inr, refl, ap, sym, if◌then◌else◌, Bool-cases,
}
use mathlib.Core.Path.{subst}
use godwit.Core.Json.{Json}
use godwit.Core.Capability.{Capability}
use godwit.Resilience.LoadBalancer.{Float64}
use godwit.Api.ModelRouter.{
  Model, ProviderProfile, ResolvedProfile, Services, ResolvedModel, has_capability,
  resolve_credentials, with_url, with_key, with_secret, with_adapter, equip, Found,
}

module _ (js : Json) (fl : Float64) (sv : Services js) where
  abbrev Resolved : Type 0
  Resolved = ResolvedModel js fl sv

  -- What makes a resolved model fit the request.
  pub record Fits (capability : Capability) (r : Resolved) : Type 0 where
    pub enabled : r.profile.enabled ≡ true
    pub capable_of : has_capability js r.model capability ≡ true
    pub at_url : r.profile.base_url ≡ some r.resolved_credentials.base_url
    pub adapted : sv.adapter_of r.profile.protocol ≡ some r.adapter
    pub guarded_by : r.in_flight ≡ (if nat_beq r.model.id 0 then none else some r.model.id)

  -- The parts of a resolved model.
  pub record Equipped (model : Model js) (profile : ProviderProfile js) (guard : Option ℕ)
      (r : Resolved) : Type 0 where
    pub same_model : r.model ≡ model
    pub same_profile : r.profile ≡ profile
    pub same_guard : r.in_flight ≡ guard
    pub at_url : profile.base_url ≡ some r.resolved_credentials.base_url
    pub adapted : sv.adapter_of profile.protocol ≡ some r.adapter

  with_key-url :
      (url : String) (o : Result String String) {c : ResolvedProfile js}
      → with_key js fl sv url o ≡ ok c
      → c.base_url ≡ url
  with_key-url url (ok key) h = ap (λ c. c.base_url) (sym (ok-injective h))
  with_key-url url (err e) h = cc

  with_secret-url :
      (url : String) (o : Result String sv.Secret) {c : ResolvedProfile js}
      → with_secret js fl sv url o ≡ ok c
      → c.base_url ≡ url
  with_secret-url url (ok secret) h = with_key-url url (sv.decrypt_api_key secret) h
  with_secret-url url (err e) h = cc

  with_url-url :
      (profile : ProviderProfile js) (o : Option String) {c : ResolvedProfile js}
      → with_url js fl sv profile o ≡ ok c
      → o ≡ some c.base_url
  with_url-url profile none h = cc
  with_url-url profile (some url) h = elim (Bool-cases (sv.no_auth profile.auth)) [
    | inl keyless ↦ ap some (ap (λ c. c.base_url) (ok-injective (rw keyless at h)))
    | inr keyed ↦ ap some (sym (with_secret-url url (sv.secret_of profile.auth) (rw keyed at h)))
  ]

  with_adapter-Equipped :
      (model : Model js) (profile : ProviderProfile js) (c : ResolvedProfile js) (guard : Option ℕ)
      (o : Option sv.Adapter) {r : Resolved}
      → profile.base_url ≡ some c.base_url
      → sv.adapter_of profile.protocol ≡ o
      → with_adapter js fl sv model profile c guard o ≡ ok r
      → Equipped model profile guard r
  with_adapter-Equipped model profile c guard none eu ea h = cc
  with_adapter-Equipped model profile c guard (some adapter) eu ea h =
      subst (Equipped model profile guard) (ok-injective h) (record {
        same_model = refl;
        same_profile = refl;
        same_guard = refl;
        at_url = eu;
        adapted = ea;
      })

  pub equip-Equipped :
      (model : Model js) (profile : ProviderProfile js) (guard : Option ℕ) {r : Resolved}
      → equip js fl sv model profile guard ≡ ok r
      → Equipped model profile guard r
  unfolding equip resolve_credentials
  equip-Equipped model profile guard h =
      let (c, ec, h') = >>=-eq-ok (resolve_credentials js fl sv profile) _ h in
      with_adapter-Equipped model profile c guard (sv.adapter_of profile.protocol)
        (with_url-url profile profile.base_url ec) refl h'

  -- What is found has an enabled profile.
  abbrev AllEnabled : Option (Found js fl sv) → Type 0
  AllEnabled o =
      (f : Found js fl sv)
      → o ≡ some f
      → (x : Model js × ProviderProfile js) → f.1 ≡ ok x
      → x.1.enabled ≡ true
