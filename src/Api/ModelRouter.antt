-- ===== src/Api/ModelRouter.antt =====
-- `DbModelRouter` of crates/godwit-api/src/model_router.rs.
--
-- The queries of the repositories, the decryption of credentials and the registry of adapters are a
-- record of parameters; the load balancer is that of Resilience/LoadBalancer. An id is a number,
-- and the nil id is 0. `none` is a panic, of an index out of bounds. A guard that `resolve` drops with
-- an error takes its count back.
pub mod Total
pub mod Sound
pub mod Flight
mod Tests
use Prim.Native.Char.{code}
use godwit.Base.{
  ℕ, zero, suc, Bool, true, false, not, ◌&&◌, ◌||◌, String, string_key, nat_key, ◌==◌, Option, none,
  some, List, [], ◌∷◌, map, get_elem?, if◌then◌else◌, Result, ok, err, ◌>>=◌, ◌<>◌, nat_beq,
}
use godwit.Resilience.Fallback.{and_then, keep_some}
use godwit.Core.Error.{PasteurError, provider, validation, not_found}
use godwit.Core.Json.{Json}
use godwit.Core.Capability.{Capability, as_str}
use godwit.Resilience.LoadBalancer.{
  Float64, States, LoadBalanceStrategy, round_robin, least_busy, latency, select_provider,
  increment_in_flight, drop_guard,
}

-- `str::split_once('/')`
pub split_once : String → Option (String × String)
split_once String.[] = none
split_once (String.◌∷◌ c s) =
    let rest = split_once s in
    if nat_beq (code c) b'/'
    then some ("", s)
    else elim rest [ none ↦ none | some (name, suffix) ↦ some (String.◌∷◌ c name, suffix) ]

module _ (js : Json) where
  pub record Model : Type 0 where
    pub id : ℕ
    pub public_id : String
    pub provider : String
    pub provider_profile_id : ℕ
    pub provider_model_id : String
    pub capabilities : List String
    pub pricing : js.J
    pub config : js.J
    pub created_at : ℕ

  pub record ProviderProfile : Type 0 where
    pub id : ℕ
    pub name : String
    pub protocol : String
    pub base_url : Option String
    pub auth : js.J
    pub enabled : Bool
    pub allow_wildcard : Bool
    pub created_at : ℕ

  pub record ResolvedProfile : Type 0 where
    pub base_url : String
    pub api_key : Option String

  abbrev any : List String → String → Bool
  any [] c = false
  any (d ∷ ds) c = d == c || any ds c

  -- `Model::has_capability` of crates/godwit-db/src/models.rs
  pub has_capability : Model → Capability → Bool
  has_capability m c = any m.capabilities (as_str c)

  abbrev strategy_named : String → Option LoadBalanceStrategy
  strategy_named s =
      if s == "round_robin"
      then some round_robin
      else if s == "least_busy"
      then some least_busy
      else if s == "latency"
      then some latency
      else none

  -- `LoadBalanceStrategy::from_config`
  pub from_config : js.J → Option LoadBalanceStrategy
  from_config config = and_then (and_then (js.get config "load_balance") js.as_str) strategy_named

  abbrev first_model : List Model → Option Model
  first_model [] = none
  first_model (m ∷ ms) = some m

  abbrev or_round_robin : Option LoadBalanceStrategy → LoadBalanceStrategy
  or_round_robin none = round_robin
  or_round_robin (some s) = s

  pub strategy_for : List Model → LoadBalanceStrategy
  unfolding from_config
  strategy_for candidates =
      or_round_robin (and_then (first_model candidates) λ m. from_config m.config)

  abbrev or_none : {A : Type 0} → Option (List A) → List A
  or_none none = []
  or_none (some l) = l

  pub fallback_chain : Model → List String
  fallback_chain model =
      keep_some js.as_str (or_none (and_then (js.get model.config "fallbacks") js.as_array))

  pub ensure_enabled : ProviderProfile → Result PasteurError ProviderProfile
  ensure_enabled profile = if not profile.enabled then err not_found else ok profile

  -- The models of a public id.
  abbrev pub candidates_of : String → List Model → List Model
  candidates_of suffix [] = []
  candidates_of suffix (m ∷ ms) =
      let rest = candidates_of suffix ms in if m.public_id == suffix then m ∷ rest else rest

  -- The repositories, the stored credentials and the registry of adapters.
  pub record Services : Type 1 where
    pub Secret : Type 0
    pub Adapter : Type 0
    pub get_by_name : String → Result PasteurError ProviderProfile
    pub get_profile : ℕ → Result PasteurError ProviderProfile
    pub get_by_profile_and_public_id : ℕ → String → Result PasteurError Model
    pub list_models : Result PasteurError (List Model)
    -- whether the stored credentials are `null` or `{}`
    pub no_auth : js.J → Bool
    -- `serde_json::from_value`, and the decryption with the master key
    pub secret_of : js.J → Result String Secret
    pub decrypt_api_key : Secret → Result String String
    pub adapter_of : String → Option Adapter
    -- `json!({})`
    pub empty_object : js.J

  module _ (fl : Float64) (services : Services) where
    open services use {
      Secret, Adapter, get_by_name, get_profile, get_by_profile_and_public_id, list_models, no_auth,
      secret_of, decrypt_api_key, adapter_of, empty_object,
    }

    pub record ResolvedModel : Type 0 where
      pub model : Model
      pub profile : ProviderProfile
      pub resolved_credentials : ResolvedProfile
      pub adapter : Adapter
      -- the model whose counter the guard holds
      pub in_flight : Option ℕ

    abbrev pub with_key : String → Result String String → Result PasteurError ResolvedProfile
    with_key url (err e) = err (provider ("failed to decrypt stored provider credentials: " <> e))
    with_key url (ok key) = ok (record { base_url = url; api_key = some key })

    abbrev pub with_secret : String → Result String Secret → Result PasteurError ResolvedProfile
    with_secret url (err e) = err (provider ("malformed stored credentials: " <> e))
    with_secret url (ok secret) = with_key url (decrypt_api_key secret)

    abbrev pub with_url : ProviderProfile → Option String → Result PasteurError ResolvedProfile
    with_url profile none =
        err (provider ("provider profile '" <> profile.name <> "' has no base_url configured"))
    with_url profile (some url) =
        if no_auth profile.auth
        then ok (record { base_url = url; api_key = none })
        else with_secret url (secret_of profile.auth)

    pub resolve_credentials : ProviderProfile → Result PasteurError ResolvedProfile
    resolve_credentials profile = with_url profile profile.base_url

    -- The model that a wildcard profile stands in for.
    abbrev pub wildcard_model : ProviderProfile → String → String → Capability → Model
    wildcard_model profile model_ref suffix capability = record {
      id = 0;
      public_id = model_ref;
      provider = profile.protocol;
      provider_profile_id = profile.id;
      provider_model_id = suffix;
      capabilities = as_str capability ∷ [];
      pricing = empty_object;
      config = empty_object;
      created_at = profile.created_at;
    }

    abbrev pub named_model :
        ProviderProfile
        → String
        → String
        → Capability
        → Result PasteurError Model
        → Result PasteurError (Model × ProviderProfile)
    named_model profile model_ref suffix capability (ok model) = ok (model, profile)
    named_model profile model_ref suffix capability (err not_found) =
        if profile.allow_wildcard
        then ok (wildcard_model profile model_ref suffix capability, profile)
        else err not_found
    named_model profile model_ref suffix capability (err e) = err e

    -- A reference with the name of a profile.
    pub resolve_named :
        String → String → String → Capability → Result PasteurError (Model × ProviderProfile)
    unfolding ensure_enabled
    resolve_named name model_ref suffix capability = do
      found ← get_by_name name
      profile ← ensure_enabled found
      named_model profile model_ref suffix capability
          (get_by_profile_and_public_id profile.id suffix)

    pub with_profile : Model → Result PasteurError (Model × ProviderProfile)
    unfolding ensure_enabled
    with_profile model = do
      found ← get_profile model.provider_profile_id
      profile ← ensure_enabled found
      ok (model, profile)

    abbrev pub or_first : Option ℕ → ℕ
    or_first none = 0
    or_first (some i) = i

    abbrev pub Found : Type 0
    Found = States fl × Result PasteurError (Model × ProviderProfile)

    abbrev pub with_selected : States fl → Option Model → Option Found
    with_selected m none = none
    with_selected m (some model) = some (m, with_profile model)

    -- `select_load_balanced`, and the profile of its choice.
    pub select_load_balanced : States fl → List Model → Option Found
    unfolding strategy_for with_profile
    select_load_balanced m candidates =
        let (m', idx) =
          select_provider fl m (strategy_for candidates) (map (λ c. c.id) candidates) in
        with_selected m' (get_elem? candidates (or_first idx))

    abbrev pub resolve_among : States fl → List Model → Option Found
    resolve_among m [] = some (m, err not_found)
    resolve_among m (model ∷ []) = some (m, with_profile model)
    resolve_among m (model ∷ other ∷ models) = select_load_balanced m (model ∷ other ∷ models)

    abbrev pub resolve_listed : States fl → String → Result PasteurError (List Model) → Option Found
    resolve_listed m suffix (err e) = some (m, err e)
    resolve_listed m suffix (ok models) = resolve_among m (candidates_of suffix models)

    abbrev pub resolve_reference :
        States fl → String → Capability → Option (String × String) → Option Found
    resolve_reference m model_ref capability (some (name, suffix)) =
        some (m, resolve_named name model_ref suffix capability)
    resolve_reference m model_ref capability none = resolve_listed m model_ref list_models

    abbrev pub with_adapter :
        Model
        → ProviderProfile
        → ResolvedProfile
        → Option ℕ
        → Option Adapter
        → Result PasteurError ResolvedModel
    with_adapter model profile credentials guard none =
        err (provider ("unknown protocol: " <> profile.protocol))
    with_adapter model profile credentials guard (some adapter) = ok (record {
      model = model;
      profile = profile;
      resolved_credentials = credentials;
      adapter = adapter;
      in_flight = guard;
    })

    -- The credentials and the adapter of a model.
    pub equip : Model → ProviderProfile → Option ℕ → Result PasteurError ResolvedModel
    unfolding resolve_credentials
    equip model profile guard = do
      credentials ← resolve_credentials profile
      with_adapter model profile credentials guard (adapter_of profile.protocol)

    abbrev pub Resolution : Type 0
    Resolution = States fl × Result PasteurError ResolvedModel

    -- An error drops the guard.
    abbrev pub keep_guard : States fl → ℕ → Result PasteurError ResolvedModel → Resolution
    keep_guard m id (ok r) = (m, ok r)
    keep_guard m id (err e) = (drop_guard fl m id, err e)

    abbrev pub guarded : States fl → Model → ProviderProfile → Resolution
    guarded m model profile =
        if nat_beq model.id 0
        then (m, equip model profile none)
        else keep_guard (increment_in_flight fl m model.id) model.id
            (equip model profile (some model.id))

    abbrev pub capable :
        States fl → Capability → Result PasteurError (Model × ProviderProfile) → Resolution
    capable m capability (err e) = (m, err e)
    capable m capability (ok (model, profile)) =
        if not (has_capability model capability)
        then (
          m,
          err (
              validation
                ("model " <> model.public_id <> " does not support " <> as_str capability)),
        )
        else guarded m model profile

    abbrev pub capable_found : Option Found → Capability → Option Resolution
    capable_found none capability = none
    capable_found (some (m, found)) capability = some (capable m capability found)

    pub resolve : States fl → String → Capability → Option Resolution
    unfolding split_once resolve_named select_load_balanced with_profile has_capability equip
    resolve m model_ref capability =
        capable_found (resolve_reference m model_ref capability (split_once model_ref)) capability
