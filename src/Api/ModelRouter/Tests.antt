-- ===== src/Api/ModelRouter/Tests.antt =====
-- Runs of the router, and the theorems at a concrete catalog.
use godwit.Base.{
  ℕ, ◌+◌, ltb, true, false, String, string_key, nat_key, ◌==◌, none, some, [], ◌∷◌, ok, err, ◌≡◌,
  refl, arith, if◌then◌else◌,
}
use godwit.Base.Dict
use godwit.Core.Error.{not_found}
use godwit.Core.Json.{Json}
use godwit.Core.Capability.{chat, as_str}
use godwit.Resilience.LoadBalancer.{
  Float64, States, select_provider, get_state, new_state, increment_in_flight,
}
use godwit.Resilience.LoadBalancer.Selection.{flight}
use godwit.Api.ModelRouter.{
  Model, ProviderProfile, Services, ResolvedModel, split_once, strategy_for, resolve,
}
use godwit.Api.ModelRouter.Flight.{after, resolve-flight}

abbrev unit_json : Json
unit_json = record {
  J = Unit {0};
  get = λ v k. none;
  as_array = λ v. none;
  as_str = λ v. none;
  as_u64 = λ v. none;
  is_object = λ v. false;
  set = λ v k x. v;
  of_str = λ s. tt;
  of_list = λ l. tt;
  of_fields = λ l. tt;
}

abbrev floats : Float64
floats = record {
  F = ℕ;
  zero_f = 0;
  one_f = 1;
  infinity = 1_000_000;
  two_tenths = 0;
  add = λ a b. a + b;
  sub = λ a b. a;
  mul = λ a b. a;
  lt = ltb;
  to_bits = λ a. a;
}

abbrev model : ℕ → Model unit_json
model id = record {
  id = id;
  public_id = "gpt";
  provider = "openai";
  provider_profile_id = 1;
  provider_model_id = "gpt";
  capabilities = "chat" ∷ [];
  pricing = tt;
  config = tt;
  created_at = 0;
}

abbrev profile : ProviderProfile unit_json
profile = record {
  id = 1;
  name = "openai";
  protocol = "openai";
  base_url = some "https://api";
  auth = tt;
  enabled = true;
  allow_wildcard = true;
  created_at = 0;
}

abbrev services : Services unit_json
services = record {
  Secret = Unit {0};
  Adapter = String;
  get_by_name = λ name. if name == "openai" then ok profile else err not_found;
  get_profile = λ id. ok profile;
  get_by_profile_and_public_id = λ id name. err not_found;
  list_models = ok (model 7 ∷ model 8 ∷ []);
  no_auth = λ v. true;
  secret_of = λ v. err "none";
  decrypt_api_key = λ s. err "none";
  adapter_of = λ protocol. some protocol;
  empty_object = tt;
}

abbrev resolved : ResolvedModel unit_json floats services
resolved = record {
  model = model 7;
  profile = profile;
  resolved_credentials = record { base_url = "https://api"; api_key = none };
  adapter = "openai";
  in_flight = some 7;
}

abbrev resolved_states : States floats
resolved_states =
    increment_in_flight floats
      (select_provider floats Dict.empty (strategy_for unit_json (model 7 ∷ model 8 ∷ []))
        (7 ∷ 8 ∷ [])).0
      7

-- The first of two models of one name.
first_model :
    resolve unit_json floats services Dict.empty "gpt" chat ≡ some (resolved_states, ok resolved)
unfolding resolve select_provider get_state new_state Dict.get Dict.insert as_str
    increment_in_flight
first_model = refl

-- A profile with a wildcard stands in for a model that is not in the catalog.
wildcard : split_once "openai/any/thing" ≡ some ("openai", "any/thing")
unfolding split_once
wildcard = refl

resolve-flight_example :
    flight floats resolved_states 7
    ≡ after unit_json floats services (ok resolved) 7 (flight floats Dict.empty 7)
unfolding Dict.get new_state
resolve-flight_example =
    resolve-flight unit_json floats services Dict.empty "gpt" chat 7 (omega arith) first_model
