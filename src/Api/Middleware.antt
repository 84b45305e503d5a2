-- ===== src/Api/Middleware.antt =====
-- crates/godwit-api/src/middleware.rs, with `extract_prefix` of crates/godwit-auth/src/api_keys.rs and
-- `MemoryCache` of crates/godwit-cache/src/lib.rs: who may pass to a handler.
--
-- A header is a text, none if it is missing or not ASCII. The hash of argon2, the query of the key
-- table and the JSON parser are parameters. `jwt_auth` and the cookies are not modelled.
pub mod ApiKeys
pub mod Revoked
pub mod Guards
mod Tests
use Prim.Native.String.{len, slice}
use text.Mathlib.Text.{starts_with, get?}
use godwit.Base.{
  ℕ, ◌+◌, min, Bool, true, false, not, ◌&&◌, ◌||◌, ltb, String, Option, none, some, List, [], ◌∷◌,
  ◌==◌, string_key, is_empty, empty_text, if◌then◌else◌, Result, ok, err,
}
use godwit.Base.Dict
use godwit.Base.Dict.{Dict}

pub data Method : Type 0 where
  get head options post put patch delete : Method

pub is_state_changing : Method → Bool
is_state_changing post = true
is_state_changing put = true
is_state_changing patch = true
is_state_changing delete = true
is_state_changing _ = false

abbrev is_text : Option String → String → Bool
is_text none allowed = false
is_text (some origin) allowed = origin == allowed

-- `origin` is the `Origin` header.
pub origin_allowed_from_config : String → Method → Option String → Bool
unfolding is_state_changing
origin_allowed_from_config allowed method origin =
    if empty_text allowed || not (is_state_changing method) then true else is_text origin allowed

pub data Status : Type 0 where
  unauthorized forbidden internal_server_error : Status

-- What a middleware does with a request: it passes it on, answers it, or panics.
pub data Outcome (A : Type 0) : Type 0 where
  admitted : A → Outcome A
  rejected : Status → Outcome A
  panicked : Outcome A

pub cookie_csrf : String → Method → Option String → Outcome (Unit {0})
unfolding origin_allowed_from_config
cookie_csrf allowed method origin =
    if origin_allowed_from_config allowed method origin then admitted tt else rejected forbidden

-- `strip_prefix("Bearer ")`
pub extract_token : String → Option String
extract_token header =
    if starts_with header "Bearer " then some (slice header 7 (len header)) else none

-- The fields of a key that the middlewares read.
pub record ApiKey : Type 0 where
  pub id : ℕ
  pub key_hash : String
  pub disabled : Bool
  pub expires_at : Option ℕ
  pub allowed_models : List String

-- The slice from the end of `sk-godwit-` on, of up to 16 bytes; none where the slice panics.
pub extract_prefix : String → Option String
extract_prefix key = get? key 10 (min (10 + 16) (len key))

-- `e > now` on the fast path, and `e < now` on the slow one.
abbrev pub live : Option ℕ → ℕ → Bool
live none now = true
live (some e) now = ltb now e

abbrev pub expired : Option ℕ → ℕ → Bool
expired none now = false
expired (some e) now = ltb e now

abbrev pub Cache : Type 0
Cache = Dict String ApiKey

abbrev pub accept_found : Option ApiKey → Cache → String → ℕ → Cache × Outcome ApiKey
accept_found none cache auth now = (cache, rejected unauthorized)
accept_found (some key) cache auth now =
    if key.disabled || expired key.expires_at now
    then (cache, rejected unauthorized)
    else (Dict.insert auth key cache, admitted key)

module _ (verify_key : String → String → Bool) where
  -- `find` on the candidates.
  pub find_key : String → List ApiKey → Option ApiKey
  find_key auth [] = none
  find_key auth (k ∷ ks) =
      let rest = find_key auth ks in if verify_key auth k.key_hash then some k else rest

  abbrev pub accept_candidates :
      Result String (List ApiKey) → Cache → String → ℕ → Cache × Outcome ApiKey
  accept_candidates (err e) cache auth now = (cache, rejected internal_server_error)
  accept_candidates (ok candidates) cache auth now =
      accept_found (find_key auth candidates) cache auth now

module _ (verify_key : String → String → Bool)
    (get_by_prefix : String → Result String (List ApiKey)) where
  abbrev pub lookup_prefix : Option String → Cache → String → ℕ → Cache × Outcome ApiKey
  lookup_prefix none cache auth now = (cache, panicked)
  lookup_prefix (some prefix) cache auth now =
      accept_candidates verify_key (get_by_prefix prefix) cache auth now

  -- The fallback to the database.
  pub lookup : Cache → String → ℕ → Cache × Outcome ApiKey
  unfolding find_key
  lookup cache auth now = lookup_prefix (extract_prefix auth) cache auth now

  abbrev pub try_cached : Option ApiKey → Cache → String → ℕ → ℕ → Cache × Outcome ApiKey
  try_cached none cache auth now now' = lookup cache auth now'
  try_cached (some key) cache auth now now' =
      if not key.disabled && live key.expires_at now
      then (cache, admitted key)
      else lookup cache auth now'

  abbrev pub with_token : Option String → Cache → ℕ → ℕ → Cache × Outcome ApiKey
  with_token none cache now now' = (cache, rejected unauthorized)
  with_token (some auth) cache now now' = try_cached (Dict.get auth cache) cache auth now now'

  abbrev pub with_header : Option String → Cache → ℕ → ℕ → Cache × Outcome ApiKey
  with_header none cache now now' = (cache, rejected unauthorized)
  with_header (some header) cache now now' = with_token (extract_token header) cache now now'

  -- `header` is the `Authorization` header; the clock is read on the fast and on the slow path.
  pub api_key_auth : Cache → Option String → ℕ → ℕ → Cache × Outcome ApiKey
  unfolding lookup extract_token
  api_key_auth cache header now now' = with_header header cache now now'

pub listed : List String → String → Bool
listed [] model = false
listed (m ∷ ms) model = m == model || listed ms model

pub is_model_allowed : ApiKey → String → Bool
unfolding listed
is_model_allowed key model = is_empty key.allowed_models || listed key.allowed_models model

abbrev pub scope_of : Option String → ApiKey → Outcome (Unit {0})
scope_of none key = admitted tt
scope_of (some model) key = if is_model_allowed key model then admitted tt else rejected forbidden

-- `extract_model_from_body` gives the `model` field of a body that is JSON and has one.
pub model_scope : {Body : Type 0} → (Body → Option String) → ApiKey → Body → Outcome (Unit {0})
unfolding is_model_allowed
model_scope extract_model_from_body key body = scope_of (extract_model_from_body body) key
