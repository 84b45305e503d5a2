-- ===== src/Api/Middleware/Revoked.antt =====
-- How long a key is admitted that is disabled or deleted.
use godwit.Base.{
  ℕ, ◌≡◌, ◌⊎◌, refl, sym, ap, ◌∙◌, Bool, true, false, Bool-cases, inl, inr, not, ◌&&◌, ◌||◌, String,
  string_key, ◌==◌, Option, none, some, List, [], ◌∷◌, Result, ok, err, if◌then◌else◌, All,
}
use mathlib.Core.Path.{subst}
use godwit.Base.Dict
use godwit.Base.Dict.{get-insert}
use godwit.Api.Middleware.{
  Outcome, admitted, rejected, unauthorized, ApiKey, Cache, extract_token, extract_prefix, live,
  expired, find_key, accept_found, accept_candidates, lookup_prefix, lookup, try_cached, with_token,
  with_header, api_key_auth,
}
use godwit.Api.Middleware.ApiKeys.{IsVerified, admitted_was_verified, cached_admitted}

-- A request, with what the key table says then, and the two readings of the clock.
pub record Visit : Type 0 where
  pub get_by_prefix : String → Result String (List ApiKey)
  pub header : Option String
  pub now : ℕ
  pub now' : ℕ

module _ (verify_key : String → String → Bool) where
  -- The cache after the requests, one after the other.
  pub visit_all : Cache → List Visit → Cache
  visit_all cache [] = cache
  visit_all cache (v ∷ vs) =
      visit_all (api_key_auth verify_key v.get_by_prefix cache v.header v.now v.now').0 vs

  -- A request with a token writes nothing, or the entry of its token.
  abbrev Writes : String → Cache → Cache × Outcome ApiKey → Type 0
  Writes auth cache (cache', out) =
      (cache' ≡ cache) ⊎ ((k : ApiKey) × (cache' ≡ Dict.insert auth k cache))

  accept_found-Writes :
      (found : Option ApiKey) (cache : Cache) (auth : String) (now : ℕ)
      → Writes auth cache (accept_found found cache auth now)
  accept_found-Writes none cache auth now = inl refl
  accept_found-Writes (some key) cache auth now = go (key.disabled || expired key.expires_at now)
    where
      go :
          (b : Bool)
          → Writes auth cache (
              if b
              then (cache, rejected unauthorized)
              else (Dict.insert auth key cache, admitted key))
      go true = inl refl
      go false = inr (key, refl)

  accept_candidates-Writes :
      (r : Result String (List ApiKey)) (cache : Cache) (auth : String) (now : ℕ)
      → Writes auth cache (accept_candidates verify_key r cache auth now)
  accept_candidates-Writes (err e) cache auth now = inl refl
  accept_candidates-Writes (ok ks) cache auth now =
      accept_found-Writes (find_key verify_key auth ks) cache auth now

  lookup_prefix-Writes :
      (get_by_prefix : String → Result String (List ApiKey)) (prefix : Option String)
      (cache : Cache) (auth : String) (now : ℕ)
      → Writes auth cache (lookup_prefix verify_key get_by_prefix prefix cache auth now)
  lookup_prefix-Writes get_by_prefix none cache auth now = inl refl
  lookup_prefix-Writes get_by_prefix (some prefix) cache auth now =
      accept_candidates-Writes (get_by_prefix prefix) cache auth now

  try_cached-Writes :
      (get_by_prefix : String → Result String (List ApiKey)) (found : Option ApiKey) (cache : Cache)
      (auth : String) (now now' : ℕ)
      → Writes auth cache (try_cached verify_key get_by_prefix found cache auth now now')
  unfolding lookup
  try_cached-Writes get_by_prefix none cache auth now now' =
      lookup_prefix-Writes get_by_prefix (extract_prefix auth) cache auth now'
  try_cached-Writes get_by_prefix (some key) cache auth now now' =
      go (not key.disabled && live key.expires_at now)
    where
      go :
          (b : Bool)
          → Writes auth cache
              (if b then (cache, admitted key) else lookup verify_key get_by_prefix cache auth now')
      go true = inl refl
      go false = lookup_prefix-Writes get_by_prefix (extract_prefix auth) cache auth now'

  -- The key is cached for the token.
  abbrev Holds : String → ApiKey → Cache → Type 0
  Holds auth key cache = Dict.get auth cache ≡ some key

  Writes-elsewhere :
      (auth other : String) (key : ApiKey) (cache : Cache) (p : Cache × Outcome ApiKey)
      → (other == auth) ≡ false
      → Writes other cache p
      → Holds auth key cache
      → Holds auth key p.0
  Writes-elsewhere auth other key cache (cache', out) apart (inl e) h =
      ap (λ c. Dict.get auth c) e ∙ h
  Writes-elsewhere auth other key cache (cache', out) apart (inr (k, e)) h =
      ap (λ c. Dict.get auth c) e ∙ get-insert other auth k cache ∙ rw apart h

  abbrev when : Bool → Cache × Outcome ApiKey → Cache × Outcome ApiKey → Cache × Outcome ApiKey
  when b p q = if b then p else q

  fresh : (a b : Bool) → a ≡ false → b ≡ true → (not a && b) ≡ true
  fresh a b h h' = rw (h, h')

  hit-Holds :
      (get_by_prefix : String → Result String (List ApiKey)) (auth : String) (key : ApiKey)
      (cache : Cache) (now now' : ℕ)
      → key.disabled ≡ false
      → live key.expires_at now ≡ true
      → Holds auth key cache
      → Holds auth key (with_token verify_key get_by_prefix (some auth) cache now now').0
  hit-Holds get_by_prefix auth key cache now now' enabled alive h =
      ap (λ o. Dict.get auth (try_cached verify_key get_by_prefix o cache auth now now').0) h
      ∙ ap
          (λ b.
            Dict.get auth
              (when b (cache, admitted key) (lookup verify_key get_by_prefix cache auth now')).0)
          (fresh key.disabled (live key.expires_at now) enabled alive)
      ∙ h

  token-Holds :
      (get_by_prefix : String → Result String (List ApiKey)) (token : Option String) (auth : String)
      (key : ApiKey) (cache : Cache) (now now' : ℕ)
      → key.disabled ≡ false
      → live key.expires_at now ≡ true
      → Holds auth key cache
      → Holds auth key (with_token verify_key get_by_prefix token cache now now').0
  token-Holds get_by_prefix none auth key cache now now' enabled alive h = h
  token-Holds get_by_prefix (some other) auth key cache now now' enabled alive h =
      elim (Bool-cases (other == auth)) [
        | inl same ↦
            subst
              (λ a. Holds auth key (with_token verify_key get_by_prefix (some a) cache now now').0)
              (sym ((string_key.same_iff other auth).0 same))
              (hit-Holds get_by_prefix auth key cache now now' enabled alive h)
        | inr apart ↦
            Writes-elsewhere auth other key cache
              (try_cached verify_key get_by_prefix (Dict.get other cache) cache other now now')
              apart (try_cached-Writes get_by_prefix (Dict.get other cache) cache other now now') h
      ]

  header-Holds :
      (get_by_prefix : String → Result String (List ApiKey)) (header : Option String)
      (auth : String) (key : ApiKey) (cache : Cache) (now now' : ℕ)
      → key.disabled ≡ false
      → live key.expires_at now ≡ true
      → Holds auth key cache
      → Holds auth key (with_header verify_key get_by_prefix header cache now now').0
  header-Holds get_by_prefix none auth key cache now now' enabled alive h = h
  header-Holds get_by_prefix (some header) auth key cache now now' enabled alive h =
      token-Holds get_by_prefix (extract_token header) auth key cache now now' enabled alive h

  visit_all-Holds :
      (auth : String) (key : ApiKey) (vs : List Visit) (cache : Cache)
      → key.disabled ≡ false
      → All (λ v. live key.expires_at v.now ≡ true) vs
      → Holds auth key cache
      → Holds auth key (visit_all cache vs)
  unfolding visit_all api_key_auth
  visit_all-Holds auth key [] cache enabled alive h = h
  visit_all-Holds auth key (v ∷ vs) cache enabled (alive, rest) h =
      visit_all-Holds auth key vs
        (api_key_auth verify_key v.get_by_prefix cache v.header v.now v.now').0 enabled rest
        (header-Holds v.get_by_prefix v.header auth key cache v.now v.now' enabled alive h)

  -- A key that was admitted once is admitted again by every later request with its token, whatever
  -- requests come between and whatever the key table says by then, as long as the copy of the key that
  -- was cached has not expired: nothing takes it off the cache when it is disabled or deleted.
  pub revoked_key_stays_admitted :
      (before after : String → Result String (List ApiKey)) (cache : Cache) (header auth : String)
      (now now' later later' : ℕ) (key : ApiKey) (between : List Visit)
      → IsVerified verify_key cache
      → extract_token header ≡ some auth
      → (api_key_auth verify_key before cache (some header) now now').1 ≡ admitted key
      → All (λ v. live key.expires_at v.now ≡ true) between
      → live key.expires_at later ≡ true
      → (api_key_auth verify_key after
          (visit_all (api_key_auth verify_key before cache (some header) now now').0 between)
          (some header)
          later
          later').1
        ≡ admitted key
  revoked_key_stays_admitted before after cache header auth now now' later later' key between v
        token first alive alive' =
      let (verified', good) =
        admitted_was_verified verify_key before cache header auth now now' v token in
      let (hash, enabled, found) = good key first in
      let kept =
        visit_all-Holds auth key between
          (api_key_auth verify_key before cache (some header) now now').0 enabled alive found in
      ap (λ r. r.1)
        (cached_admitted verify_key after _ header auth later later' key token kept enabled alive')
