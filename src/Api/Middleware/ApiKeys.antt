-- ===== src/Api/Middleware/ApiKeys.antt =====
-- Whom `api_key_auth` admits, and for how long.
use Prim.Native.String.{len}
use mathlib.Core.Path.{subst}
use mathlib.Core.Option.{some-injective}
use godwit.Base.{
  ℕ, ◌<◌, ◌≡◌, refl, sym, ap, ◌∙◌, Bool, true, false, Bool-cases, inl, inr, not, ◌&&◌, ◌||◌, String,
  string_key, ◌==◌, ==-refl, Option, none, some, List, [], ◌∷◌, Result, ok, err, if◌then◌else◌,
  arith,
}
use godwit.Base.Dict
use godwit.Base.Dict.{get-insert}
use godwit.Api.Middleware.{
  Outcome, admitted, rejected, unauthorized, panicked, ApiKey, Cache, extract_token, extract_prefix,
  live, expired, find_key, accept_found, accept_candidates, lookup_prefix, lookup, try_cached,
  with_token, api_key_auth,
}

no_prefix : (auth : String) → len auth < 10 → extract_prefix auth ≡ none
unfolding extract_prefix
no_prefix auth h = ground arith

module _ (verify_key : String → String → Bool) where
  -- Every key of the cache was verified for the token that it stands under.
  pub record IsVerified (cache : Cache) : Type 0 where
    pub verified :
        (auth : String) (key : ApiKey)
        → Dict.get auth cache ≡ some key
        → verify_key auth key.key_hash ≡ true

  -- The token `auth` was verified for the key, which is cached under it and not disabled.
  abbrev pub Good : Cache → String → ApiKey → Type 0
  Good cache auth key =
      (verify_key auth key.key_hash ≡ true)
      × (key.disabled ≡ false)
      × (Dict.get auth cache ≡ some key)

  -- What holds of the cache and the answer after a request with token `auth`.
  abbrev pub IsRight : String → Cache × Outcome ApiKey → Type 0
  IsRight auth (cache, out) =
      IsVerified cache × ((key : ApiKey) → out ≡ admitted key → Good cache auth key)

  find_key-verified :
      (auth : String) (ks : List ApiKey) (key : ApiKey)
      → find_key verify_key auth ks ≡ some key
      → verify_key auth key.key_hash ≡ true
  unfolding find_key
  find_key-verified auth [] key h = cc
  find_key-verified auth (k ∷ ks) key h =
      go (verify_key auth k.key_hash) refl h (find_key-verified auth ks key)
    where
      go :
          (b : Bool)
          → verify_key auth k.key_hash ≡ b
          → (if b then some k else find_key verify_key auth ks) ≡ some key
          → (find_key verify_key auth ks ≡ some key → verify_key auth key.key_hash ≡ true)
          → verify_key auth key.key_hash ≡ true
      go true e h' ih = subst (λ x. verify_key auth x.key_hash ≡ true) (some-injective k key h') e
      go false e h' ih = ih h'

  insert-IsVerified :
      (cache : Cache) (auth : String) (key : ApiKey)
      → IsVerified cache
      → verify_key auth key.key_hash ≡ true
      → IsVerified (Dict.insert auth key cache)
  insert-IsVerified cache auth key v h = record { verified = go }
    where
      go :
          (a : String) (k : ApiKey)
          → Dict.get a (Dict.insert auth key cache) ≡ some k
          → verify_key a k.key_hash ≡ true
      go a k e = elim (Bool-cases (auth == a)) [
        | inl same ↦
            let here : (if true then some key else Dict.get a cache) ≡ some k =
              ap (λ b. if b then some key else Dict.get a cache) (sym same)
              ∙ sym (get-insert auth a key cache)
              ∙ e in
            cc (h, some-injective key k here, (string_key.same_iff auth a).0 same)
        | inr other ↦ v.verified a k (
            ap (λ b. if b then some key else Dict.get a cache) (sym other)
            ∙ sym (get-insert auth a key cache)
            ∙ e)
      ]

  accept_found-IsRight :
      (found : Option ApiKey) (cache : Cache) (auth : String) (now : ℕ)
      → IsVerified cache
      → ((key : ApiKey) → found ≡ some key → verify_key auth key.key_hash ≡ true)
      → IsRight auth (accept_found found cache auth now)
  accept_found-IsRight none cache auth now v h = (v, λ key e. cc)
  accept_found-IsRight (some key) cache auth now v h =
      go (key.disabled || expired key.expires_at now) refl
    where
      stored : Dict.get auth (Dict.insert auth key cache) ≡ some key
      stored = get-insert auth auth key cache ∙ rw (==-refl auth) refl

      go :
          (b : Bool)
          → (key.disabled || expired key.expires_at now) ≡ b
          → IsRight auth (
              if b
              then (cache, rejected unauthorized)
              else (Dict.insert auth key cache, admitted key))
      go true e = (v, λ k x. cc)
      go false e = (
        insert-IsVerified cache auth key v (h key refl),
        λ k x.
            let same : key ≡ k = cc x in
            subst (λ y. Good (Dict.insert auth key cache) auth y) same
              (h key refl, ground (arith, e), stored),
      )

  module _ (get_by_prefix : String → Result String (List ApiKey)) where
    lookup_prefix-IsRight :
        (prefix : Option String) (cache : Cache) (auth : String) (now : ℕ)
        → IsVerified cache
        → IsRight auth (lookup_prefix verify_key get_by_prefix prefix cache auth now)
    lookup_prefix-IsRight none cache auth now v = (v, λ key e. cc)
    lookup_prefix-IsRight (some prefix) cache auth now v = go (get_by_prefix prefix)
      where
        go :
            (r : Result String (List ApiKey))
            → IsRight auth (accept_candidates verify_key r cache auth now)
        go (err e) = (v, λ key x. cc)
        go (ok ks) =
            accept_found-IsRight (find_key verify_key auth ks) cache auth now v
              (λ key h. find_key-verified auth ks key h)

    try_cached-IsRight :
        (found : Option ApiKey) (cache : Cache) (auth : String) (now now' : ℕ)
        → IsVerified cache
        → Dict.get auth cache ≡ found
        → IsRight auth (try_cached verify_key get_by_prefix found cache auth now now')
    unfolding lookup
    try_cached-IsRight none cache auth now now' v h =
        lookup_prefix-IsRight (extract_prefix auth) cache auth now' v
    try_cached-IsRight (some key) cache auth now now' v h =
        go (not key.disabled && live key.expires_at now) refl
      where
        go :
            (b : Bool)
            → (not key.disabled && live key.expires_at now) ≡ b
            → IsRight auth (
                if b
                then (cache, admitted key)
                else lookup verify_key get_by_prefix cache auth now')
        go false e = lookup_prefix-IsRight (extract_prefix auth) cache auth now' v
        go true e = (
          v,
          λ k x.
              let same : key ≡ k = cc x in
              subst (λ y. Good cache auth y) same (v.verified auth key h, ground (arith, e), h),
        )

    -- If every cached key was verified for its token, a request with a token leaves it so, and a key
    -- that it is admitted with was verified for that token, is not disabled as far as the gateway
    -- remembers, and is in the cache afterwards.
    pub admitted_was_verified :
        (cache : Cache) (header auth : String) (now now' : ℕ)
        → IsVerified cache
        → extract_token header ≡ some auth
        → IsRight auth (api_key_auth verify_key get_by_prefix cache (some header) now now')
    unfolding api_key_auth
    admitted_was_verified cache header auth now now' v token =
        subst (λ o. IsRight auth (with_token verify_key get_by_prefix o cache now now')) (sym token)
          (try_cached-IsRight (Dict.get auth cache) cache auth now now' v refl)

    pub cached_admitted :
        (cache : Cache) (header auth : String) (now now' : ℕ) (key : ApiKey)
        → extract_token header ≡ some auth
        → Dict.get auth cache ≡ some key
        → key.disabled ≡ false
        → live key.expires_at now ≡ true
        → api_key_auth verify_key get_by_prefix cache (some header) now now' ≡ (cache, admitted key)
    unfolding api_key_auth
    cached_admitted cache header auth now now' key token found enabled alive =
        ap (λ o. with_token verify_key get_by_prefix o cache now now') token
        ∙ ap (λ o. try_cached verify_key get_by_prefix o cache auth now now') found
        ∙ rw (enabled, alive) refl

    -- A token that is not cached and has fewer bytes than `sk-godwit-` makes the middleware panic.
    pub short_token_panics :
        (cache : Cache) (header auth : String) (now now' : ℕ)
        → extract_token header ≡ some auth
        → Dict.get auth cache ≡ none
        → len auth < 10
        → api_key_auth verify_key get_by_prefix cache (some header) now now' ≡ (cache, panicked)
    unfolding api_key_auth lookup
    short_token_panics cache header auth now now' token missing short =
        ap (λ o. with_token verify_key get_by_prefix o cache now now') token
        ∙ ap (λ o. try_cached verify_key get_by_prefix o cache auth now now') missing
        ∙ ap (λ o. lookup_prefix verify_key get_by_prefix o cache auth now') (no_prefix auth short)
