-- ===== src/Providers/PromptCache/Calls.antt =====
-- Any sequence of calls on a cache.
use godwit.Base.{ℕ, List, [], ◌∷◌, KeyEq, arith}
use godwit.Base.Dict
use godwit.Providers.PromptCache.{
  PromptCache, with_config, insert_with_ttl, get, contains_key, remove, clear, evict_expired,
  expired_keys,
}
use godwit.Providers.PromptCache.Bounds.{
  IsWellFormed, insert_with_ttl-IsWellFormed, get-IsWellFormed, contains_key-IsWellFormed,
  remove-IsWellFormed, remove_all-IsWellFormed, clear-IsWellFormed,
}

-- A call with its reading of the clock; an insertion with the default duration is one with that
-- duration.
pub data Call (K V : Type 0) : Type 0 where
  put : ℕ → K → V → ℕ → Call K V
  look : ℕ → K → Call K V
  has : ℕ → K → Call K V
  discard : K → Call K V
  wipe : Call K V
  expire : ℕ → Call K V

module _ {K V : Type 0} ⦃e : KeyEq K⦄ where
  unfoldable pub perform : PromptCache K V → Call K V → PromptCache K V
  perform c (put now key value ttl) = insert_with_ttl c now key value ttl
  perform c (look now key) = (get c now key).0
  perform c (has now key) = (contains_key c now key).0
  perform c (discard key) = (remove c key).0
  perform c wipe = clear c
  perform c (expire now) = (evict_expired c now).0

  unfoldable pub perform_all : PromptCache K V → List (Call K V) → PromptCache K V
  perform_all c [] = c
  perform_all c (x ∷ xs) = perform_all (perform c x) xs

  pub with_config-IsWellFormed :
      (max_size ttl : ℕ) → IsWellFormed {K = K} {V = V} (with_config max_size ttl)
  unfolding with_config Dict.get
  with_config-IsWellFormed max_size ttl = record { bounded = omega arith; tracked = λ k h. cc }

  perform-IsWellFormed :
      (c : PromptCache K V) (x : Call K V) → IsWellFormed c → IsWellFormed (perform c x)
  unfolding perform remove evict_expired
  perform-IsWellFormed c (put now key value ttl) w =
      insert_with_ttl-IsWellFormed c now key value ttl w
  perform-IsWellFormed c (look now key) w = get-IsWellFormed c now key w
  perform-IsWellFormed c (has now key) w = contains_key-IsWellFormed c now key w
  perform-IsWellFormed c (discard key) w = remove-IsWellFormed c key w
  perform-IsWellFormed c wipe w = clear-IsWellFormed c
  perform-IsWellFormed c (expire now) w = remove_all-IsWellFormed (expired_keys c.cache now) c w

  -- After any calls at any times, a cache that was within its size and whose queue had all its keys
  -- is so still; a size of 0 counts as 1.
  pub cache_stays_bounded :
      (c : PromptCache K V) (xs : List (Call K V))
      → IsWellFormed c
      → IsWellFormed (perform_all c xs)
  unfolding perform_all
  cache_stays_bounded c [] w = w
  cache_stays_bounded c (x ∷ xs) w =
      cache_stays_bounded (perform c x) xs (perform-IsWellFormed c x w)
