-- ===== src/Providers/PromptCache/Entries.antt =====
-- What a cache answers after an insertion, and which entry an insertion evicts.
use godwit.Base.{
  ℕ, ◌+◌, ◌≡◌, refl, ◌∙◌, Bool, false, Bool-cases, inl, inr, not, ◌&&◌, leb, Option, none, some,
  List, [], ◌∷◌, KeyEq, ◌==◌, length, if◌then◌else◌,
}
use godwit.Base.Dict
use godwit.Base.Dict.{Dict, get-insert, get-remove}
use godwit.Providers.PromptCache.{
  CacheEntry, PromptCache, cached, update_lru_access, evict_from, evict_lru, make_room,
  insert_with_ttl, get,
}

abbrev pub is_victim : {K : Type 0} ⦃e : KeyEq K⦄ → Option K → K → Bool
is_victim none k = false
is_victim (some j) k = j == k

module _ {K V : Type 0} ⦃e : KeyEq K⦄ where
  -- The first key of a queue that is cached.
  unfoldable pub oldest : List K → Dict K (CacheEntry V) → Option K
  oldest [] m = none
  oldest (k ∷ ks) m = let rest = oldest ks m in if cached k m then some k else rest

  -- The key that an insertion of another one evicts.
  abbrev pub victim : PromptCache K V → K → Option K
  victim c key =
      if not (cached key c.cache) && leb c.max_size (length c.cache)
      then oldest c.lru_order c.cache
      else none

  get-evict_from :
      (keys : List K) (m : Dict K (CacheEntry V)) (k : K)
      → Dict.get k (evict_from keys m).1
        ≡ (if is_victim (oldest keys m) k then none else Dict.get k m)
  unfolding evict_from oldest
  get-evict_from [] m k = refl
  get-evict_from (j ∷ js) m k = elim (Bool-cases (cached j m)) [
    | inl hit ↦ rw hit (get-remove j k m)
    | inr miss ↦ rw miss (get-evict_from js m k)
  ]

  get-make_room :
      (c : PromptCache K V) (key k : K)
      → Dict.get k (make_room c key).cache
        ≡ (if is_victim (victim c key) k then none else Dict.get k c.cache)
  unfolding evict_lru
  get-make_room c key k =
      elim (Bool-cases (not (cached key c.cache) && leb c.max_size (length c.cache))) [
        | inl full ↦ rw full (get-evict_from c.lru_order c.cache k)
        | inr room ↦ rw room refl
      ]

  -- An insertion writes the entry of its key, evicts the first cached key of the queue if the key is new
  -- and the cache is full, and leaves every other entry as it is.
  pub insertion_evicts_oldest :
      (c : PromptCache K V) (now : ℕ) (key : K) (value : V) (ttl : ℕ) (k : K)
      → Dict.get k (insert_with_ttl c now key value ttl).cache ≡ (
          if key == k
          then some (record { value = value; expires_at = now + ttl })
          else if is_victim (victim c key) k
          then none
          else Dict.get k c.cache)
  unfolding insert_with_ttl update_lru_access
  insertion_evicts_oldest c now key value ttl k =
      let entry : CacheEntry V = record { value = value; expires_at = now + ttl } in
      let m = (make_room c key).cache in
      get-insert key k entry (Dict.remove key m) ∙ elim (Bool-cases (key == k)) [
        | inl same ↦ rw same refl
        | inr other ↦ rw other (get-remove key k m ∙ rw other (get-make_room c key k))
      ]
