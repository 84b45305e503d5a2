-- ===== src/Providers/PromptCache/Bounds.antt =====
-- The cache stays within its size, and its queue knows every key of it.
use godwit.Base.{
  ℕ, ◌+◌, ◌≤◌, ◌<◌, ◌≡◌, ◌⊎◌, inl, inr, refl, Bool, true, false, Bool-cases, not, ◌&&◌, leb, ltb,
  Option, none, some, List, [], ◌∷◌, KeyEq, length, max, if◌then◌else◌, arith,
}
use godwit.Base.Dict
use godwit.Base.Dict.{Dict, get-insert, get-remove}
use godwit.Providers.PromptCache.{
  CacheEntry, PromptCache, cached, get_entry, contains_entry, update_lru_access, evict_from,
  evict_lru, make_room, insert_with_ttl, get, contains_key, clear, remove_all,
}
use godwit.Providers.PromptCache.Evict.{
  queued, queued-touch, length-remove, length-insert, cached-remove, cached-insert, evict_from-sub,
  evict_from-queued, evict_from-shrinks,
}

module _ {K V : Type 0} ⦃e : KeyEq K⦄ where
  -- The cache is no larger than its size, and than 1 if that is 0, and its queue has every key of it.
  pub record IsWellFormed (c : PromptCache K V) : Type 0 where
    pub bounded : length c.cache ≤ max c.max_size 1
    pub tracked : (k : K) → cached k c.cache ≡ true → queued k c.lru_order ≡ true

  pub some_cached : (m : Dict K (CacheEntry V)) → 0 < length m → (k : K) × (cached k m ≡ true)
  unfolding Dict.get
  some_cached [] h = absurd (omega arith)
  some_cached ((k, v) ∷ m) h = (k, ground (arith, e.same_iff k k))

  evict_from-length :
      (keys : List K) (m : Dict K (CacheEntry V)) → length (evict_from keys m).1 ≤ length m
  unfolding evict_from
  evict_from-length [] m = omega arith
  evict_from-length (j ∷ js) m = ground (arith, evict_from-length js m, (length-remove j m).0)

  evict_lru-shrinks :
      (c : PromptCache K V) → IsWellFormed c → length (evict_lru c).cache < max c.max_size 1
  unfolding evict_lru
  evict_lru-shrinks c w =
      let bounded = w.bounded in
      elim (Bool-cases (ltb 0 (length c.cache))) [
        | inl some_entry ↦
            let (k, hit) = some_cached c.cache (ground arith) in
            omega (arith, evict_from-shrinks c.lru_order c.cache k hit (w.tracked k hit))
        | inr no_entry ↦
            let none_left : length c.cache ≡ 0 = ground arith in
            omega (arith, evict_from-length c.lru_order c.cache)
      ]

  evict_lru-IsWellFormed : (c : PromptCache K V) → IsWellFormed c → IsWellFormed (evict_lru c)
  unfolding evict_lru
  evict_lru-IsWellFormed c w = record {
    bounded = let bounded = w.bounded in omega (arith, evict_from-length c.lru_order c.cache);
    tracked = λ k h.
        evict_from-queued c.lru_order c.cache k h
          (w.tracked k (evict_from-sub c.lru_order c.cache k h));
  }

  -- There is room for the key afterwards, or it is cached already.
  make_room_lem :
      (c : PromptCache K V) (key : K)
      → IsWellFormed c
      → let c' = make_room c key in
        IsWellFormed c'
        × (c'.max_size ≡ c.max_size)
        × ((cached key c'.cache ≡ true) ⊎ (length c'.cache < max c.max_size 1))
  unfolding evict_lru
  make_room_lem c key w = go (cached key c.cache) (leb c.max_size (length c.cache)) refl refl
    where
      go :
          (hit full : Bool)
          → cached key c.cache ≡ hit
          → leb c.max_size (length c.cache) ≡ full
          → let c' = if not hit && full then evict_lru c else c in
            IsWellFormed c'
            × (c'.max_size ≡ c.max_size)
            × ((cached key c'.cache ≡ true) ⊎ (length c'.cache < max c.max_size 1))
      go true full h f = (w, refl, inl h)
      go false true h f = (evict_lru-IsWellFormed c w, refl, inr (evict_lru-shrinks c w))
      go false false h f = (w, refl, inr (ground arith))

  pub insert_with_ttl-IsWellFormed :
      (c : PromptCache K V) (now : ℕ) (key : K) (value : V) (ttl : ℕ)
      → IsWellFormed c
      → IsWellFormed (insert_with_ttl c now key value ttl)
  unfolding insert_with_ttl
  insert_with_ttl-IsWellFormed c now key value ttl w =
      let c' = make_room c key in
      let (w', same, room) = make_room_lem c key w in
      let entry : CacheEntry V = record { value = value; expires_at = now + ttl } in
      let m = Dict.insert key entry (Dict.remove key c'.cache) in
      let (le, lt) = length-remove key c'.cache in
      let bounded' = w'.bounded in
      record {
        bounded = elim room [
          | inl hit ↦
              let shrunk = lt hit in
              omega (arith, length-insert key entry (Dict.remove key c'.cache))
          | inr fits ↦ omega (arith, length-insert key entry (Dict.remove key c'.cache))
        ];
        tracked = λ k h.
            queued-touch (record c' { cache = m }) key k
              (ground (
                arith,
                cached-insert key k entry (Dict.remove key c'.cache),
                cached-remove key k c'.cache,
                w'.tracked k,
              ));
      }

  pub remove-IsWellFormed :
      (c : PromptCache K V) (key : K)
      → IsWellFormed c
      → IsWellFormed (record c { cache = Dict.remove key c.cache })
  remove-IsWellFormed c key w =
      let bounded = w.bounded in
      record {
        bounded = omega (arith, (length-remove key c.cache).0);
        tracked = λ k h. w.tracked k (ground (arith, cached-remove key k c.cache, h));
      }

  pub remove_all-IsWellFormed :
      (keys : List K) (c : PromptCache K V)
      → IsWellFormed c
      → IsWellFormed (record c { cache = remove_all keys c.cache })
  unfolding remove_all
  remove_all-IsWellFormed [] c w = w
  remove_all-IsWellFormed (key ∷ keys) c w =
      remove_all-IsWellFormed keys (record c { cache = Dict.remove key c.cache })
        (remove-IsWellFormed c key w)

  touch-IsWellFormed :
      (c : PromptCache K V) (key : K) → IsWellFormed c → IsWellFormed (update_lru_access c key)
  unfolding update_lru_access
  touch-IsWellFormed c key w = record {
    bounded = w.bounded;
    tracked = λ k h. queued-touch c key k (ground (arith, w.tracked k h));
  }

  pub get-IsWellFormed :
      (c : PromptCache K V) (now : ℕ) (key : K) → IsWellFormed c → IsWellFormed (get c now key).0
  unfolding get
  get-IsWellFormed c now key w = go (Dict.get key c.cache)
    where
      go : (found : Option (CacheEntry V)) → IsWellFormed (get_entry found c now key).0
      go none = w
      go (some entry) = elim (Bool-cases (ltb entry.expires_at now)) [
        | inl old ↦ rw old (remove-IsWellFormed c key w)
        | inr fresh ↦ rw fresh (touch-IsWellFormed c key w)
      ]

  pub contains_key-IsWellFormed :
      (c : PromptCache K V) (now : ℕ) (key : K)
      → IsWellFormed c
      → IsWellFormed (contains_key c now key).0
  unfolding contains_key
  contains_key-IsWellFormed c now key w = go (Dict.get key c.cache)
    where
      go : (found : Option (CacheEntry V)) → IsWellFormed (contains_entry found c now key).0
      go none = w
      go (some entry) = elim (Bool-cases (leb now entry.expires_at)) [
        | inl fresh ↦ rw fresh w
        | inr old ↦ rw old (remove-IsWellFormed c key w)
      ]

  pub clear-IsWellFormed : (c : PromptCache K V) → IsWellFormed (clear c)
  unfolding clear Dict.get
  clear-IsWellFormed c = record { bounded = omega arith; tracked = λ k h. cc }
