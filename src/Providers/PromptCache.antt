-- ===== src/Providers/PromptCache.antt =====
-- `PromptCache` of crates/godwit-providers/src/prompt_cache.rs.
--
-- The `DashMap` is a map and the `VecDeque` under its mutex a list. An `Instant` and a `Duration` are
-- numbers of nanoseconds; each operation that reads the clock takes the reading.
pub mod Evict
pub mod Bounds
pub mod Calls
pub mod Entries
pub mod Leak
pub mod Recency
pub mod Uses
mod Tests
use godwit.Base.{
  ℕ, suc, ◌+◌, ◌*◌, Bool, true, false, not, ◌&&◌, Option, none, some, List, [], ◌∷◌, ◌++◌, KeyEq,
  ◌==◌, length, leb, ltb, if◌then◌else◌, is_some,
}
use godwit.Base.Dict
use godwit.Base.Dict.{Dict}

pub record CacheEntry (V : Type 0) : Type 0 where
  pub value : V
  pub expires_at : ℕ

pub record PromptCache (K V : Type 0) : Type 0 where
  pub cache : Dict K (CacheEntry V)
  pub lru_order : List K
  pub max_size : ℕ
  pub default_ttl : ℕ

abbrev pub value_of : {V : Type 0} → Option (CacheEntry V) → Option V
value_of none = none
value_of (some entry) = some entry.value

module _ {K : Type 0} ⦃e : KeyEq K⦄ where
  -- The queue without the first place of a key.
  pub dequeue : K → List K → List K
  dequeue k [] = []
  dequeue k (j ∷ js) = let rest = dequeue k js in if j == k then js else j ∷ rest

module _ {K V : Type 0} ⦃e : KeyEq K⦄ where
  pub with_config : ℕ → ℕ → PromptCache K V
  with_config max_size default_ttl = record {
    cache = Dict.empty;
    lru_order = [];
    max_size = max_size;
    default_ttl = default_ttl;
  }

  -- 3600 seconds.
  unfoldable pub new : PromptCache K V
  unfolding with_config
  new = with_config 10_000 3_600_000_000_000

  -- `DashMap::contains_key`
  abbrev pub cached : K → Dict K (CacheEntry V) → Bool
  cached k m = is_some (Dict.get k m)

  pub update_lru_access : PromptCache K V → K → PromptCache K V
  unfolding dequeue
  update_lru_access c key = record c { lru_order = dequeue key c.lru_order ++ (key ∷ []) }

  -- The `while let` of `evict_lru`.
  pub evict_from : List K → Dict K (CacheEntry V) → List K × Dict K (CacheEntry V)
  evict_from [] m = ([], m)
  evict_from (key ∷ keys) m =
      let rest = evict_from keys m in if cached key m then (keys, Dict.remove key m) else rest

  pub evict_lru : PromptCache K V → PromptCache K V
  unfolding evict_from
  evict_lru c =
      let (lru, m) = evict_from c.lru_order c.cache in record c { cache = m; lru_order = lru }

  abbrev pub make_room : PromptCache K V → K → PromptCache K V
  make_room c key =
      if not (cached key c.cache) && leb c.max_size (length c.cache) then evict_lru c else c

  pub insert_with_ttl : PromptCache K V → ℕ → K → V → ℕ → PromptCache K V
  unfolding evict_lru update_lru_access
  insert_with_ttl c now key value ttl =
      let c' = make_room c key in
      let entry : CacheEntry V = record { value = value; expires_at = now + ttl } in
      update_lru_access (record c' { cache = Dict.insert key entry (Dict.remove key c'.cache) }) key

  pub insert : PromptCache K V → ℕ → K → V → PromptCache K V
  unfolding insert_with_ttl
  insert c now key value = insert_with_ttl c now key value c.default_ttl

  abbrev pub get_entry :
      Option (CacheEntry V) → PromptCache K V → ℕ → K → PromptCache K V × Option V
  get_entry none c now key = (c, none)
  get_entry (some entry) c now key =
      if ltb entry.expires_at now
      then (record c { cache = Dict.remove key c.cache }, none)
      else (update_lru_access c key, some entry.value)

  pub get : PromptCache K V → ℕ → K → PromptCache K V × Option V
  unfolding update_lru_access
  get c now key = get_entry (Dict.get key c.cache) c now key

  abbrev pub contains_entry :
      Option (CacheEntry V) → PromptCache K V → ℕ → K → PromptCache K V × Bool
  contains_entry none c now key = (c, false)
  contains_entry (some entry) c now key =
      if leb now entry.expires_at
      then (c, true)
      else (record c { cache = Dict.remove key c.cache }, false)

  pub contains_key : PromptCache K V → ℕ → K → PromptCache K V × Bool
  contains_key c now key = contains_entry (Dict.get key c.cache) c now key

  pub remove : PromptCache K V → K → PromptCache K V × Option V
  remove c key = (record c { cache = Dict.remove key c.cache }, value_of (Dict.get key c.cache))

  abbrev pub len : PromptCache K V → ℕ
  len c = length c.cache

  pub clear : PromptCache K V → PromptCache K V
  clear c = record c { cache = Dict.empty; lru_order = [] }

  -- `keys_to_evict`
  pub expired_keys : Dict K (CacheEntry V) → ℕ → List K
  expired_keys [] now = []
  expired_keys ((key, entry) ∷ m) now =
      let rest = expired_keys m now in if ltb entry.expires_at now then key ∷ rest else rest

  pub remove_all : List K → Dict K (CacheEntry V) → Dict K (CacheEntry V)
  remove_all [] m = m
  remove_all (key ∷ keys) m = remove_all keys (Dict.remove key m)

  pub evict_expired : PromptCache K V → ℕ → PromptCache K V × ℕ
  unfolding expired_keys remove_all
  evict_expired c now =
      let keys = expired_keys c.cache now in
      (record c { cache = remove_all keys c.cache }, length keys)
