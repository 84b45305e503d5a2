-- ===== src/Providers/PromptCache/Evict.antt =====
-- The queue of a prompt cache, and what an eviction does to it and to the cache.
use godwit.Base.{
  ◌+◌, ◌≤◌, ◌<◌, ◌≡◌, ◌⊎◌, refl, ap, ◌∙◌, Bool, true, false, ◌||◌, Option, none, some, List, [],
  ◌∷◌, ◌++◌, KeyEq, ◌==◌, length, is_some, if◌then◌else◌, arith,
}
use godwit.Base.Dict
use godwit.Base.Dict.{Dict, get-insert, get-remove}
use godwit.Providers.PromptCache.{
  CacheEntry, PromptCache, cached, dequeue, update_lru_access, evict_from,
}

is_some-if :
    {A : Type 0} (b : Bool) (o p : Option A)
    → is_some (if b then o else p) ≡ (if b then is_some o else is_some p)
is_some-if true o p = refl
is_some-if false o p = refl

module _ {K : Type 0} ⦃e : KeyEq K⦄ where
  unfoldable pub queued : K → List K → Bool
  queued k [] = false
  queued k (j ∷ js) = j == k || queued k js

  pub queued-append : (k j : K) (js : List K) → queued k (js ++ (j ∷ [])) ≡ (queued k js || j == k)
  unfolding queued
  queued-append k j [] = ground arith
  queued-append k j (i ∷ js) = ground (arith, queued-append k j js)

  pub queued-dequeue :
      (k j : K) (js : List K)
      → queued k js ≡ true
      → (queued k (dequeue j js) ≡ true) ⊎ ((j == k) ≡ true)
  unfolding queued dequeue
  queued-dequeue k j [] h = cc
  queued-dequeue k j (i ∷ js) h =
      ground (arith, e.same_iff i j, e.same_iff i k, e.same_iff j k, queued-dequeue k j js)

module _ {K V : Type 0} ⦃e : KeyEq K⦄ where
  -- Touching a key puts it in the queue, and keeps the others there.
  pub queued-touch :
      (c : PromptCache K V) (j k : K)
      → (queued k c.lru_order || j == k) ≡ true
      → queued k (update_lru_access c j).lru_order ≡ true
  unfolding update_lru_access
  queued-touch c j k h =
      ground (arith, queued-append k j (dequeue j c.lru_order), queued-dequeue k j c.lru_order)

  pub length-remove :
      (k : K) (m : Dict K (CacheEntry V))
      → (length (Dict.remove k m) ≤ length m)
        × (cached k m ≡ true → length (Dict.remove k m) < length m)
  unfolding Dict.get Dict.remove
  length-remove k [] = (omega arith, λ h. ground arith)
  length-remove k ((j, v) ∷ m) = let ih = length-remove k m in ground arith

  pub length-insert :
      (k : K) (v : CacheEntry V) (m : Dict K (CacheEntry V))
      → length (Dict.insert k v m) ≤ length m + 1
  unfolding Dict.insert
  length-insert k v [] = omega arith
  length-insert k v ((j, w) ∷ m) = let ih = length-insert k v m in ground arith

  pub cached-remove :
      (j k : K) (m : Dict K (CacheEntry V))
      → cached k (Dict.remove j m) ≡ (if j == k then false else cached k m)
  cached-remove j k m = ap is_some (get-remove j k m) ∙ is_some-if (j == k) none (Dict.get k m)

  pub cached-insert :
      (j k : K) (v : CacheEntry V) (m : Dict K (CacheEntry V))
      → cached k (Dict.insert j v m) ≡ (if j == k then true else cached k m)
  cached-insert j k v m =
      ap is_some (get-insert j k v m) ∙ is_some-if (j == k) (some v) (Dict.get k m)

  pub evict_from-sub :
      (keys : List K) (m : Dict K (CacheEntry V)) (k : K)
      → cached k (evict_from keys m).1 ≡ true
      → cached k m ≡ true
  unfolding evict_from
  evict_from-sub [] m k h = h
  evict_from-sub (j ∷ js) m k h = ground (arith, evict_from-sub js m k, cached-remove j k m)

  -- A key that stays cached stays in the queue.
  pub evict_from-queued :
      (keys : List K) (m : Dict K (CacheEntry V)) (k : K)
      → cached k (evict_from keys m).1 ≡ true
      → queued k keys ≡ true
      → queued k (evict_from keys m).0 ≡ true
  unfolding evict_from queued
  evict_from-queued [] m k h q = q
  evict_from-queued (j ∷ js) m k h q =
      ground (
        arith,
        evict_from-queued js m k,
        evict_from-sub js m k,
        cached-remove j k m,
        e.same_iff j k,
      )

  -- If the queue has a key that is cached, the cache shrinks.
  pub evict_from-shrinks :
      (keys : List K) (m : Dict K (CacheEntry V)) (k : K)
      → cached k m ≡ true
      → queued k keys ≡ true
      → length (evict_from keys m).1 < length m
  unfolding evict_from queued
  evict_from-shrinks [] m k h q = cc
  evict_from-shrinks (j ∷ js) m k h q =
      ground (arith, evict_from-shrinks js m k, (length-remove j m).1, e.same_iff j k)
