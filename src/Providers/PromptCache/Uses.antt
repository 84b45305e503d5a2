-- ===== src/Providers/PromptCache/Uses.antt =====
-- The history of the uses of a cache, and the order of its queue.
use mathlib.Core.Path.{subst}
use godwit.Base.{
  ℕ, ◌≡◌, inl, inr, refl, sym, Bool, true, false, Bool-cases, not, ◌&&◌, ◌||◌, leb, ltb, Option,
  none, some, List, [], ◌∷◌, ◌++◌, KeyEq, ◌==◌, length, if◌then◌else◌, arith,
}
use godwit.Base.Dict
use godwit.Base.Dict.{Dict}
use godwit.Providers.PromptCache.{
  CacheEntry, PromptCache, cached, dequeue, update_lru_access, evict_from, evict_lru, make_room,
  insert_with_ttl, get, get_entry, contains_key, contains_entry, remove, clear, evict_expired,
}
use godwit.Providers.PromptCache.Evict.{queued, queued-append}
use godwit.Providers.PromptCache.Calls.{
  Call, put, look, has, discard, wipe, expire, perform, perform_all,
}

or_swap : (a b : Bool) → (a || b) ≡ true → (b || a) ≡ true
or_swap a b h = ground arith

module _ {K : Type 0} ⦃key_eq : KeyEq K⦄ where
  -- The uses after the last one of a key.
  pub since : K → List K → List K
  since j [] = []
  since j (k ∷ ks) = let rest = since j ks in if k == j then [] else k ∷ rest

  -- Each key of a queue was used after those before it.
  abbrev pub Ordered : List K → List K → Type 0
  Ordered h [] = Unit
  Ordered h (j ∷ js) = ((k : K) → queued k js ≡ true → queued k (since j h) ≡ true) × Ordered h js

  since_self : (j : K) (h : List K) → queued j (since j h) ≡ false
  unfolding queued since
  since_self j [] = refl
  since_self j (k ∷ ks) = elim (Bool-cases (k == j)) [
    | inl hit ↦ rw hit refl
    | inr miss ↦ rw miss (rw miss (since_self j ks))
  ]

  queued-since :
      (key j k : K) (h : List K)
      → key == j ≡ false
      → (queued k (since j h) || key == k) ≡ true
      → queued k (since j (key ∷ h)) ≡ true
  unfolding queued since
  queued-since key j k h other q = rw other (or_swap (queued k (since j h)) (key == k) q)

  dequeue-sub : (key k : K) (js : List K) → queued k (dequeue key js) ≡ true → queued k js ≡ true
  unfolding dequeue queued
  dequeue-sub key k [] h = h
  dequeue-sub key k (j ∷ js) h = ground (arith, dequeue-sub key k js, h)

  -- A later place is still later when a use of another key is added.
  later_still :
      (key j k : K) (h js ks : List K)
      → key == j ≡ false
      → ((i : K) → queued i js ≡ true → queued i (since j h) ≡ true)
      → (queued k ks ≡ true → queued k js ≡ true)
      → queued k (ks ++ (key ∷ [])) ≡ true
      → queued k (since j (key ∷ h)) ≡ true
  later_still key j k h js ks other before sub q =
      queued-since key j k h other (ground (arith, queued-append k key ks, before k, sub, q))

  snoc-Ordered :
      (key : K) (h js : List K)
      → Ordered h js
      → queued key js ≡ false
      → Ordered (key ∷ h) (js ++ (key ∷ []))
  unfolding queued
  snoc-Ordered key h [] o new = (λ k q. cc, tt)
  snoc-Ordered key h (j ∷ js) (before, o) new = (
    λ k q.
        later_still key j k h js js
          (ground (arith, key_eq.same_iff key j, key_eq.same_iff j key, new)) before (λ s. s) q,
    snoc-Ordered key h js o (ground (arith, new)),
  )

  touch-Ordered :
      (key : K) (h js : List K) → Ordered h js → Ordered (key ∷ h) (dequeue key js ++ (key ∷ []))
  unfolding dequeue queued
  touch-Ordered key h [] o = snoc-Ordered key h [] o refl
  touch-Ordered key h (j ∷ js) (before, o) = elim (Bool-cases (j == key)) [
    | inl hit ↦
        let same : j ≡ key = (key_eq.same_iff j key).0 hit in
        rw hit (
          snoc-Ordered key h js o (
            ground (
              arith,
              before key,
              since_self j h,
              subst (λ i. queued i (since j h) ≡ false) same (since_self j h),
            )))
    | inr miss ↦ rw miss (
      λ k q.
          later_still key j k h js (dequeue key js)
            (ground (arith, key_eq.same_iff key j, key_eq.same_iff j key, miss)) before
            (dequeue-sub key k js) q,
      touch-Ordered key h js o,
    )
  ]

module _ {K V : Type 0} ⦃key_eq : KeyEq K⦄ where
  -- A look that finds an entry that has not expired uses its key.
  abbrev found : Option (CacheEntry V) → ℕ → K → List K
  found none now key = []
  found (some entry) now key = if ltb entry.expires_at now then [] else key ∷ []

  -- The key that a call uses.
  abbrev touched : PromptCache K V → Call K V → List K
  touched c (put now key value ttl) = key ∷ []
  touched c (look now key) = found (Dict.get key c.cache) now key
  touched c (has now key) = []
  touched c (discard key) = []
  touched c wipe = []
  touched c (expire now) = []

  -- The keys that calls use, put before those used earlier: the newest comes first.
  abbrev pub uses : PromptCache K V → List (Call K V) → List K → List K
  uses c [] earlier = earlier
  uses c (x ∷ xs) earlier = uses (perform c x) xs (touched c x ++ earlier)

  evict_from-Ordered :
      (h js : List K) (m : Dict K (CacheEntry V)) → Ordered h js → Ordered h (evict_from js m).0
  unfolding evict_from
  evict_from-Ordered h [] m o = o
  evict_from-Ordered h (j ∷ js) m (before, o) = elim (Bool-cases (cached j m)) [
    | inl hit ↦ rw hit o
    | inr miss ↦ rw miss (evict_from-Ordered h js m o)
  ]

  make_room-Ordered :
      (h : List K) (c : PromptCache K V) (key : K)
      → Ordered h c.lru_order
      → Ordered h (make_room c key).lru_order
  unfolding evict_lru
  make_room-Ordered h c key o =
      elim (Bool-cases (not (cached key c.cache) && leb c.max_size (length c.cache))) [
        | inl full ↦ rw full (evict_from-Ordered h c.lru_order c.cache o)
        | inr room ↦ rw room o
      ]

  get_entry-Ordered :
      (o : Option (CacheEntry V)) (h : List K) (c : PromptCache K V) (now : ℕ) (key : K)
      → Ordered h c.lru_order
      → Ordered (found o now key ++ h) (get_entry o c now key).0.lru_order
  unfolding update_lru_access
  get_entry-Ordered none h c now key o = o
  get_entry-Ordered (some entry) h c now key o = elim (Bool-cases (ltb entry.expires_at now)) [
    | inl old ↦ rw old o
    | inr fresh ↦ rw fresh (touch-Ordered key h c.lru_order o)
  ]

  contains_entry-lru_order :
      (o : Option (CacheEntry V)) (c : PromptCache K V) (now : ℕ) (key : K)
      → (contains_entry o c now key).0.lru_order ≡ c.lru_order
  contains_entry-lru_order none c now key = refl
  contains_entry-lru_order (some entry) c now key = elim (Bool-cases (leb now entry.expires_at)) [
    | inl fresh ↦ rw fresh refl
    | inr old ↦ rw old refl
  ]

  perform-Ordered :
      (h : List K) (c : PromptCache K V) (x : Call K V)
      → Ordered h c.lru_order
      → Ordered (touched c x ++ h) (perform c x).lru_order
  unfolding perform insert_with_ttl update_lru_access get contains_key remove clear evict_expired
  perform-Ordered h c (put now key value ttl) o =
      touch-Ordered key h (make_room c key).lru_order (make_room-Ordered h c key o)
  perform-Ordered h c (look now key) o = get_entry-Ordered (Dict.get key c.cache) h c now key o
  perform-Ordered h c (has now key) o =
      subst (Ordered h) (sym (contains_entry-lru_order (Dict.get key c.cache) c now key)) o
  perform-Ordered h c (discard key) o = o
  perform-Ordered h c wipe o = tt
  perform-Ordered h c (expire now) o = o

  pub perform_all-Ordered :
      (c : PromptCache K V) (xs : List (Call K V)) (h : List K)
      → Ordered h c.lru_order
      → Ordered (uses c xs h) (perform_all c xs).lru_order
  unfolding perform_all
  perform_all-Ordered c [] h o = o
  perform_all-Ordered c (x ∷ xs) h o =
      perform_all-Ordered (perform c x) xs (touched c x ++ h) (perform-Ordered h c x o)
