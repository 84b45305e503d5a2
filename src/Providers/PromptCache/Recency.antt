-- ===== src/Providers/PromptCache/Recency.antt =====
-- Which entry an insertion evicts, by the history of the uses of a cache.
use mathlib.Core.Path.{subst}
use godwit.Base.{
  ℕ, ◌<◌, ◌≤◌, ◌≡◌, ◌⊎◌, inl, inr, refl, ◌∙◌, Bool, true, false, Bool-cases, ◌||◌, leb, ltb, Option,
  none, some, List, [], ◌∷◌, KeyEq, ◌==◌, ==-refl, length, if◌then◌else◌, arith,
}
use godwit.Base.Dict
use godwit.Base.Dict.{Dict}
use godwit.Providers.PromptCache.{CacheEntry, PromptCache, cached, insert_with_ttl, with_config}
use godwit.Providers.PromptCache.Evict.{queued}
use godwit.Providers.PromptCache.Bounds.{IsWellFormed, some_cached}
use godwit.Providers.PromptCache.Calls.{
  Call, perform_all, cache_stays_bounded, with_config-IsWellFormed,
}
use godwit.Providers.PromptCache.Uses.{uses, since, Ordered, perform_all-Ordered}
use godwit.Providers.PromptCache.Entries.{oldest, victim, is_victim, insertion_evicts_oldest}

module _ {K V : Type 0} ⦃key_eq : KeyEq K⦄ where
  oldest_lem :
      (h js : List K) (m : Dict K (CacheEntry V))
      → Ordered h js
      → ((oldest js m ≡ none) × ((k : K) → queued k js ≡ true → cached k m ≡ false))
        ⊎ ((j : K) × (oldest js m ≡ some j)
            × (cached j m ≡ true)
            × ((k : K)
                → queued k js ≡ true
                → cached k m ≡ true
                → j == k ≡ false
                → queued k (since j h) ≡ true))
  unfolding oldest queued
  oldest_lem h [] m o = inl (refl, λ k q. cc)
  oldest_lem h (i ∷ js) m (before, o) = elim (Bool-cases (cached i m)) [
    | inl hit ↦ inr (i, rw hit refl, hit, λ k q c other. before k (ground (arith, q, other)))
    | inr miss ↦ rw miss (elim (oldest_lem h js m o) [
      | inl (e, absent) ↦ inl (e, λ k q. not_cached k miss (absent k) q)
      | inr (j, e, hit, later) ↦
          inr (j, e, hit, λ k q c other. later k (still_queued k miss q c) c other)
    ])
  ]
    where
      not_cached :
          (k : K)
          → cached i m ≡ false
          → (queued k js ≡ true → cached k m ≡ false)
          → (i == k || queued k js) ≡ true
          → cached k m ≡ false
      not_cached k miss absent q = elim (Bool-cases (i == k)) [
        | inl same ↦ subst (λ i'. cached i' m ≡ false) ((key_eq.same_iff i k).0 same) miss
        | inr other ↦ absent (ground (arith, other, q))
      ]

      still_queued :
          (k : K)
          → cached i m ≡ false
          → (i == k || queued k js) ≡ true
          → cached k m ≡ true
          → queued k js ≡ true
      still_queued k miss q hit = elim (Bool-cases (i == k)) [
        | inl same ↦
            let miss' = subst (λ i'. cached i' m ≡ false) ((key_eq.same_iff i k).0 same) miss in
            absurd (cc (miss', hit))
        | inr other ↦ ground (arith, other, q)
      ]

  -- The entries of a cache but for those of two keys are those of another.
  abbrev Keeps : PromptCache K V → PromptCache K V → K → K → Type 0
  Keeps c c' key j =
      (k : K) → key == k ≡ false → j == k ≡ false → Dict.get k c'.cache ≡ Dict.get k c.cache

  -- What an insertion of `key` that leads to `c'` evicts.
  abbrev pub Evicts : List K → PromptCache K V → PromptCache K V → K → Type 0
  Evicts h c c' key =
      (((cached key c.cache ≡ true) ⊎ (length c.cache < c.max_size)) × Keeps c c' key key)
      ⊎ ((cached key c.cache ≡ false)
          × (c.max_size ≤ length c.cache)
          × ((length c.cache ≡ 0)
              ⊎ ((j : K) × (cached j c.cache ≡ true)
                  × (cached j c'.cache ≡ false)
                  × ((k : K)
                      → cached k c.cache ≡ true
                      → j == k ≡ false
                      → queued k (since j h) ≡ true)
                  × Keeps c c' key j)))

  no_entries : (m : Dict K (CacheEntry V)) → ((k : K) → cached k m ≡ false) → length m ≡ 0
  no_entries m absent = elim (Bool-cases (ltb 0 (length m))) [
    | inl more ↦ let (k, hit) = some_cached m (ground arith) in absurd (cc (absent k, hit))
    | inr zero ↦ ground arith
  ]

  evicts :
      (h : List K) (c : PromptCache K V) (now : ℕ) (key : K) (value : V) (ttl : ℕ)
      → IsWellFormed c
      → Ordered h c.lru_order
      → Evicts h c (insert_with_ttl c now key value ttl) key
  evicts h c now key value ttl w o =
      go (cached key c.cache) (leb c.max_size (length c.cache)) refl refl
    where
      c' : PromptCache K V
      c' = insert_with_ttl c now key value ttl

      get_other :
          (v : Option K) (k : K)
          → victim c key ≡ v
          → key == k ≡ false
          → Dict.get k c'.cache ≡ (if is_victim v k then none else Dict.get k c.cache)
      get_other v k e other = insertion_evicts_oldest c now key value ttl k ∙ rw (other, e) refl

      by_oldest :
          cached key c.cache ≡ false → leb c.max_size (length c.cache) ≡ true → Evicts h c c' key
      by_oldest miss full = elim (oldest_lem h c.lru_order c.cache o) [
        | inl (e, absent) ↦ inr (
          miss,
          ground (arith, full),
          inl (
              no_entries c.cache (λ k. elim (Bool-cases (cached k c.cache)) [
                | inl hit ↦ absent k (w.tracked k hit)
                | inr none_there ↦ none_there
              ])),
        )
        | inr (j, e, hit, later) ↦
            let evicted : victim c key ≡ some j = rw (miss, full) e in
            let apart : key == j ≡ false = elim (Bool-cases (key == j)) [
              | inl same ↦
                  let miss' =
                    subst (λ i. cached i c.cache ≡ false) ((key_eq.same_iff key j).0 same) miss in
                  absurd (cc (miss', hit))
              | inr other ↦ other
            ] in
            inr (
              miss,
              ground (arith, full),
              inr (
                j,
                hit,
                rw (get_other (some j) j evicted apart, ==-refl j) refl,
                λ k c other. later k (w.tracked k c) c other,
                λ k other other'. get_other (some j) k evicted other ∙ rw other' refl,
              ),
            )
      ]

      go :
          (hit full : Bool)
          → cached key c.cache ≡ hit
          → leb c.max_size (length c.cache) ≡ full
          → Evicts h c c' key
      go true full h f = inl (inl h, λ k other other'. get_other none k (rw h refl) other)
      go false false h f =
          inl (inr (ground arith), λ k other other'. get_other none k (rw (h, f) refl) other)
      go false true h f = by_oldest h f

  -- After any calls on a new cache, an insertion writes no other entry, and evicts none if its key is
  -- cached or there is room. Else it evicts one, unless nothing is cached: the entry of a cached key
  -- such that every other cached key was inserted or found since the last such use of this one.
  pub insertion-Evicts_least_recent :
      (max_size default_ttl : ℕ) (xs : List (Call K V)) (now : ℕ) (key : K) (value : V) (ttl : ℕ)
      → let c = perform_all (with_config max_size default_ttl) xs in
        Evicts
          (uses (with_config max_size default_ttl) xs [])
          c
          (insert_with_ttl c now key value ttl)
          key
  unfolding with_config
  insertion-Evicts_least_recent max_size default_ttl xs now key value ttl =
      let c = with_config max_size default_ttl in
      evicts (uses c xs []) (perform_all c xs) now key value ttl
        (cache_stays_bounded c xs (with_config-IsWellFormed max_size default_ttl))
        (perform_all-Ordered c xs [] tt)
