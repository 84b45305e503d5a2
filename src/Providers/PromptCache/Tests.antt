-- ===== src/Providers/PromptCache/Tests.antt =====
-- The tests of prompt_cache.rs, and instances of the theorems.
use godwit.Base.{ℕ, ◌≡◌, refl, List, [], ◌∷◌, String, nat_key, arith}
use godwit.Base.Dict
use godwit.Providers.PromptCache.{
  PromptCache, with_config, insert_with_ttl, update_lru_access, dequeue, evict_lru, evict_from, get,
}
use godwit.Providers.PromptCache.Bounds.{IsWellFormed}
use godwit.Providers.PromptCache.Calls.{
  Call, put, look, discard, expire, perform, perform_all, cache_stays_bounded,
}
use godwit.Providers.PromptCache.Uses.{uses}
use godwit.Providers.PromptCache.Recency.{Evicts, insertion-Evicts_least_recent}

abbrev empty_cache : PromptCache ℕ String
empty_cache = record { cache = []; lru_order = []; max_size = 3; default_ttl = 100 }

-- Keys 1, 2 and 3 are inserted and 1 is used; key 2 is the oldest.
abbrev full_cache : PromptCache ℕ String
full_cache = record {
  cache =
      (1, record { value = "a"; expires_at = 100 })
      ∷ (2, record { value = "b"; expires_at = 100 })
      ∷ (3, record { value = "c"; expires_at = 100 })
      ∷ [];
  lru_order = 2 ∷ 3 ∷ 1 ∷ [];
  max_size = 3;
  default_ttl = 100;
}

filled :
    perform_all empty_cache (put 0 1 "a" 100 ∷ put 0 2 "b" 100 ∷ put 0 3 "c" 100 ∷ look 5 1 ∷ [])
    ≡ full_cache
unfolding perform_all perform insert_with_ttl update_lru_access dequeue evict_lru evict_from get
    Dict.get Dict.insert Dict.remove
filled = refl

empty_cache-IsWellFormed : IsWellFormed empty_cache
unfolding Dict.get
empty_cache-IsWellFormed = record { bounded = omega arith; tracked = λ k h. cc }

cache_stays_bounded_example :
    IsWellFormed
      (perform_all empty_cache (put 0 1 "a" 100 ∷ discard 1 ∷ put 2 1 "b" 5 ∷ expire 90 ∷ []))
cache_stays_bounded_example =
    cache_stays_bounded empty_cache (put 0 1 "a" 100 ∷ discard 1 ∷ put 2 1 "b" 5 ∷ expire 90 ∷ [])
      empty_cache-IsWellFormed

-- Keys 1 and 2 are inserted and 1 is found: key 2 is evicted for key 3.
abbrev history : List (Call ℕ String)
history = put 0 1 "a" 100 ∷ put 1 2 "b" 100 ∷ look 5 1 ∷ []

history-uses : uses (with_config 2 100) history [] ≡ 1 ∷ 2 ∷ 1 ∷ []
unfolding perform insert_with_ttl update_lru_access dequeue evict_lru evict_from get with_config
    Dict.get Dict.insert Dict.remove
history-uses = refl

insertion-Evicts_least_recent_example :
    Evicts
      (uses (with_config 2 100) history [])
      (perform_all (with_config 2 100) history)
      (insert_with_ttl (perform_all (with_config 2 100) history) 6 3 "c" 100)
      3
insertion-Evicts_least_recent_example = insertion-Evicts_least_recent 2 100 history 6 3 "c" 100
