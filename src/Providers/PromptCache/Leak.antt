-- ===== src/Providers/PromptCache/Leak.antt =====
-- The queue of a cache whose entries are removed.
use godwit.Base.{ℕ, ◌≡◌, false, List, [], ◌∷◌, ◌++◌, KeyEq}
use godwit.Base.Dict
use godwit.Providers.PromptCache.{PromptCache, insert_with_ttl, remove}
use godwit.Providers.PromptCache.Evict.{queued}

module _ {K : Type 0} ⦃e : KeyEq K⦄ where
  -- The keys are different from each other and from those of the queue.
  abbrev pub Fresh : List K → List K → Type 0
  Fresh [] queue = Unit
  Fresh (key ∷ keys) queue = (queued key queue ≡ false) × Fresh keys (queue ++ (key ∷ []))

module _ {K V : Type 0} ⦃e : KeyEq K⦄ where
  -- Each key in turn is inserted and removed.
  pub churn : PromptCache K V → ℕ → V → List K → PromptCache K V
  churn c now value [] = c
  churn c now value (key ∷ keys) =
      churn (remove (insert_with_ttl c now key value 0) key).0 now value keys
