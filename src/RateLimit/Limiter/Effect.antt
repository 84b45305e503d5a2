-- ===== src/RateLimit/Limiter/Effect.antt =====
-- The two passes of `check_and_consume` together: what fits before them is debited once by them, and
-- a look at a bucket is not seen later.
use godwit.Base.{
  ℕ, zero, suc, ◌+◌, ◌≤◌, ◌<◌, ◌≡◌, ◌↔◌, refl, ◌∙◌, sym, ap, true, false, Option, none, some, List,
  [], ◌∷◌, arith, length,
}
use mathlib.Core.Path.{subst}
use godwit.Base.Int.{ℤ, pos, negsuc}
use godwit.RateLimit.Bucket.{TokenBucket, new, wait_for, debit}
use godwit.RateLimit.Limiter.{RateLimiter, Check, configured, entry_or_new, check_locked}
use godwit.RateLimit.Limiter.Settle.{
  seen, settle-settle, settle-new, settle-wait_for, check_locked-tentative, check_locked-debits,
}
use godwit.RateLimit.Limiter.Checked.{bucket, after, answer}
use godwit.RateLimit.Limiter.Pass.{Passed, AllNone}

-- The bucket of the check, if a limit is configured, holds the amount at time `t`.
abbrev pub Fits : RateLimiter → Check → ℕ → Type 0
Fits l c t =
    (limit : ℕ)
    → configured c.limit ≡ some limit
    → wait_for (seen (bucket l c) limit t) c.amount ≡ none

abbrev pub AllFit : (ℕ → ℕ) → ℕ → RateLimiter → List Check → Type 0
AllFit clock i l [] = Unit
AllFit clock i l (c ∷ cs) = Fits l c (clock i) × AllFit clock (suc i) l cs

-- The bucket of each check has lost the amount of the check, and nothing else, at its reading.
abbrev pub Debited : (ℕ → ℕ) → ℕ → RateLimiter → RateLimiter → List Check → Type 0
Debited clock i l l' [] = Unit
Debited clock i l l' (c ∷ cs) =
    ((limit : ℕ)
      → configured c.limit ≡ some limit
      → bucket l' c ≡ some (debit (seen (bucket l c) limit (clock i)) c.amount))
    × Debited clock (suc i) l l' cs

-- From `t` on, every configured check sees of its bucket what it saw before.
abbrev pub Unchanged : ℕ → RateLimiter → RateLimiter → List Check → Type 0
Unchanged t l l' [] = Unit
Unchanged t l l' (c ∷ cs) =
    ((limit : ℕ)
      → configured c.limit ≡ some limit
      → seen (bucket l' c) limit t ≡ seen (bucket l c) limit t)
    × Unchanged t l l' cs

-- No bucket was refilled after `t`.
pub record IsClocked (l : RateLimiter) (t : ℕ) : Type 0 where
  pub clocked : (c : Check) (b : TokenBucket) → bucket l c ≡ some b → b.last_refill ≤ t

pub configured-pos : (o : Option ℤ) (limit : ℕ) → configured o ≡ some limit → 0 < limit
configured-pos none limit h = cc
configured-pos (some (pos zero)) limit h = cc
configured-pos (some (pos (suc n))) limit h = ground arith
configured-pos (some (negsuc n)) limit h = cc

answer-none :
    (o : Option ℕ) (amount : ℕ) (b : Option TokenBucket) (t : ℕ)
    → (answer false o amount b t ≡ none)
      ↔ ((limit : ℕ) → o ≡ some limit → wait_for (seen b limit t) amount ≡ none)
answer-none none amount b t = (λ _ limit e. cc, λ _. refl)
answer-none (some n) amount b t =
    let q : (check_locked (entry_or_new b n t) n amount false t).1 ≡ wait_for (seen b n t) amount =
      ap (λ z. z.1) (check_locked-tentative (entry_or_new b n t) n amount t) in
    (
      λ e limit p.
          let same : n ≡ limit = cc in
          subst (λ m. wait_for (seen b m t) amount ≡ none) same (sym q ∙ e),
      λ f. q ∙ f n refl,
    )

-- `seen` later is what was seen by a look in between.
seen-after :
    (o : Option TokenBucket) (limit amount t t' : ℕ)
    → 0 < limit
    → t ≤ t'
    → ((b : TokenBucket) → o ≡ some b → b.last_refill ≤ t)
    → seen (after false (some limit) amount o t) limit t' ≡ seen o limit t'
seen-after none limit amount t t' h k c =
    rw (check_locked-tentative (new limit t) limit amount t)
      (rw (settle-new limit t t h, settle-new limit t t' h, settle-new limit t' t' h) refl)
seen-after (some b) limit amount t t' h k c =
    rw (check_locked-tentative b limit amount t) (settle-settle b limit t t' h k (c b refl))

wait_for-new :
    (limit amount t t' : ℕ) → wait_for (new limit t) amount ≡ wait_for (new limit t') amount
unfolding wait_for new
wait_for-new limit amount t t' = refl

seen-wait_for :
    (o : Option TokenBucket) (limit amount t t' : ℕ)
    → 0 < limit
    → t ≤ t'
    → ((b : TokenBucket) → o ≡ some b → b.last_refill ≤ t)
    → wait_for (seen o limit t) amount ≡ none
    → wait_for (seen o limit t') amount ≡ none
seen-wait_for none limit amount t t' h k c e =
    rw (settle-new limit t' t' h)
      (wait_for-new limit amount t' t ∙ (rw (settle-new limit t t h) at e))
seen-wait_for (some b) limit amount t t' h k c e =
    settle-wait_for b limit t t' h k (c b refl) amount e

after-debits :
    (o : Option TokenBucket) (limit amount t : ℕ)
    → wait_for (seen o limit t) amount ≡ none
    → after true (some limit) amount o t ≡ some (debit (seen o limit t) amount)
after-debits o limit amount t e = rw (check_locked-debits (entry_or_new o limit t) limit amount t e)

module _ (clock : ℕ → ℕ) where
  pub AllNone-AllFit :
      (i : ℕ) (l : RateLimiter) (cs : List Check) → AllNone clock i l cs ↔ AllFit clock i l cs
  AllNone-AllFit i l [] = (λ _. tt, λ _. tt)
  AllNone-AllFit i l (c ∷ cs) =
      let (to, from) = answer-none (configured c.limit) c.amount (bucket l c) (clock i) in
      let (to', from') = AllNone-AllFit (suc i) l cs in
      (λ h. (to h.0, to' h.1), λ h. (from h.0, from' h.1))

module _ (clock : ℕ → ℕ) (steady : (i j : ℕ) → i ≤ j → clock i ≤ clock j) where
  IsClocked-suc : (i : ℕ) (l : RateLimiter) → IsClocked l (clock i) → IsClocked l (clock (suc i))
  IsClocked-suc i l k = record {
    clocked = λ c b e. omega (arith, k.clocked c b e, steady i (suc i) (omega arith));
  }

  -- `o` before the passes, `o₁` between them and `o₂` after them.
  after-after :
      (lim : Option ℕ) (limit amount : ℕ) (o o₁ o₂ : Option TokenBucket) (t t' : ℕ)
      → 0 < limit
      → t ≤ t'
      → ((b : TokenBucket) → o ≡ some b → b.last_refill ≤ t)
      → o₁ ≡ after false lim amount o t
      → o₂ ≡ after true lim amount o₁ t'
      → wait_for (seen o limit t) amount ≡ none
      → lim ≡ some limit
      → o₂ ≡ some (debit (seen o limit t') amount)
  after-after lim limit amount o o₁ o₂ t t' h k c e₁ e₂ w p =
      let first : o₁ ≡ after false (some limit) amount o t =
        subst (λ x. o₁ ≡ after false x amount o t) p e₁ in
      let second : o₂ ≡ after true (some limit) amount o₁ t' =
        subst (λ x. o₂ ≡ after true x amount o₁ t') p e₂ in
      let same : seen o₁ limit t' ≡ seen o limit t' =
        ap (λ x. seen x limit t') first ∙ seen-after o limit amount t t' h k c in
      let fits : wait_for (seen o₁ limit t') amount ≡ none =
        ap (λ b. wait_for b amount) same ∙ seen-wait_for o limit amount t t' h k c w in
      second ∙ after-debits o₁ limit amount t' fits ∙ ap (λ b. some (debit b amount)) same

  pub Passed-Debited :
      (i j : ℕ) (l l₁ l₂ : RateLimiter) (cs : List Check)
      → i ≤ j
      → IsClocked l (clock i)
      → Passed false clock i l l₁ cs
      → Passed true clock j l₁ l₂ cs
      → AllFit clock i l cs
      → Debited clock j l l₂ cs
  Passed-Debited i j l l₁ l₂ [] h k p q f = tt
  Passed-Debited i j l l₁ l₂ (c ∷ cs) h k p q f = (
    λ limit e.
        after-after (configured c.limit) limit c.amount (bucket l c) (bucket l₁ c) (bucket l₂ c)
          (clock i) (clock j) (configured-pos c.limit limit e) (steady i j h) (k.clocked c) p.0 q.0
          (f.0 limit e) e,
    Passed-Debited (suc i) (suc j) l l₁ l₂ cs (omega arith) (IsClocked-suc i l k) p.1 q.1 f.1,
  )

  pub Passed-Unchanged :
      (i t : ℕ) (l l' : RateLimiter) (cs : List Check)
      → (n : ℕ) → i + length cs ≤ n
      → clock n ≤ t
      → IsClocked l (clock i)
      → Passed false clock i l l' cs
      → Unchanged t l l' cs
  Passed-Unchanged i t l l' [] n b e k p = tt
  Passed-Unchanged i t l l' (c ∷ cs) n b e k p = (
    λ limit q.
        let first : bucket l' c ≡ after false (some limit) c.amount (bucket l c) (clock i) =
          subst (λ x. bucket l' c ≡ after false x c.amount (bucket l c) (clock i)) q p.0 in
        ap (λ x. seen x limit t) first
        ∙ seen-after (bucket l c) limit c.amount (clock i) t (configured-pos c.limit limit q)
            (omega (arith, steady i n (omega arith))) (k.clocked c),
    Passed-Unchanged (suc i) t l l' cs n (omega arith) e (IsClocked-suc i l k) p.1,
  )
