-- ===== src/RateLimit/Limiter/Overlap.antt =====
-- Two calls of `check_and_consume` on two threads. Each `check_bucket` holds the lock of its bucket,
-- but a call holds no lock from its first pass to its second, and the second pass drops what
-- `check_bucket` answers.
use mathlib.Core.Path.{subst}
use native.Mathlib.Nat.{sub_self}
use godwit.Base.{
  ℕ, suc, ◌-◌, ◌*◌, ◌<◌, ◌≡◌, ◌≢◌, ◌⊎◌, inl, inr, refl, ap, ◌∙◌, Option, none, some, arith, List,
  [], ◌∷◌, Result, ok,
}
use godwit.Base.Int.{pos, ◌≤ℤ◌}
use godwit.Core.Error.{PasteurError}
use godwit.RateLimit.Bucket.{TokenBucket, token, wait_for, debit, refill}
use godwit.RateLimit.Limiter.{
  RateLimiter, entry_or_new, Check, Request, configured, adjust, caches, verify, conclude,
  check_and_consume,
}
use godwit.RateLimit.Limiter.Settle.{seen, settle, settle_fields}
use godwit.RateLimit.Limiter.Checked.{bucket}
use godwit.RateLimit.Limiter.Pass.{verify-Passed, verify-none}
use godwit.RateLimit.Limiter.Effect.{
  AllFit, Debited, Unchanged, IsClocked, configured-pos, AllNone-AllFit, Passed-Unchanged,
}
use godwit.RateLimit.Limiter.Outcome.{caches-Apart, conclude-ok, admitted_iff, admitted_debits}

abbrev pub Outcome : Type 0
Outcome = Result (PasteurError × Option ℕ) (Unit {0})

-- The first pass of one call, both passes of another, and the second pass of the first call.
pub overlapped : (ℕ → ℕ) → RateLimiter → Request → Request → RateLimiter × Outcome × Outcome
overlapped clock l r₁ r₂ =
    let (l₁, s₁) = verify clock 0 l (caches r₁) none in
    let (l₂, out₂) = check_and_consume clock l₁ r₂ in
    let (l₃, out₁) = conclude clock (caches r₁) l₂ s₁ in (l₃, out₁, out₂)

-- One call after the other.
pub in_sequence : (ℕ → ℕ) → RateLimiter → Request → Request → RateLimiter × Outcome × Outcome
in_sequence clock l r₁ r₂ =
    let (l₁, out₁) = check_and_consume clock l r₁ in
    let (l₂, out₂) = check_and_consume clock l₁ r₂ in (l₂, out₁, out₂)

module _ (t : ℕ) where
  abbrev pub now : ℕ → ℕ
  now i = t

  AllFit-Unchanged :
      (i j : ℕ) (l l' : RateLimiter) (cs : List Check)
      → Unchanged t l l' cs
      → AllFit now i l cs
      → AllFit now j l' cs
  AllFit-Unchanged i j l l' [] u f = tt
  AllFit-Unchanged i j l l' (c ∷ cs) u f = (
    λ limit e. ap (λ b. wait_for b c.amount) (u.0 limit e) ∙ f.0 limit e,
    AllFit-Unchanged (suc i) (suc j) l l' cs u.1 f.1,
  )

-- After the debit of an amount, a bucket that did not hold it twice does not hold it.
too_few :
    (b : TokenBucket) (amount limit t : ℕ)
    → 0 < limit
    → b.capacity ≡ limit
    → b.last_refill ≡ t
    → ¬ (pos (2 * amount * token) ≤ℤ b.tokens)
    → wait_for (settle (debit b amount) limit t) amount ≢ none
unfolding wait_for debit refill adjust
too_few b amount limit t h c e few w =
    let still : (t - b.last_refill) * limit ≡ 0 = rw (e, sub_self) (omega arith) in
    ground (arith, still)

-- One of the checks has a limit, and its bucket holds less than twice its amount at time `t`.
abbrev pub Short : ℕ → RateLimiter → List Check → Type 0
Short t l [] = ⊥
Short t l (c ∷ cs) =
    ((limit : ℕ) × (configured c.limit ≡ some limit)
      × ¬ (pos (2 * c.amount * token) ≤ℤ (seen (bucket l c) limit t).tokens))
    ⊎ Short t l cs

Short-none_fit :
    (t i j : ℕ) (l l' : RateLimiter) (cs : List Check)
    → Debited (now t) i l l' cs
    → AllFit (now t) j l' cs
    → ¬ (Short t l cs)
Short-none_fit t i j l l' [] d f s = s
Short-none_fit t i j l l' (c ∷ cs) d f (inl (limit, e, few)) =
    let before = bucket l c in
    let positive = configured-pos c.limit limit e in
    let (cap, last) = settle_fields (entry_or_new before limit t) limit t positive in
    too_few (seen before limit t) c.amount limit t positive cap last few
      (subst (λ o. wait_for (seen o limit t) c.amount ≡ none) (d.0 limit e) (f.0 limit e))
Short-none_fit t i j l l' (c ∷ cs) d f (inr s) = Short-none_fit t (suc i) (suc j) l l' cs d.1 f.1 s

module _ (t : ℕ) (l : RateLimiter) (r : Request) (distinct : r.api_key_id ≢ r.org_id)
    (clocked : IsClocked l t) (fit : AllFit (now t) 0 l (caches r)) where
  unchanged : Unchanged t l (verify (now t) 0 l (caches r) none).0 (caches r)
  unchanged =
      Passed-Unchanged (now t) (λ i j h. omega arith) 0 t l (verify (now t) 0 l (caches r) none).0
        (caches r) 4 (omega arith) (omega arith) clocked
        (verify-Passed (now t) 0 l (caches r) none (caches-Apart r distinct))

  inner_admitted : (check_and_consume (now t) (verify (now t) 0 l (caches r) none).0 r).1 ≡ ok tt
  inner_admitted =
      (admitted_iff (now t) (verify (now t) 0 l (caches r) none).0 r distinct).1
        (AllFit-Unchanged t 0 0 l (verify (now t) 0 l (caches r) none).0 (caches r) unchanged fit)

  none_slow : (verify (now t) 0 l (caches r) none).1 ≡ none
  none_slow =
      (verify-none (now t) 0 l (caches r) none (caches-Apart r distinct)).1
        (refl, (AllNone-AllFit (now t) 0 l (caches r)).1 fit)

  second_rejected : Short t l (caches r) → (in_sequence (now t) l r r).2 ≢ ok tt
  unfolding in_sequence
  second_rejected short again =
      let l₁ = (check_and_consume (now t) l r).0 in
      Short-none_fit t 4 0 l l₁ (caches r)
        (admitted_debits (now t) (λ i j h. omega arith) l r distinct clocked
          ((admitted_iff (now t) l r distinct).1 fit))
        ((admitted_iff (now t) l₁ r distinct).0 again) short

  -- Two calls of one request at one time, with a key and an organization of different ids, where no
  -- bucket was refilled later, every bucket holds its amount once, and one of those with a limit does
  -- not hold it twice: both are admitted if one runs between the passes of the other, and the second
  -- is rejected if one runs after the other.
  pub overlap_overadmits :
      Short t l (caches r)
      → ((overlapped (now t) l r r).1 ≡ ok tt)
        × ((overlapped (now t) l r r).2 ≡ ok tt)
        × ((in_sequence (now t) l r r).2 ≢ ok tt)
  unfolding overlapped
  overlap_overadmits short =
      let (l₁, s₁) = verify (now t) 0 l (caches r) none in
      let (l₂, out₂) = check_and_consume (now t) l₁ r in
      ((conclude-ok (now t) (caches r) l₂ s₁).1 none_slow, inner_admitted, second_rejected short)
