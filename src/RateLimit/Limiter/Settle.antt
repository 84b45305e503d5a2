-- ===== src/RateLimit/Limiter/Settle.antt =====
-- A bucket as a request with a given limit sees it at a given time, and how one check changes that.
use godwit.Base.{ℕ, ◌+◌, ◌-◌, ◌*◌, ◌≤◌, ◌<◌, ◌≡◌, ap, true, false, Option, none, arith}
use godwit.Base.Int.{ℤ, pos, negsuc, ◌≤ℤ◌, ◌+ℤ◌, min_ℤ}
use godwit.RateLimit.Bucket.{TokenBucket, token, new, refill, wait_for, deficit_retry_after, debit}
use godwit.RateLimit.Bucket.Refill.{wait_for-none}
use godwit.RateLimit.Limiter.{adjust, check_locked, entry_or_new}

-- The bucket after `adjust` and `refill`.
abbrev pub settle : TokenBucket → ℕ → ℕ → TokenBucket
settle b limit t = refill (adjust b limit) t

-- What a request with this limit finds: a missing bucket is a full one.
abbrev pub seen : Option TokenBucket → ℕ → ℕ → TokenBucket
seen o limit t = settle (entry_or_new o limit t) limit t

pub elapsed_split : (a b c l : ℕ) → a ≤ b → b ≤ c → (c - a) * l ≡ (b - a) * l + (c - b) * l
elapsed_split a b c l h k = let e : c - a ≡ (b - a) + (c - b) = omega arith in rw e (omega arith)

-- Refilling in two steps up to a bound is refilling in one.
min_ℤ-add :
    (x : ℤ) (a b top : ℕ)
    → min_ℤ (min_ℤ (x +ℤ pos a) (pos top) +ℤ pos b) (pos top) ≡ min_ℤ (x +ℤ pos (a + b)) (pos top)
min_ℤ-add (pos n) a b top = ground arith
min_ℤ-add (negsuc n) a b top = ground arith

min_ℤ-mono :
    (x z : ℤ) (a b top : ℕ)
    → a ≤ b
    → z ≤ℤ min_ℤ (x +ℤ pos a) (pos top)
    → z ≤ℤ min_ℤ (x +ℤ pos b) (pos top)
min_ℤ-mono x z a b top h k = ground arith

-- A refill of a bucket with a capacity.
abbrev filled : TokenBucket → ℕ → TokenBucket
filled b t = record b {
  tokens = min_ℤ (b.tokens +ℤ pos ((t - b.last_refill) * b.capacity)) (pos (b.capacity * token));
  last_refill = t;
}

refill-eq : (b : TokenBucket) (t : ℕ) → 0 < b.capacity → refill b t ≡ filled b t
unfolding refill
refill-eq b t h = ground arith

adjust_fields :
    (b : TokenBucket) (limit : ℕ)
    → ((adjust b limit).capacity ≡ limit) × ((adjust b limit).last_refill ≡ b.last_refill)
unfolding adjust
adjust_fields b limit = ground arith

adjust_self : (b : TokenBucket) (limit : ℕ) → b.capacity ≡ limit → adjust b limit ≡ b
unfolding adjust
adjust_self b limit h = ground arith

module _ (b : TokenBucket) (t t' : ℕ) (limited : 0 < b.capacity) (later : t ≤ t')
    (clocked : b.last_refill ≤ t) where
  refill-refill : refill (refill b t) t' ≡ refill b t'
  refill-refill =
      rw (refill-eq b t limited, refill-eq (filled b t) t' limited, refill-eq b t' limited)
        (ap (λ z. record (filled b t') { tokens = z })
          (rw (elapsed_split b.last_refill t t' b.capacity clocked later) (
            min_ℤ-add b.tokens ((t - b.last_refill) * b.capacity) ((t' - t) * b.capacity)
              (b.capacity * token))))

pub settle_fields :
    (b : TokenBucket) (limit t : ℕ)
    → 0 < limit
    → ((settle b limit t).capacity ≡ limit) × ((settle b limit t).last_refill ≡ t)
unfolding adjust refill
settle_fields b limit t h = ground arith

module _ (b : TokenBucket) (limit t t' : ℕ) (limited : 0 < limit) (later : t ≤ t')
    (clocked : b.last_refill ≤ t) where
  -- Looking at a bucket does not change what is seen of it later.
  pub settle-settle : settle (settle b limit t) limit t' ≡ settle b limit t'
  settle-settle =
      let (cap, last) = adjust_fields b limit in
      rw (adjust_self (settle b limit t) limit (settle_fields b limit t limited).0)
        (refill-refill (adjust b limit) t t' (omega arith) later (omega arith))

  -- What fits goes on fitting while nobody takes from the bucket.
  pub settle-wait_for :
      (amount : ℕ)
      → wait_for (settle b limit t) amount ≡ none
      → wait_for (settle b limit t') amount ≡ none
  settle-wait_for amount e =
      let (cap, last) = adjust_fields b limit in
      let (cap', _) = settle_fields b limit t limited in
      let (cap'', _) = settle_fields b limit t' limited in
      let c = adjust b limit in
      let fits = (wait_for-none (settle b limit t) amount (omega arith)).0 e in
      (wait_for-none (settle b limit t') amount (omega arith)).1 (
        rw (refill-eq c t' (omega arith)) (
          min_ℤ-mono c.tokens (pos (amount * token)) ((t - c.last_refill) * c.capacity)
            ((t' - c.last_refill) * c.capacity) (c.capacity * token)
            (omega (arith, elapsed_split c.last_refill t t' c.capacity (omega arith) later))
            (rw (refill-eq c t (omega arith)) at fits)))

pub settle-new : (limit t t' : ℕ) → 0 < limit → settle (new limit t) limit t' ≡ new limit t'
unfolding adjust refill new
settle-new limit t t' h = ground arith

pub check_locked-tentative :
    (b : TokenBucket) (limit amount t : ℕ)
    → check_locked b limit amount false t ≡ (settle b limit t, wait_for (settle b limit t) amount)
unfolding check_locked deficit_retry_after
check_locked-tentative b limit amount t = ground arith

pub check_locked-debits :
    (b : TokenBucket) (limit amount t : ℕ)
    → wait_for (settle b limit t) amount ≡ none
    → check_locked b limit amount true t ≡ (debit (settle b limit t) amount, none)
unfolding check_locked deficit_retry_after
check_locked-debits b limit amount t h = ground arith
