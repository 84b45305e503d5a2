-- ===== src/RateLimit/Bucket/Refill.antt =====
-- What the refill and the retry estimate of a bucket promise.
use godwit.Base.{ℕ, ◌*◌, ◌<◌, ◌≡◌, ◌≢◌, ◌↔◌, none, arith}
use godwit.Base.Int.{pos, ◌≤ℤ◌}
use godwit.RateLimit.Bucket.{TokenBucket, token, new, refill, wait_for, deficit_retry_after, debit}

-- A bucket holds no debt and no more than its capacity.
pub record IsWithin (b : TokenBucket) : Type 0 where
  pub above : pos 0 ≤ℤ b.tokens
  pub below : b.tokens ≤ℤ pos (b.capacity * token)

-- A new bucket is full, and within its bounds.
pub new-IsWithin : (capacity now : ℕ) → IsWithin (new capacity now)
unfolding new
new-IsWithin capacity now = ground arith

pub refill-IsWithin : (b : TokenBucket) (now : ℕ) → IsWithin b → IsWithin (refill b now)
unfolding refill
refill-IsWithin b now h = ground arith

pub wait_for-none :
    (b : TokenBucket) (amount : ℕ)
    → 0 < b.capacity
    → (wait_for b amount ≡ none) ↔ (pos (amount * token) ≤ℤ b.tokens)
unfolding wait_for
wait_for-none b amount h = ground arith

pub debit-IsWithin :
    (b : TokenBucket) (amount : ℕ)
    → 0 < b.capacity
    → IsWithin b
    → wait_for b amount ≡ none
    → IsWithin (debit b amount)
unfolding debit wait_for
debit-IsWithin b amount h w e = ground arith

-- An amount above the capacity of a bucket within its bounds is rejected at every time.
pub above_capacity_never_fits :
    (b : TokenBucket) (now amount : ℕ)
    → 0 < b.capacity
    → b.capacity < amount
    → IsWithin b
    → (deficit_retry_after b now amount).1 ≢ none
unfolding deficit_retry_after
above_capacity_never_fits b now amount h g w = ground arith
