-- ===== src/RateLimit/Bucket.antt =====
-- `TokenBucket` of crates/godwit-api/src/rate_limit.rs.
--
-- The source counts tokens in f64. Here they are exact: `tokens` counts units of 1/(60 * 10^9)
-- token, so that a nanosecond refills `capacity` units and no division is needed. The seconds to
-- wait come from the two divisions of the source, rounded as f64 rounds them. An `Instant` is a
-- number of nanoseconds; `duration_since` saturates at 0, as `-` does.
pub mod Refill
mod Tests
use godwit.Base.{ℕ, ◌+◌, ◌-◌, ◌*◌, ◌/◌, Bool, Option, none, some, nat_beq, if◌then◌else◌}
use godwit.Base.Float.{round, div, ceil}
use godwit.Base.Int.{ℤ, pos, pos_part, ◌+ℤ◌, ◌-ℤ◌, leb_ℤ, min_ℤ}

pub record TokenBucket : Type 0 where
  pub capacity : ℕ
  pub tokens : ℤ
  pub last_refill : ℕ

-- One token, in units.
abbrev pub token : ℕ
token = 60_000_000_000

-- One second, in nanoseconds.
abbrev pub second : ℕ
second = 1_000_000_000

unfoldable pub new : ℕ → ℕ → TokenBucket
new capacity now = record {
  capacity = capacity;
  tokens = pos (capacity * token);
  last_refill = now;
}

unfoldable pub refill : TokenBucket → ℕ → TokenBucket
refill b now = if nat_beq b.capacity 0 then b else record b {
  tokens = min_ℤ (b.tokens +ℤ pos ((now - b.last_refill) * b.capacity)) (pos (b.capacity * token));
  last_refill = now;
}

-- `(deficit / rate).ceil()` of a deficit in units, in f64: `rate` is a quotient of floats, too.
unfoldable pub wait_seconds : ℕ → ℕ → ℕ
unfolding div
wait_seconds capacity deficit = ceil (div (round deficit token) (round capacity 60))

-- The seconds until `amount` fits, by a bucket that has been refilled.
unfoldable pub wait_for : TokenBucket → ℕ → Option ℕ
wait_for b amount =
    if nat_beq b.capacity 0
    then none
    else let deficit = pos (amount * token) -ℤ b.tokens in
      if leb_ℤ deficit (pos 0) then none else some (wait_seconds b.capacity (pos_part deficit))

unfoldable pub deficit_retry_after : TokenBucket → ℕ → ℕ → TokenBucket × Option ℕ
unfolding refill wait_for
deficit_retry_after b now amount = let b' = refill b now in (b', wait_for b' amount)

unfoldable pub debit : TokenBucket → ℕ → TokenBucket
debit b amount = record b { tokens = b.tokens -ℤ pos (amount * token) }
