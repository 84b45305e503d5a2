-- ===== src/RateLimit/Login.antt =====
-- `LoginLimiter` of crates/godwit-api/src/login_rate_limit.rs: a bucket for each address, under the
-- conventions of the rate limiter. One call checks and debits under one lock.
pub mod Step
pub mod Window
mod Tests
use godwit.Base.{
  ℕ, ◌*◌, Bool, String, Option, none, some, nat_beq, ltb, ◌&&◌, if◌then◌else◌, string_key,
}
use godwit.Base.Dict
use godwit.Base.Dict.{Dict}
use godwit.RateLimit.Bucket.{TokenBucket, deficit_retry_after, debit}
use godwit.RateLimit.Limiter.{entry_or_new, is_none}

pub record LoginLimiter : Type 0 where
  pub capacity : ℕ
  pub buckets : Dict String TokenBucket

pub new : ℕ → LoginLimiter
new capacity = record { capacity = if ltb 0 capacity then capacity else 0; buckets = Dict.empty }

-- The part under the lock of the bucket.
pub attempt_locked : TokenBucket → Bool → ℕ → TokenBucket × Option ℕ
attempt_locked b debit_on_fail now =
    let (b', retry_after) = deficit_retry_after b now 1 in
    (if is_none retry_after && debit_on_fail then debit b' 1 else b', retry_after)

pub attempt_allowed : LoginLimiter → String → Bool → ℕ → LoginLimiter × Option ℕ
attempt_allowed l ip debit_on_fail now =
    if nat_beq l.capacity 0
    then (l, none)
    else let (b, retry_after) =
        attempt_locked (entry_or_new (Dict.get ip l.buckets) l.capacity now) debit_on_fail now in
      (record l { buckets = Dict.insert ip b l.buckets }, retry_after)
