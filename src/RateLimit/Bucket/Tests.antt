-- ===== src/RateLimit/Bucket/Tests.antt =====
-- The tests of rate_limit.rs on one bucket, and instances of the theorems.
use godwit.Base.{◌*◌, ◌≡◌, refl, none, some}
use godwit.Base.Int.{pos}
use godwit.RateLimit.Bucket.{TokenBucket, token, wait_seconds, new, deficit_retry_after, debit}

-- Capacity 60 refills one token a second; 5 tokens are left.
abbrev drained : TokenBucket
drained = record { capacity = 60; tokens = pos (5 * token); last_refill = 0 }

retry_after_from_deficit : (deficit_retry_after drained 0 20).1 ≡ some 15
unfolding deficit_retry_after wait_seconds
retry_after_from_deficit = refl

allows_within_capacity : (deficit_retry_after (debit (new 10 0) 5) 0 5).1 ≡ none
unfolding deficit_retry_after debit new
allows_within_capacity = refl

-- The quotient by the rate 11 / 60 is just above 60.
waits_for_rounded_quotient :
    (deficit_retry_after (record { capacity = 11; tokens = pos 0; last_refill = 0 }) 0 11).1
    ≡ some 61
unfolding deficit_retry_after wait_seconds
waits_for_rounded_quotient = refl
