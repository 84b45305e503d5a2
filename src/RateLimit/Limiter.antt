-- ===== src/RateLimit/Limiter.antt =====
-- `RateLimiter` of crates/godwit-api/src/rate_limit.rs.
--
-- A `DashMap` entry and its mutex are a map entry. Each `Instant::now()` is a reading of `clock`,
-- numbered in the order in which one call takes them; `TokenBucket::new` shares the reading of the
-- check that creates the bucket, which refills it to its capacity at once.
pub mod Settle
pub mod Checked
pub mod Pass
pub mod Effect
pub mod Outcome
pub mod Invariant
pub mod Overlap
mod Tests
use godwit.Base.{
  ℕ, zero, suc, ◌*◌, Bool, true, false, ◌&&◌, String, Option, none, some, List, [], ◌∷◌, nat_beq,
  max, if◌then◌else◌, nat_key, string_key, pair_key, Result, ok, err,
}
use godwit.Base.Dict
use godwit.Base.Dict.{Dict}
use godwit.Base.Int.{ℤ, pos, negsuc, min_ℤ}
use godwit.Core.Error.{PasteurError, rate_limited}
use godwit.RateLimit.Bucket.{TokenBucket, token, new, deficit_retry_after, debit}

-- (api key or organization, model)
abbrev pub Key : Type 0
Key = ℕ × String

pub record RateLimiter : Type 0 where
  pub rpm_buckets : Dict Key TokenBucket
  pub tpm_buckets : Dict Key TokenBucket

pub new_limiter : RateLimiter
new_limiter = record { rpm_buckets = Dict.empty; tpm_buckets = Dict.empty }

pub data Metric : Type 0 where
  rpm tpm : Metric

-- An entry of the array `caches`.
pub record Check : Type 0 where
  pub metric : Metric
  pub key : Key
  pub limit : Option ℤ
  pub amount : ℕ

-- `Some(l) if l > 0 => l as u32`
abbrev pub configured : Option ℤ → Option ℕ
configured (some (pos (suc l))) = some (suc l)
configured (some (pos zero)) = none
configured (some (negsuc n)) = none
configured none = none

-- The configured limit may have changed since the bucket was made.
pub adjust : TokenBucket → ℕ → TokenBucket
adjust b limit =
    if nat_beq b.capacity limit
    then b
    else record b { capacity = limit; tokens = min_ℤ b.tokens (pos (limit * token)) }

abbrev pub is_none {ℓ} : {A : Type ℓ} → Option A → Bool
is_none none = true
is_none (some a) = false

-- The bucket under the lock: the check, and the debit if it fits and `debit` is set.
pub check_locked : TokenBucket → ℕ → ℕ → Bool → ℕ → TokenBucket × Option ℕ
check_locked b limit amount debits now =
    let (b', retry_after) = deficit_retry_after (adjust b limit) now amount in
    (if is_none retry_after && debits then debit b' amount else b', retry_after)

-- `entry(key).or_insert_with(..)`
abbrev pub entry_or_new : Option TokenBucket → ℕ → ℕ → TokenBucket
entry_or_new (some b) limit now = b
entry_or_new none limit now = new limit now

abbrev pub check_limit :
    Dict Key TokenBucket → Key → Option ℕ → ℕ → Bool → ℕ → Dict Key TokenBucket × Option ℕ
check_limit buckets key none amount debits now = (buckets, none)
check_limit buckets key (some limit) amount debits now =
    let (b, retry_after) =
      check_locked (entry_or_new (Dict.get key buckets) limit now) limit amount debits now in
    (Dict.insert key b buckets, retry_after)

pub check_bucket :
    Dict Key TokenBucket → Key → Option ℤ → ℕ → Bool → ℕ → Dict Key TokenBucket × Option ℕ
check_bucket buckets key limit = check_limit buckets key (configured limit)

-- `check_bucket` on the map that the entry of `caches` refers to.
abbrev pub check_on : RateLimiter → Metric → Check → Bool → ℕ → RateLimiter × Option ℕ
check_on l rpm c debits now =
    let (m, r) = check_bucket l.rpm_buckets c.key c.limit c.amount debits now in
    (record l { rpm_buckets = m }, r)
check_on l tpm c debits now =
    let (m, r) = check_bucket l.tpm_buckets c.key c.limit c.amount debits now in
    (record l { tpm_buckets = m }, r)

pub check : RateLimiter → Check → Bool → ℕ → RateLimiter × Option ℕ
check l c = check_on l c.metric c

-- `slowest_retry_after`
abbrev pub slowest_of : Option ℕ → Option ℕ → Option ℕ
slowest_of slowest none = slowest
slowest_of none (some r) = some r
slowest_of (some m) (some r) = some (max m r)

-- Pass 1, from the reading `i` of the clock on.
pub verify : (ℕ → ℕ) → ℕ → RateLimiter → List Check → Option ℕ → RateLimiter × Option ℕ
verify clock i l [] slowest = (l, slowest)
verify clock i l (c ∷ cs) slowest =
    let (l', r) = check l c false (clock i) in verify clock (suc i) l' cs (slowest_of slowest r)

-- Pass 2.
pub commit : (ℕ → ℕ) → ℕ → RateLimiter → List Check → RateLimiter
commit clock i l [] = l
commit clock i l (c ∷ cs) = commit clock (suc i) (check l c true (clock i)).0 cs

-- The limits of one request.
pub record Request : Type 0 where
  pub api_key_id : ℕ
  pub org_id : ℕ
  pub model : String
  pub rpm_limit_key : Option ℤ
  pub tpm_limit_key : Option ℤ
  pub rpm_limit_org : Option ℤ
  pub tpm_limit_org : Option ℤ
  pub estimated_tokens : ℕ

abbrev pub caches : Request → List Check
caches r =
    record { metric = rpm; key = (r.api_key_id, r.model); limit = r.rpm_limit_key; amount = 1 }
    ∷ record {
      metric = tpm;
      key = (r.api_key_id, r.model);
      limit = r.tpm_limit_key;
      amount = r.estimated_tokens;
    }
    ∷ record { metric = rpm; key = (r.org_id, r.model); limit = r.rpm_limit_org; amount = 1 }
    ∷ record {
      metric = tpm;
      key = (r.org_id, r.model);
      limit = r.tpm_limit_org;
      amount = r.estimated_tokens;
    }
    ∷ []

abbrev pub conclude :
    (ℕ → ℕ)
    → List Check
    → RateLimiter
    → Option ℕ
    → RateLimiter × Result (PasteurError × Option ℕ) (Unit {0})
conclude clock cs l (some retry_after) = (l, err (rate_limited, some retry_after))
conclude clock cs l none = (commit clock 4 l cs, ok tt)

pub check_and_consume :
    (ℕ → ℕ) → RateLimiter → Request → RateLimiter × Result (PasteurError × Option ℕ) (Unit {0})
check_and_consume clock l r =
    let (l', slowest) = verify clock 0 l (caches r) none in conclude clock (caches r) l' slowest
