-- ===== src/RateLimit/Limiter/Checked.antt =====
-- One check of a bucket: what it leaves in its own bucket, what it answers, and that it leaves the
-- other buckets alone.
use godwit.Base.{
  ℕ, Bool, true, false, ◌&&◌, ◌≡◌, refl, ◌∙◌, ◌==◌, Option, none, some, nat_key, string_key,
  pair_key, pair_beq_iff, arith, if◌then◌else◌, Bool-cases, inl, inr, ap, sym,
}
use godwit.Base.Dict
use godwit.Base.Dict.{Dict, get-insert}
use godwit.RateLimit.Bucket.{TokenBucket}
use godwit.RateLimit.Limiter.{
  Key, RateLimiter, Metric, rpm, tpm, Check, configured, check_locked, entry_or_new, check_bucket,
  check_limit, check_on, check,
}

-- The bucket of a metric at a key.
abbrev pub find : RateLimiter → Metric → Key → Option TokenBucket
find l rpm key = Dict.get key l.rpm_buckets
find l tpm key = Dict.get key l.tpm_buckets

abbrev pub bucket : RateLimiter → Check → Option TokenBucket
bucket l c = find l c.metric c.key

abbrev pub metric_beq : Metric → Metric → Bool
metric_beq rpm rpm = true
metric_beq tpm tpm = true
metric_beq _ _ = false

metric_beq-sym : (m m' : Metric) → metric_beq m m' ≡ metric_beq m' m
metric_beq-sym m m' = ground arith

-- Two checks are on one bucket.
abbrev pub meets : Check → Check → Bool
meets c d = metric_beq c.metric d.metric && c.key == d.key

-- What a check leaves in its bucket, and what it answers.
abbrev pub after : Bool → Option ℕ → ℕ → Option TokenBucket → ℕ → Option TokenBucket
after debits none amount o t = o
after debits (some limit) amount o t =
    some (check_locked (entry_or_new o limit t) limit amount debits t).0

abbrev pub answer : Bool → Option ℕ → ℕ → Option TokenBucket → ℕ → Option ℕ
answer debits none amount o t = none
answer debits (some limit) amount o t =
    (check_locked (entry_or_new o limit t) limit amount debits t).1

abbrev pub after_check : Bool → Check → Option TokenBucket → ℕ → Option TokenBucket
after_check debits c o t = after debits (configured c.limit) c.amount o t

abbrev pub answer_check : Bool → Check → Option TokenBucket → ℕ → Option ℕ
answer_check debits c o t = answer debits (configured c.limit) c.amount o t

get-check_limit :
    (m : Dict Key TokenBucket) (k j : Key) (limit : Option ℕ) (amount : ℕ) (debits : Bool) (t : ℕ)
    → Dict.get j (check_limit m k limit amount debits t).0
      ≡ (if k == j then after debits limit amount (Dict.get k m) t else Dict.get j m)
get-check_limit m k j none amount debits t = elim (Bool-cases (k == j)) [
  | inl e ↦ rw e (ap (λ i. Dict.get i m) (sym ((pair_beq_iff k j).0 e)))
  | inr e ↦ rw e
]
get-check_limit m k j (some limit) amount debits t =
    get-insert k j (check_locked (entry_or_new (Dict.get k m) limit t) limit amount debits t).0 m

metric_beq_refl : (m : Metric) → metric_beq m m ≡ true
metric_beq_refl rpm = refl
metric_beq_refl tpm = refl

pub meets-sym : (c d : Check) → meets c d ≡ false → meets d c ≡ false
meets-sym c d h =
    ground
      (arith, pair_beq_iff c.key d.key, pair_beq_iff d.key c.key, metric_beq-sym c.metric d.metric)

module _ (l : RateLimiter) (debits : Bool) (t : ℕ) (c : Check) where
  find-check_on :
      (m m' : Metric) (key : Key)
      → find (check_on l m c debits t).0 m' key ≡ (
          if metric_beq m m' && c.key == key
          then after_check debits c (find l m c.key) t
          else find l m' key)
  unfolding check_bucket
  find-check_on rpm rpm key =
      get-check_limit l.rpm_buckets c.key key (configured c.limit) c.amount debits t
  find-check_on tpm tpm key =
      get-check_limit l.tpm_buckets c.key key (configured c.limit) c.amount debits t
  find-check_on rpm tpm key = refl
  find-check_on tpm rpm key = refl

  pub find-check :
      (m : Metric) (key : Key)
      → find (check l c debits t).0 m key ≡ (
          if metric_beq c.metric m && c.key == key
          then after_check debits c (bucket l c) t
          else find l m key)
  unfolding check
  find-check = find-check_on c.metric

  pub bucket-check : bucket (check l c debits t).0 c ≡ after_check debits c (bucket l c) t
  unfolding check
  bucket-check =
      find-check_on c.metric c.metric c.key
      ∙ rw (metric_beq_refl c.metric, (pair_beq_iff c.key c.key).1 refl) refl

  pub bucket-check_apart :
      (d : Check) → meets c d ≡ false → bucket (check l c debits t).0 d ≡ bucket l d
  unfolding check
  bucket-check_apart d h = find-check_on c.metric d.metric d.key ∙ rw h refl

  answer-check_on :
      (m : Metric) → (check_on l m c debits t).1 ≡ answer_check debits c (find l m c.key) t
  unfolding check_bucket
  answer-check_on rpm = ground arith
  answer-check_on tpm = ground arith

  pub answer-check : (check l c debits t).1 ≡ answer_check debits c (bucket l c) t
  unfolding check
  answer-check = answer-check_on c.metric
