-- ===== src/RateLimit/Login/Step.antt =====
-- What one login attempt takes from the bucket of an address.
use mathlib.Core.Path.{subst}
use native.Mathlib.Nat.{sub_self}
use godwit.Base.{
  ℕ, ◌+◌, ◌-◌, ◌*◌, ◌≤◌, ◌<◌, ◌≡◌, refl, ap, ◌∙◌, sym, Bool, true, false, ◌&&◌, ◌==◌, String,
  Option, none, some, arith, if◌then◌else◌, string_key, Bool-cases, inl, inr,
}
use godwit.Base.Dict
use godwit.Base.Dict.{get-insert}
use godwit.Base.Int.{pos_part}
use godwit.RateLimit.Bucket.{TokenBucket, token, new, refill, wait_for, deficit_retry_after, debit}
use godwit.RateLimit.Bucket.Refill.{IsWithin}
use godwit.RateLimit.Limiter.{entry_or_new, is_none}
use godwit.RateLimit.Limiter.Settle.{elapsed_split}
use godwit.RateLimit.Login.{LoginLimiter, attempt_locked, attempt_allowed}

pub record Attempt : Type 0 where
  pub ip : String
  pub debit_on_fail : Bool
  pub time : ℕ

-- A counted attempt is one that is let through and debited.
abbrev pub counted : Bool → ℕ
counted true = 1
counted false = 0

-- The bucket of the limiter's capacity, within its bounds, and refilled by `t`.
pub record IsBucketOf (capacity t : ℕ) (b : TokenBucket) : Type 0 where
  pub same : b.capacity ≡ capacity
  pub within : IsWithin b
  pub clocked : b.last_refill ≤ t

pub record IsSound (l : LoginLimiter) (t : ℕ) : Type 0 where
  pub at :
      (ip : String) (b : TokenBucket) → Dict.get ip l.buckets ≡ some b → IsBucketOf l.capacity t b

-- The units that an address can use at time `t`.
abbrev pub units : Option TokenBucket → ℕ → ℕ → ℕ
units o capacity t = pos_part (refill (entry_or_new o capacity t) t).tokens

module _ (capacity : ℕ) (limited : 0 < capacity) where
  pub units_grow :
      (o : Option TokenBucket) (t t' : ℕ)
      → t ≤ t'
      → ((b : TokenBucket) → o ≡ some b → IsBucketOf capacity t b)
      → units o capacity t' ≤ units o capacity t + (t' - t) * capacity
  unfolding refill new
  units_grow none t t' h s = ground arith
  units_grow (some b) t t' h s =
      let bucket = s b refl in
      ground (arith, elapsed_split b.last_refill t t' capacity bucket.clocked h, bucket.same)

  pub units_bounded :
      (o : Option TokenBucket) (t : ℕ)
      → ((b : TokenBucket) → o ≡ some b → IsBucketOf capacity t b)
      → units o capacity t ≤ capacity * token
  unfolding refill new
  units_bounded none t s = ground arith
  units_bounded (some b) t s = let bucket = s b refl in ground (arith, bucket.same)

  units_spent :
      (b : TokenBucket) (debits : Bool) (t : ℕ)
      → IsBucketOf capacity t b
      → let (b', r) = attempt_locked b debits t in
        counted (is_none r && debits) * token + units (some b') capacity t
        ≤ units (some b) capacity t
  unfolding attempt_locked deficit_retry_after debit refill wait_for
  units_spent b debits t s = ground (arith, ap (λ x. x * capacity) (sub_self t))

  attempt_locked-IsBucketOf :
      (b : TokenBucket) (debits : Bool) (t : ℕ)
      → IsBucketOf capacity t b
      → IsBucketOf capacity t (attempt_locked b debits t).0
  unfolding attempt_locked deficit_retry_after debit refill wait_for
  attempt_locked-IsBucketOf b debits t s = ground arith

module _ (l : LoginLimiter) (limited : 0 < l.capacity) (ip : String) (debits : Bool) (t : ℕ) where
  abbrev locked : TokenBucket × Option ℕ
  locked = attempt_locked (entry_or_new (Dict.get ip l.buckets) l.capacity t) debits t

  attempt-eq :
      attempt_allowed l ip debits t
      ≡ (record l { buckets = Dict.insert ip locked.0 l.buckets }, locked.1)
  unfolding attempt_allowed
  attempt-eq = ground arith

  get-attempt :
      (j : String)
      → Dict.get j (attempt_allowed l ip debits t).0.buckets
        ≡ (if ip == j then some locked.0 else Dict.get j l.buckets)
  get-attempt j = rw attempt-eq (get-insert ip j locked.0 l.buckets)

  pub capacity-attempt : (attempt_allowed l ip debits t).0.capacity ≡ l.capacity
  capacity-attempt = rw attempt-eq

  answer-attempt : (attempt_allowed l ip debits t).1 ≡ locked.1
  answer-attempt = rw attempt-eq

IsBucketOf-later :
    (capacity t t' : ℕ) (b : TokenBucket)
    → t ≤ t'
    → IsBucketOf capacity t b
    → IsBucketOf capacity t' b
IsBucketOf-later capacity t t' b h s =
    let clocked = s.clocked in record { same = s.same; within = s.within; clocked = omega arith }

entry-IsBucketOf :
    (capacity t : ℕ) (o : Option TokenBucket)
    → ((b : TokenBucket) → o ≡ some b → IsBucketOf capacity t b)
    → IsBucketOf capacity t (entry_or_new o capacity t)
unfolding new
entry-IsBucketOf capacity t none s = ground arith
entry-IsBucketOf capacity t (some b) s = s b refl

module _ (l : LoginLimiter) (limited : 0 < l.capacity) (a : Attempt) (t : ℕ) (later : t ≤ a.time)
    (s : IsSound l t) where
  abbrev pub next : LoginLimiter
  next = (attempt_allowed l a.ip a.debit_on_fail a.time).0

  sound_now :
      (ip : String) (b : TokenBucket)
      → Dict.get ip l.buckets ≡ some b
      → IsBucketOf l.capacity a.time b
  sound_now ip b e = IsBucketOf-later l.capacity t a.time b later (s.at ip b e)

  -- An attempt keeps the buckets within their bounds.
  pub attempt-IsSound : IsSound next a.time
  attempt-IsSound = record {
    at = λ ip b e.
        rw (capacity-attempt l limited a.ip a.debit_on_fail a.time) (
          found ip b (a.ip == ip) (sym (get-attempt l limited a.ip a.debit_on_fail a.time ip) ∙ e));
  }
    where
      found :
          (ip : String) (b : TokenBucket) (hit : Bool)
          → (if hit
              then some (locked l limited a.ip a.debit_on_fail a.time).0
              else Dict.get ip l.buckets)
            ≡ some b
          → IsBucketOf l.capacity a.time b
      found ip b true e = subst (IsBucketOf l.capacity a.time) (cc) (
          attempt_locked-IsBucketOf l.capacity limited
            (entry_or_new (Dict.get a.ip l.buckets) l.capacity a.time) a.debit_on_fail a.time
            (entry-IsBucketOf l.capacity a.time (Dict.get a.ip l.buckets) (sound_now a.ip)))
      found ip b false e = sound_now ip b e

  abbrev pub spends : Bool
  spends = is_none (attempt_allowed l a.ip a.debit_on_fail a.time).1 && a.debit_on_fail

  -- What is counted is taken from the units of the address.
  pub step_units :
      (ip : String)
      → counted (a.ip == ip && spends) * token + units (Dict.get ip next.buckets) l.capacity a.time
        ≤ units (Dict.get ip l.buckets) l.capacity a.time
  step_units ip = rw (answer-attempt l limited a.ip a.debit_on_fail a.time) (
      rw (get-attempt l limited a.ip a.debit_on_fail a.time ip) (elim (Bool-cases (a.ip == ip)) [
        | inl hit ↦ rw hit (
            subst
              (λ k.
                counted
                      (is_none (locked l limited a.ip a.debit_on_fail a.time).1 && a.debit_on_fail)
                    * token
                  + units (some (locked l limited a.ip a.debit_on_fail a.time).0) l.capacity a.time
                ≤ units (Dict.get k l.buckets) l.capacity a.time)
              ((string_key.same_iff a.ip ip).0 hit)
              (units_spent l.capacity limited
                (entry_or_new (Dict.get a.ip l.buckets) l.capacity a.time) a.debit_on_fail a.time
                (entry-IsBucketOf l.capacity a.time (Dict.get a.ip l.buckets) (sound_now a.ip))))
        | inr miss ↦ rw miss (omega arith)
      ]))
