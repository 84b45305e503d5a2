-- ===== src/RateLimit/Limiter/Invariant.antt =====
-- What holds of every bucket that the limiter keeps.
use mathlib.Core.Path.{subst}
use godwit.Base.{
  ℕ, suc, ◌≤◌, ◌<◌, ◌≡◌, ◌⊎◌, refl, sym, ◌∙◌, Bool, true, false, Option, none, some, arith, List,
  [], ◌∷◌, ◌==◌, ◌&&◌, nat_key, string_key, pair_key, Bool-cases, length, ◌+◌, ◌*◌, inl, inr,
  if◌then◌else◌,
}
use godwit.Base.Dict
use godwit.RateLimit.Bucket.{TokenBucket, new, wait_for, deficit_retry_after, debit}
use godwit.RateLimit.Bucket.Refill.{IsWithin, new-IsWithin, refill-IsWithin, debit-IsWithin}
use godwit.RateLimit.Limiter.{
  Key, RateLimiter, Metric, rpm, tpm, Check, Request, adjust, configured, check_locked, check,
  caches, verify, commit, conclude, check_and_consume, slowest_of, new_limiter,
}
use godwit.RateLimit.Limiter.Settle.{settle, settle_fields}
use godwit.RateLimit.Limiter.Checked.{find, after, metric_beq, find-check}
use godwit.RateLimit.Limiter.Effect.{configured-pos}

-- A bucket has a capacity, holds between nothing and its capacity, and was refilled by `t`.
pub record IsSound (b : TokenBucket) (t : ℕ) : Type 0 where
  pub limited : 0 < b.capacity
  pub within : IsWithin b
  pub clocked : b.last_refill ≤ t

pub record AllSound (l : RateLimiter) (t : ℕ) : Type 0 where
  pub at : (m : Metric) (key : Key) (b : TokenBucket) → find l m key ≡ some b → IsSound b t

adjust-IsWithin : (b : TokenBucket) (limit : ℕ) → IsWithin b → IsWithin (adjust b limit)
unfolding adjust
adjust-IsWithin b limit h = ground arith

settle-IsWithin : (b : TokenBucket) (limit t : ℕ) → IsWithin b → IsWithin (settle b limit t)
settle-IsWithin b limit t h = refill-IsWithin (adjust b limit) t (adjust-IsWithin b limit h)

check_locked-eq :
    (b : TokenBucket) (limit amount t : ℕ) (debits : Bool)
    → ((check_locked b limit amount debits t).0 ≡ settle b limit t)
      ⊎ ((wait_for (settle b limit t) amount ≡ none)
          × ((check_locked b limit amount debits t).0 ≡ debit (settle b limit t) amount))
unfolding check_locked deficit_retry_after
check_locked-eq b limit amount t debits = ground arith

debit_fields :
    (b : TokenBucket) (amount : ℕ)
    → ((debit b amount).capacity ≡ b.capacity) × ((debit b amount).last_refill ≡ b.last_refill)
unfolding debit
debit_fields b amount = (refl, refl)

settle-IsSound :
    (b : TokenBucket) (limit t : ℕ) → 0 < limit → IsWithin b → IsSound (settle b limit t) t
settle-IsSound b limit t h w =
    let (cap, last) = settle_fields b limit t h in
    record { limited = omega arith; within = settle-IsWithin b limit t w; clocked = omega arith }

debit-IsSound :
    (b : TokenBucket) (amount t : ℕ)
    → IsSound b t
    → wait_for b amount ≡ none
    → IsSound (debit b amount) t
debit-IsSound b amount t s e =
    let (cap, last) = debit_fields b amount in
    let clocked = s.clocked in
    let limited = s.limited in
    record {
      limited = omega arith;
      within = debit-IsWithin b amount s.limited s.within e;
      clocked = omega arith;
    }

check_locked-IsSound :
    (b : TokenBucket) (limit amount t : ℕ) (debits : Bool)
    → 0 < limit
    → IsWithin b
    → IsSound (check_locked b limit amount debits t).0 t
check_locked-IsSound b limit amount t debits h w = elim (check_locked-eq b limit amount t debits) [
  | inl e ↦ rw e (settle-IsSound b limit t h w)
  | inr (fits, e) ↦
      rw e (debit-IsSound (settle b limit t) amount t (settle-IsSound b limit t h w) fits)
]

IsSound-later : (b : TokenBucket) (t t' : ℕ) → t ≤ t' → IsSound b t → IsSound b t'
IsSound-later b t t' h s =
    let c = s.clocked in record { limited = s.limited; within = s.within; clocked = omega arith }

after-IsSound :
    (debits : Bool) (lim : Option ℕ) (amount : ℕ) (o : Option TokenBucket) (t : ℕ) (b : TokenBucket)
    → ((limit : ℕ) → lim ≡ some limit → 0 < limit)
    → ((b' : TokenBucket) → o ≡ some b' → IsSound b' t)
    → after debits lim amount o t ≡ some b
    → IsSound b t
after-IsSound debits none amount o t b pos_limit s e = s b e
after-IsSound debits (some limit) amount none t b pos_limit s e =
    let same : (check_locked (new limit t) limit amount debits t).0 ≡ b = cc in
    subst (λ x. IsSound x t) same
      (check_locked-IsSound (new limit t) limit amount t debits (pos_limit limit refl)
        (new-IsWithin limit t))
after-IsSound debits (some limit) amount (some b') t b pos_limit s e =
    let same : (check_locked b' limit amount debits t).0 ≡ b = cc in
    subst (λ x. IsSound x t) same
      (check_locked-IsSound b' limit amount t debits (pos_limit limit refl) (s b' refl).within)

check-AllSound :
    (l : RateLimiter) (debits : Bool) (t : ℕ) (c : Check)
    → AllSound l t
    → AllSound (check l c debits t).0 t
check-AllSound l debits t c s = record {
  at = λ m key b e. elim (Bool-cases (metric_beq c.metric m && c.key == key)) [
    | inl hit ↦
        after-IsSound debits (configured c.limit) c.amount (find l c.metric c.key) t b
          (configured-pos c.limit) (s.at c.metric c.key)
          (subst
            (λ x.
              (if x
                then after debits (configured c.limit) c.amount (find l c.metric c.key) t
                else find l m key)
              ≡ some b)
            hit (sym (find-check l debits t c m key) ∙ e))
    | inr miss ↦ s.at m key b (
        subst
          (λ x.
            (if x
              then after debits (configured c.limit) c.amount (find l c.metric c.key) t
              else find l m key)
            ≡ some b)
          miss (sym (find-check l debits t c m key) ∙ e))
  ];
}

AllSound-later : (l : RateLimiter) (t t' : ℕ) → t ≤ t' → AllSound l t → AllSound l t'
AllSound-later l t t' h s = record { at = λ m key b e. IsSound-later b t t' h (s.at m key b e) }

module _ (clock : ℕ → ℕ) (steady : (i j : ℕ) → i ≤ j → clock i ≤ clock j) where
  verify-AllSound :
      (i : ℕ) (l : RateLimiter) (cs : List Check) (slowest : Option ℕ) (n : ℕ)
      → i + length cs ≤ n
      → AllSound l (clock i)
      → AllSound (verify clock i l cs slowest).0 (clock n)
  unfolding verify
  verify-AllSound i l [] slowest n h s =
      AllSound-later l (clock i) (clock n) (steady i n (omega arith)) s
  verify-AllSound i l (c ∷ cs) slowest n h s =
      let (l', r) = check l c false (clock i) in
      verify-AllSound (suc i) l' cs (slowest_of slowest r) n (omega arith) (
        AllSound-later l' (clock i) (clock (suc i)) (steady i (suc i) (omega arith))
          (check-AllSound l false (clock i) c s))

  commit-AllSound :
      (i : ℕ) (l : RateLimiter) (cs : List Check) (n : ℕ)
      → i + length cs ≤ n
      → AllSound l (clock i)
      → AllSound (commit clock i l cs) (clock n)
  unfolding commit
  commit-AllSound i l [] n h s = AllSound-later l (clock i) (clock n) (steady i n (omega arith)) s
  commit-AllSound i l (c ∷ cs) n h s =
      let l' = (check l c true (clock i)).0 in
      commit-AllSound (suc i) l' cs n (omega arith) (
        AllSound-later l' (clock i) (clock (suc i)) (steady i (suc i) (omega arith))
          (check-AllSound l true (clock i) c s))

  conclude-AllSound :
      (l : RateLimiter) (cs : List Check) (slowest : Option ℕ) (n : ℕ)
      → 4 + length cs ≤ n
      → AllSound l (clock 4)
      → AllSound (conclude clock cs l slowest).0 (clock n)
  conclude-AllSound l cs none n h s = commit-AllSound 4 l cs n h s
  conclude-AllSound l cs (some r) n h s =
      AllSound-later l (clock 4) (clock n) (steady 4 n (omega arith)) s

  -- If the buckets are sound before a request, they are so after it.
  pub check_and_consume-AllSound :
      (l : RateLimiter) (r : Request)
      → AllSound l (clock 0)
      → AllSound (check_and_consume clock l r).0 (clock 8)
  unfolding check_and_consume
  check_and_consume-AllSound l r s =
      let (l', slowest) = verify clock 0 l (caches r) none in
      conclude-AllSound l' (caches r) slowest 8 (omega arith)
        (verify-AllSound 0 l (caches r) none 4 (omega arith) s)

-- Requests one after the other: the eighth reading of one is the first of the next.
pub serve_all : (ℕ → ℕ) → ℕ → RateLimiter → List Request → RateLimiter
serve_all clock i l [] = l
serve_all clock i l (r ∷ rs) =
    serve_all clock (i + 8) (check_and_consume (λ j. clock (i + j)) l r).0 rs

serve_all_sound :
    (clock : ℕ → ℕ) (i n : ℕ) (l : RateLimiter) (rs : List Request)
    → ((a b : ℕ) → a ≤ b → clock a ≤ clock b)
    → n ≡ i + 8 * length rs
    → AllSound l (clock i)
    → AllSound (serve_all clock i l rs) (clock n)
unfolding serve_all
serve_all_sound clock i n l [] steady e s =
    AllSound-later l (clock i) (clock n) (steady i n (omega arith)) s
serve_all_sound clock i n l (r ∷ rs) steady e s =
    let l' = (check_and_consume (λ j. clock (i + j)) l r).0 in
    serve_all_sound clock (i + 8) n l' rs steady (omega arith) (
      check_and_consume-AllSound (λ j. clock (i + j))
        (λ a b h. steady (i + a) (i + b) (omega arith)) l r
        (AllSound-later l (clock i) (clock (i + 0)) (steady i (i + 0) (omega arith)) s))

new_limiter-AllSound : (t : ℕ) → AllSound new_limiter t
unfolding new_limiter Dict.get
new_limiter-AllSound t = record { at = go }
  where
    go : (m : Metric) (key : Key) (b : TokenBucket) → find new_limiter m key ≡ some b → IsSound b t
    go rpm key b h = cc
    go tpm key b h = cc

-- From a new limiter on, after any requests one after the other, admitted or not, each bucket holds at
-- least nothing and at most its capacity, which is not 0, and was refilled no later than the next
-- reading of the clock; if the clock does not run backwards.
pub serve_all-AllSound :
    (clock : ℕ → ℕ) (rs : List Request)
    → ((a b : ℕ) → a ≤ b → clock a ≤ clock b)
    → AllSound (serve_all clock 0 new_limiter rs) (clock (8 * length rs))
serve_all-AllSound clock rs steady =
    serve_all_sound clock 0 (8 * length rs) new_limiter rs steady (omega arith)
      (new_limiter-AllSound (clock 0))
