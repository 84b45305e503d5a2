-- ===== src/RateLimit/Limiter/Outcome.antt =====
-- What `check_and_consume` promises of a request: who is admitted, what an admitted request takes,
-- and that a rejected one takes nothing.
use godwit.Base.{ℕ, ◌≤◌, ◌≡◌, ◌≢◌, ◌↔◌, refl, Option, none, some, arith, ok, err, List}
use godwit.Core.Error.{PasteurError}
use godwit.RateLimit.Limiter.{
  RateLimiter, Check, Request, caches, verify, conclude, commit, check_and_consume,
}
use godwit.RateLimit.Limiter.Pass.{Apart, verify-Passed, commit-Passed, verify-none}
use godwit.RateLimit.Limiter.Effect.{
  AllFit, Debited, Unchanged, IsClocked, AllNone-AllFit, Passed-Debited, Passed-Unchanged,
}

-- A key and its organization have different buckets.
pub caches-Apart : (r : Request) → r.api_key_id ≢ r.org_id → Apart (caches r)
caches-Apart r h = ground arith

module _ (clock : ℕ → ℕ) (cs : List Check) (l : RateLimiter) where
  pub conclude-ok : (s : Option ℕ) → ((conclude clock cs l s).1 ≡ ok tt) ↔ (s ≡ none)
  conclude-ok none = (λ _. refl, λ _. refl)
  conclude-ok (some r) = (λ e. cc, λ e. cc)

  conclude-commits :
      (s : Option ℕ)
      → (conclude clock cs l s).1 ≡ ok tt
      → (conclude clock cs l s).0 ≡ commit clock 4 l cs
  conclude-commits none e = refl
  conclude-commits (some r) e = cc

  conclude-keeps :
      (s : Option ℕ) (x : PasteurError × Option ℕ)
      → (conclude clock cs l s).1 ≡ err x
      → (conclude clock cs l s).0 ≡ l
  conclude-keeps none x e = cc
  conclude-keeps (some r) x e = refl

module _ (clock : ℕ → ℕ) (l : RateLimiter) (r : Request) (distinct : r.api_key_id ≢ r.org_id) where
  apart : Apart (caches r)
  apart = caches-Apart r distinct

  -- A request is admitted exactly when every configured bucket holds its amount at its reading of
  -- the clock in the first pass, if the key and the organization have different ids.
  pub admitted_iff : ((check_and_consume clock l r).1 ≡ ok tt) ↔ AllFit clock 0 l (caches r)
  unfolding check_and_consume
  admitted_iff =
      let (l', s) = verify clock 0 l (caches r) none in
      let (to, from) = conclude-ok clock (caches r) l' s in
      let (to', from') = verify-none clock 0 l (caches r) none apart in
      let (to'', from'') = AllNone-AllFit clock 0 l (caches r) in
      (λ e. to'' (to' (to e)).1, λ f. from (from' (refl, from'' f)))

module _ (clock : ℕ → ℕ) (steady : (i j : ℕ) → i ≤ j → clock i ≤ clock j) (l : RateLimiter)
    (r : Request) (distinct : r.api_key_id ≢ r.org_id) where
  -- The buckets of an admitted request have each lost its amount, once, at its reading of the clock
  -- in the second pass, and nothing else, if the ids differ and the clock does not run backwards.
  pub admitted_debits :
      IsClocked l (clock 0)
      → (check_and_consume clock l r).1 ≡ ok tt
      → Debited clock 4 l (check_and_consume clock l r).0 (caches r)
  unfolding check_and_consume
  admitted_debits k e =
      let (l', s) = verify clock 0 l (caches r) none in
      let first = verify-Passed clock 0 l (caches r) none (caches-Apart r distinct) in
      let second = commit-Passed clock 4 l' (caches r) (caches-Apart r distinct) in
      rw (conclude-commits clock (caches r) l' s e) (
        Passed-Debited clock steady 0 4 l l' (commit clock 4 l' (caches r)) (caches r) (omega arith)
          k first second ((admitted_iff clock l r distinct).0 e))

  -- A rejected request changes nothing that is seen of its buckets after its readings of the clock,
  -- if the ids differ and the clock does not run backwards: it takes no token, also from the
  -- buckets that could have served it.
  pub rejected_takes_nothing :
      (t : ℕ) (x : PasteurError × Option ℕ)
      → clock 4 ≤ t
      → IsClocked l (clock 0)
      → (check_and_consume clock l r).1 ≡ err x
      → Unchanged t l (check_and_consume clock l r).0 (caches r)
  unfolding check_and_consume
  rejected_takes_nothing t x b k e =
      let (l', s) = verify clock 0 l (caches r) none in
      rw (conclude-keeps clock (caches r) l' s x e) (
        Passed-Unchanged clock steady 0 t l l' (caches r) 4 (omega arith) b k
          (verify-Passed clock 0 l (caches r) none (caches-Apart r distinct)))
