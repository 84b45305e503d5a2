-- ===== src/RateLimit/Limiter/Pass.antt =====
-- A pass over the checks of a request, bucket by bucket.
use godwit.Base.{
  ℕ, suc, Bool, true, false, ◌≡◌, ◌↔◌, refl, ◌∙◌, sym, Option, none, some, List, [], ◌∷◌, All,
  arith,
}
use godwit.RateLimit.Limiter.{RateLimiter, Check, check, verify, commit, slowest_of}
use godwit.RateLimit.Limiter.Checked.{
  bucket, meets, meets-sym, after_check, answer_check, bucket-check, bucket-check_apart,
  answer-check,
}

-- No two checks are on one bucket.
abbrev pub Apart : List Check → Type 0
Apart [] = Unit
Apart (c ∷ cs) = All (λ d. meets c d ≡ false) cs × Apart cs

-- Each bucket of the pass was checked once, as it stood before the pass.
abbrev pub Passed : Bool → (ℕ → ℕ) → ℕ → RateLimiter → RateLimiter → List Check → Type 0
Passed debits clock i l l' [] = Unit
Passed debits clock i l l' (c ∷ cs) =
    (bucket l' c ≡ after_check debits c (bucket l c) (clock i))
    × Passed debits clock (suc i) l l' cs

-- Every answer of the pass is `none`.
abbrev pub AllNone : (ℕ → ℕ) → ℕ → RateLimiter → List Check → Type 0
AllNone clock i l [] = Unit
AllNone clock i l (c ∷ cs) =
    (answer_check false c (bucket l c) (clock i) ≡ none) × AllNone clock (suc i) l cs

abbrev Agree : RateLimiter → RateLimiter → List Check → Type 0
Agree l l' = All (λ c. bucket l c ≡ bucket l' c)

module _ (clock : ℕ → ℕ) (l₁ l : RateLimiter) where
  Passed-Agree :
      (debits : Bool) (i : ℕ) (l' : RateLimiter) (cs : List Check)
      → Agree l₁ l cs
      → Passed debits clock i l₁ l' cs
      → Passed debits clock i l l' cs
  Passed-Agree debits i l' [] a p = tt
  Passed-Agree debits i l' (c ∷ cs) a p =
      (rw (← a.0) p.0, Passed-Agree debits (suc i) l' cs a.1 p.1)

  AllNone-Agree :
      (i : ℕ) (cs : List Check) → Agree l₁ l cs → AllNone clock i l₁ cs ↔ AllNone clock i l cs
  AllNone-Agree i [] a = (λ _. tt, λ _. tt)
  AllNone-Agree i (c ∷ cs) a =
      let (to, from) = AllNone-Agree (suc i) cs a.1 in
      (λ p. (rw (← a.0) p.0, to p.1), λ p. (rw a.0 p.0, from p.1))

check-Agree :
    (l : RateLimiter) (debits : Bool) (t : ℕ) (c : Check) (cs : List Check)
    → All (λ d. meets c d ≡ false) cs
    → Agree (check l c debits t).0 l cs
check-Agree l debits t c [] h = tt
check-Agree l debits t c (d ∷ cs) h =
    (bucket-check_apart l debits t c d h.0, check-Agree l debits t c cs h.1)

module _ (clock : ℕ → ℕ) where
  -- Buckets that the checks of a pass do not meet stay as they are.
  bucket-verify_apart :
      (i : ℕ) (l : RateLimiter) (cs : List Check) (slowest : Option ℕ) (d : Check)
      → All (λ c. meets c d ≡ false) cs
      → bucket (verify clock i l cs slowest).0 d ≡ bucket l d
  unfolding verify
  bucket-verify_apart i l [] slowest d h = refl
  bucket-verify_apart i l (c ∷ cs) slowest d h =
      let (l', r) = check l c false (clock i) in
      bucket-verify_apart (suc i) l' cs (slowest_of slowest r) d h.1
      ∙ bucket-check_apart l false (clock i) c d h.0

  bucket-commit_apart :
      (i : ℕ) (l : RateLimiter) (cs : List Check) (d : Check)
      → All (λ c. meets c d ≡ false) cs
      → bucket (commit clock i l cs) d ≡ bucket l d
  unfolding commit
  bucket-commit_apart i l [] d h = refl
  bucket-commit_apart i l (c ∷ cs) d h =
      bucket-commit_apart (suc i) (check l c true (clock i)).0 cs d h.1
      ∙ bucket-check_apart l true (clock i) c d h.0

All-meets-sym :
    (c : Check) (cs : List Check)
    → All (λ d. meets c d ≡ false) cs
    → All (λ d. meets d c ≡ false) cs
All-meets-sym c [] h = tt
All-meets-sym c (d ∷ cs) h = (meets-sym c d h.0, All-meets-sym c cs h.1)

module _ (clock : ℕ → ℕ) where
  pub verify-Passed :
      (i : ℕ) (l : RateLimiter) (cs : List Check) (slowest : Option ℕ)
      → Apart cs
      → Passed false clock i l (verify clock i l cs slowest).0 cs
  unfolding verify
  verify-Passed i l [] slowest apart = tt
  verify-Passed i l (c ∷ cs) slowest apart =
      let (l', r) = check l c false (clock i) in
      (
        bucket-verify_apart clock (suc i) l' cs (slowest_of slowest r) c
              (All-meets-sym c cs apart.0)
            ∙ bucket-check l false (clock i) c,
        Passed-Agree clock l' l false (suc i) (verify clock (suc i) l' cs (slowest_of slowest r)).0
            cs (check-Agree l false (clock i) c cs apart.0)
            (verify-Passed (suc i) l' cs (slowest_of slowest r) apart.1),
      )

  pub commit-Passed :
      (i : ℕ) (l : RateLimiter) (cs : List Check)
      → Apart cs
      → Passed true clock i l (commit clock i l cs) cs
  unfolding commit
  commit-Passed i l [] apart = tt
  commit-Passed i l (c ∷ cs) apart =
      let l' = (check l c true (clock i)).0 in
      (
        bucket-commit_apart clock (suc i) l' cs c (All-meets-sym c cs apart.0)
            ∙ bucket-check l true (clock i) c,
        Passed-Agree clock l' l true (suc i) (commit clock (suc i) l' cs) cs
            (check-Agree l true (clock i) c cs apart.0) (commit-Passed (suc i) l' cs apart.1),
      )

  slowest_of-none : (s r : Option ℕ) → (slowest_of s r ≡ none) ↔ ((s ≡ none) × (r ≡ none))
  slowest_of-none none none = ground arith
  slowest_of-none none (some r) = ground arith
  slowest_of-none (some s) none = ground arith
  slowest_of-none (some s) (some r) = ground arith

  pub verify-none :
      (i : ℕ) (l : RateLimiter) (cs : List Check) (slowest : Option ℕ)
      → Apart cs
      → ((verify clock i l cs slowest).1 ≡ none) ↔ ((slowest ≡ none) × AllNone clock i l cs)
  unfolding verify
  verify-none i l [] slowest apart = (λ e. (e, tt), λ e. e.0)
  verify-none i l (c ∷ cs) slowest apart =
      let (l', r) = check l c false (clock i) in
      let (to, from) = verify-none (suc i) l' cs (slowest_of slowest r) apart.1 in
      let (to', from') =
        AllNone-Agree clock l' l (suc i) cs (check-Agree l false (clock i) c cs apart.0) in
      let (split, join) = slowest_of-none slowest r in
      let answered = answer-check l false (clock i) c in
      (
        λ e. let (n, rest) = to e in let (n', r') = split n in (n', (sym answered ∙ r', to' rest)),
        λ h. from (join (h.0, answered ∙ h.1.0), from' h.1.1),
      )
