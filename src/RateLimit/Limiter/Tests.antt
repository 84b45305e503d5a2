-- ===== src/RateLimit/Limiter/Tests.antt =====
-- Tests of `check_and_consume`, and instances of the theorems.
use godwit.Base.{
  ℕ, ◌*◌, ◌≤◌, ◌≡◌, ◌≢◌, ◌↔◌, inl, refl, none, some, ok, err, arith, [], ◌∷◌, nat_key, string_key,
  pair_key, length,
}
use godwit.Base.Dict
use godwit.Base.Int.{pos, ◌≤ℤ◌}
use godwit.Core.Error.{rate_limited}
use godwit.RateLimit.Bucket.{
  TokenBucket, token, second, wait_seconds, new, refill, deficit_retry_after,
}
use godwit.RateLimit.Limiter.{
  new_limiter, RateLimiter, Key, Metric, rpm, tpm, Request, caches, check_and_consume, adjust,
  verify, check, check_bucket, check_locked,
}
use godwit.RateLimit.Limiter.Settle.{seen}
use godwit.RateLimit.Limiter.Checked.{find}
use godwit.RateLimit.Limiter.Effect.{AllFit, Debited, Unchanged, IsClocked}
use godwit.RateLimit.Limiter.Outcome.{admitted_iff, admitted_debits, rejected_takes_nothing}
use godwit.RateLimit.Limiter.Invariant.{AllSound, serve_all, serve_all-AllSound}
use godwit.RateLimit.Limiter.Overlap.{overlapped, in_sequence, now, overlap_overadmits}

abbrev idle : RateLimiter
idle = record { rpm_buckets = Dict.empty; tpm_buckets = Dict.empty }

-- One request a minute for the key, 100 tokens a minute for the organization.
abbrev request : Request
request = record {
  api_key_id = 1;
  org_id = 2;
  model = "gpt";
  rpm_limit_key = some (pos 1);
  tpm_limit_key = none;
  rpm_limit_org = none;
  tpm_limit_org = some (pos 100);
  estimated_tokens = 40;
}

abbrev clock : ℕ → ℕ
clock i = i * second

clock_steady : (i j : ℕ) → i ≤ j → clock i ≤ clock j
clock_steady i j h = omega arith

find-idle : (m : Metric) (key : Key) → find idle m key ≡ none
unfolding Dict.get
find-idle rpm key = refl
find-idle tpm key = refl

idle-IsClocked : (t : ℕ) → IsClocked idle t
idle-IsClocked t = record { clocked = λ c b e. cc (find-idle c.metric c.key, e) }

idle-AllSound : (t : ℕ) → AllSound idle t
idle-AllSound t = record { at = λ m key b e. cc (find-idle m key, e) }

admitted : (check_and_consume clock idle request).1 ≡ ok tt
unfolding check_and_consume verify check check_bucket check_locked deficit_retry_after adjust
    Dict.get new
admitted = refl

-- The first request leaves no room for a second one.
abbrev spent : RateLimiter
spent = record {
  rpm_buckets = ((1, "gpt"), record { capacity = 1; tokens = pos 0; last_refill = 0 }) ∷ [];
  tpm_buckets = Dict.empty;
}

find-spent :
    (m : Metric) (key : Key) (b : TokenBucket) → find spent m key ≡ some b → b.last_refill ≡ 0
unfolding Dict.get
find-spent rpm key b e = ground arith
find-spent tpm key b e = cc

spent-IsClocked : (t : ℕ) → IsClocked spent t
spent-IsClocked t = record { clocked = λ c b e. omega (arith, find-spent c.metric c.key b e) }

rejected : (check_and_consume clock spent request).1 ≡ err (rate_limited, some 60)
unfolding check_and_consume verify check check_bucket check_locked deficit_retry_after adjust
    Dict.get new wait_seconds
rejected = refl

admitted_iff_example :
    ((check_and_consume clock idle request).1 ≡ ok tt) ↔ AllFit clock 0 idle (caches request)
admitted_iff_example = admitted_iff clock idle request (omega arith)

admitted_debits_example :
    Debited clock 4 idle (check_and_consume clock idle request).0 (caches request)
admitted_debits_example =
    admitted_debits clock clock_steady idle request (omega arith) (idle-IsClocked 0) admitted

rejected_takes_nothing_example :
    Unchanged (5 * second) spent (check_and_consume clock spent request).0 (caches request)
rejected_takes_nothing_example =
    rejected_takes_nothing clock clock_steady spent request (omega arith) (5 * second)
      (rate_limited, some 60) (omega arith) (spent-IsClocked 0) rejected

serve_all-AllSound_example :
    AllSound
      (serve_all clock 0 new_limiter (request ∷ request ∷ []))
      (clock (8 * length (request ∷ request ∷ [])))
serve_all-AllSound_example = serve_all-AllSound clock (request ∷ request ∷ []) clock_steady

admitted_now : (check_and_consume (now 7) idle request).1 ≡ ok tt
unfolding check_and_consume verify check check_bucket check_locked deficit_retry_after adjust
    Dict.get new
admitted_now = refl

one_token : ¬ (pos (2 * token) ≤ℤ (seen (find idle rpm (1, "gpt")) 1 7).tokens)
unfolding Dict.get refill adjust new
one_token h = omega (arith, h)

overlap_overadmits_example :
    ((overlapped (now 7) idle request request).1 ≡ ok tt)
    × ((overlapped (now 7) idle request request).2 ≡ ok tt)
    × ((in_sequence (now 7) idle request request).2 ≢ ok tt)
overlap_overadmits_example =
    overlap_overadmits 7 idle request (omega arith) (idle-IsClocked 7)
      ((admitted_iff (now 7) idle request (omega arith)).0 admitted_now) (inl (1, refl, one_token))
