-- ===== src/RateLimit/Login/Window.antt =====
-- How many login attempts from one address a limiter lets through over a span of time.
use mathlib.Core.Path.{subst}
use godwit.Base.{ℕ, ◌+◌, ◌-◌, ◌*◌, ◌≤◌, ◌<◌, ◌&&◌, ◌==◌, String, List, [], ◌∷◌, arith, string_key}
use godwit.Base.Dict
use godwit.Base.Dict.{get-insert}
use godwit.RateLimit.Bucket.{token}
use godwit.RateLimit.Limiter.{is_none}
use godwit.RateLimit.Limiter.Settle.{elapsed_split}
use godwit.RateLimit.Login.{LoginLimiter, attempt_allowed}
use godwit.RateLimit.Login.Step.{
  Attempt, counted, IsSound, units, units_grow, units_bounded, capacity-attempt, next,
  attempt-IsSound, step_units,
}

-- How many attempts of `ip` the limiter lets through and debits.
unfoldable pub let_through : String → LoginLimiter → List Attempt → ℕ
let_through ip l [] = 0
let_through ip l (a ∷ rest) =
    let (l', retry_after) = attempt_allowed l a.ip a.debit_on_fail a.time in
    counted (a.ip == ip && (is_none retry_after && a.debit_on_fail)) + let_through ip l' rest

-- The attempts stand in the order of time, between `t` and `end`.
abbrev pub Ordered : ℕ → ℕ → List Attempt → Type 0
Ordered t end [] = t ≤ end
Ordered t end (a ∷ rest) = (t ≤ a.time) × Ordered a.time end rest

Ordered-le : (t end : ℕ) (attempts : List Attempt) → Ordered t end attempts → t ≤ end
Ordered-le t end [] o = o
Ordered-le t end (a ∷ rest) o = omega (arith, Ordered-le a.time end rest o.1, o.0)

-- From any point on, what is let through is paid from the units at hand and the refill.
let_through_paid :
    (ip : String) (l : LoginLimiter) (t end : ℕ) (attempts : List Attempt)
    → 0 < l.capacity
    → IsSound l t
    → Ordered t end attempts
    → let_through ip l attempts * token
      ≤ units (Dict.get ip l.buckets) l.capacity t + (end - t) * l.capacity
unfolding let_through
let_through_paid ip l t end [] h s o = omega arith
let_through_paid ip l t end (a ∷ rest) h s o =
    let same = capacity-attempt l h a.ip a.debit_on_fail a.time in
    let ih =
      let_through_paid ip (next l h a t o.0 s) a.time end rest (rw same h)
        (attempt-IsSound l h a t o.0 s) o.1 in
    let ih' =
      subst
        (λ c.
          let_through ip (next l h a t o.0 s) rest * token
          ≤ units (Dict.get ip (next l h a t o.0 s).buckets) c a.time + (end - a.time) * c)
        same ih in
    omega (
      arith,
      ih',
      step_units l h a t o.0 s ip,
      units_grow l.capacity h (Dict.get ip l.buckets) t a.time o.0 (s.at ip),
      elapsed_split t a.time end l.capacity o.0 (Ordered-le a.time end rest o.1),
    )

-- From an enabled limiter whose buckets are within their bounds, the attempts of one address that
-- are let through and debited between `t` and `end` are at most the capacity and one more for each
-- 60 / capacity seconds of that span, whatever other addresses and undebited attempts come between.
pub login_window_bound :
    (ip : String) (l : LoginLimiter) (t end : ℕ) (attempts : List Attempt)
    → 0 < l.capacity
    → IsSound l t
    → Ordered t end attempts
    → let_through ip l attempts * token ≤ l.capacity * token + (end - t) * l.capacity
login_window_bound ip l t end attempts h s o = omega (
  arith,
  let_through_paid ip l t end attempts h s o,
  units_bounded l.capacity h (Dict.get ip l.buckets) t (s.at ip),
)
