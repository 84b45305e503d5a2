-- ===== src/Resilience/CircuitBreaker/Invariant.antt =====
-- The calls of a breaker in any order, and what holds between them.
use godwit.Base.{ℕ, ◌≤◌, ◌<◌, ◌≡◌, ◌≢◌, none, List, [], ◌∷◌, arith, max}
use godwit.Resilience.CircuitBreaker.{
  CircuitBreaker, closed, opened, half_open, usize_mod, new, state, can_execute, record_success,
  record_failure,
}

-- A call with its readings of the clock.
pub data Call : Type 0 where
  query : ℕ → Call
  ask : ℕ → ℕ → Call
  succeed : Call
  fail : ℕ → Call

unfoldable pub perform : CircuitBreaker → Call → CircuitBreaker
perform cb (query now) = (state cb now).0
perform cb (ask now now') = (can_execute cb now now').0
perform cb succeed = record_success cb
perform cb (fail now) = record_failure cb now

unfoldable pub perform_all : CircuitBreaker → List Call → CircuitBreaker
perform_all cb [] = cb
perform_all cb (c ∷ cs) = perform_all (perform cb c) cs

pub record IsValid (cb : CircuitBreaker) : Type 0 where
  -- The configuration fits its machine words.
  pub threshold_fits : cb.threshold < usize_mod
  pub max_fits : cb.half_open_max < usize_mod
  -- A closed breaker is below its threshold, or has seen no failure since it closed.
  pub closed_below : cb.circuit ≡ closed → cb.failures < max cb.threshold 1
  -- An open breaker knows its last failure.
  pub open_dated : cb.circuit ≡ opened → cb.last_failure ≢ none
  -- Probes are out only while half open, and never more than allowed.
  pub probes_half_open : cb.circuit ≢ half_open → cb.half_open_requests ≡ 0
  pub probes_bounded : cb.half_open_requests ≤ cb.half_open_max

-- A new breaker is valid, if its configuration fits its machine words.
pub new-IsValid :
    (threshold timeout half_open_max : ℕ)
    → threshold < usize_mod
    → half_open_max < usize_mod
    → IsValid (new threshold timeout half_open_max)
unfolding new
new-IsValid threshold timeout half_open_max h k = ground arith

pub perform-IsValid : (cb : CircuitBreaker) (c : Call) → IsValid cb → IsValid (perform cb c)
unfolding perform state can_execute record_success record_failure
perform-IsValid cb (query now) v = ground arith
perform-IsValid cb (ask now now') v = ground arith
perform-IsValid cb succeed v = ground arith
perform-IsValid cb (fail now) v = ground arith

-- Whatever calls are made at whatever times, a valid breaker stays valid.
pub perform_all-IsValid :
    (cb : CircuitBreaker) (cs : List Call) → IsValid cb → IsValid (perform_all cb cs)
unfolding perform_all
perform_all-IsValid cb [] v = v
perform_all-IsValid cb (c ∷ cs) v = perform_all-IsValid (perform cb c) cs (perform-IsValid cb c v)
