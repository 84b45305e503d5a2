-- ===== src/Resilience/CircuitBreaker.antt =====
-- `CircuitBreaker` and `CircuitBreakerRegistry` of crates/godwit-api/src/circuit_breaker.rs.
--
-- Atomics and locks are fields. An `Instant` is a number of nanoseconds and `elapsed` saturates at 0,
-- as `-` does. A method that reads the clock takes its readings as arguments. `fetch_add` and
-- `fetch_sub` on a `usize` of 64 bits wrap around.
pub mod Invariant
pub mod Trips
pub mod Probes
pub mod Registry
mod Tests
use godwit.Base.{
  ℕ, ◌+◌, ◌-◌, ◌%◌, Bool, true, false, Option, none, some, List, [], ◌∷◌, leb, ltb, if◌then◌else◌,
}

pub data CircuitState : Type 0 where
  closed opened half_open : CircuitState

pub record CircuitBreaker : Type 0 where
  pub failures : ℕ
  pub successes : ℕ
  pub last_failure : Option ℕ
  pub circuit : CircuitState
  pub threshold : ℕ
  pub timeout : ℕ
  pub half_open_max : ℕ
  pub half_open_requests : ℕ

abbrev pub usize_mod : ℕ
usize_mod = 18_446_744_073_709_551_616

abbrev pub fetch_add : ℕ → ℕ
fetch_add n = (n + 1) % usize_mod

abbrev pub fetch_sub : ℕ → ℕ
fetch_sub n = (n + usize_mod - 1) % usize_mod

pub new : ℕ → ℕ → ℕ → CircuitBreaker
new threshold timeout half_open_max = record {
  failures = 0;
  successes = 0;
  last_failure = none;
  circuit = closed;
  threshold = threshold;
  timeout = timeout;
  half_open_max = half_open_max;
  half_open_requests = 0;
}

-- `last.elapsed() >= self.timeout`, if there is a last failure.
abbrev pub timed_out : Option ℕ → ℕ → ℕ → Bool → Bool
timed_out (some last) timeout now missing = leb timeout (now - last)
timed_out none timeout now missing = missing

abbrev pub state_of : CircuitState → CircuitBreaker → ℕ → CircuitBreaker × CircuitState
state_of closed cb now = (cb, closed)
state_of half_open cb now = (cb, half_open)
state_of opened cb now =
    if timed_out cb.last_failure cb.timeout now false
    then (record cb { circuit = half_open }, half_open)
    else (cb, opened)

pub state : CircuitBreaker → ℕ → CircuitBreaker × CircuitState
state cb now = state_of cb.circuit cb now

-- The `match` of `can_execute`, at its second reading of the clock.
abbrev pub can_execute_in : CircuitState → CircuitBreaker → ℕ → CircuitBreaker × Bool
can_execute_in closed cb now = (cb, true)
can_execute_in opened cb now = (cb, timed_out cb.last_failure cb.timeout now true)
can_execute_in half_open cb now =
    let reserved = cb.half_open_requests in
    let cb' = record cb { half_open_requests = fetch_add reserved } in
    if ltb reserved cb.half_open_max
    then (cb', true)
    else (record cb' { half_open_requests = fetch_sub cb'.half_open_requests }, false)

pub can_execute : CircuitBreaker → ℕ → ℕ → CircuitBreaker × Bool
unfolding state
can_execute cb now now' = let (cb', current) = state cb now in can_execute_in current cb' now'

abbrev pub success_in : CircuitState → CircuitBreaker → CircuitBreaker
success_in half_open cb = record cb { circuit = closed; failures = 0; half_open_requests = 0 }
success_in closed cb = record cb { failures = 0 }
success_in opened cb = cb

pub record_success : CircuitBreaker → CircuitBreaker
record_success cb = success_in cb.circuit (record cb { successes = fetch_add cb.successes })

abbrev pub failure_in : CircuitState → CircuitBreaker → CircuitBreaker
failure_in closed cb = if leb cb.threshold cb.failures then record cb { circuit = opened } else cb
failure_in half_open cb = record cb { circuit = opened; half_open_requests = 0 }
failure_in opened cb = cb

pub record_failure : CircuitBreaker → ℕ → CircuitBreaker
record_failure cb now =
    failure_in cb.circuit (record cb { failures = fetch_add cb.failures; last_failure = some now })
