-- ===== src/Resilience/CircuitBreaker/Probes.antt =====
-- How many calls a half-open breaker lets through.
use godwit.Base.{ℕ, ◌+◌, ◌-◌, ◌≤◌, ◌<◌, ◌≡◌, Bool, true, false, List, [], ◌∷◌, min, arith}
use godwit.Resilience.CircuitBreaker.{CircuitBreaker, half_open, usize_mod, state, can_execute}
use godwit.Resilience.CircuitBreaker.Invariant.{Call, query, ask, succeed, fail, perform}

abbrev count_true : Bool → ℕ
count_true true = 1
count_true false = 0

-- The calls of `can_execute` among the calls, and those that are let through.
pub asked : List Call → ℕ
asked [] = 0
asked (ask now now' ∷ cs) = 1 + asked cs
asked (_ ∷ cs) = asked cs

pub admitted : CircuitBreaker → List Call → ℕ
admitted cb [] = 0
admitted cb (ask now now' ∷ cs) =
    count_true (can_execute cb now now').1 + admitted (perform cb (ask now now')) cs
admitted cb (c ∷ cs) = admitted (perform cb c) cs

-- No outcome of a call is recorded.
abbrev pub Unrecorded : List Call → Type 0
Unrecorded [] = Unit
Unrecorded (query now ∷ cs) = Unrecorded cs
Unrecorded (ask now now' ∷ cs) = Unrecorded cs
Unrecorded (succeed ∷ cs) = ⊥
Unrecorded (fail now ∷ cs) = ⊥

ask_step :
    (cb : CircuitBreaker) (now now' : ℕ)
    → cb.circuit ≡ half_open
    → cb.half_open_max < usize_mod
    → cb.half_open_requests ≤ cb.half_open_max
    → let cb' = perform cb (ask now now') in
      let ok = (can_execute cb now now').1 in
      (cb'.circuit ≡ half_open)
      × (cb'.half_open_max ≡ cb.half_open_max)
      × (cb'.half_open_requests ≤ cb'.half_open_max)
      × (cb'.half_open_requests ≡ cb.half_open_requests + count_true ok)
      × (count_true ok ≡ min 1 (cb.half_open_max - cb.half_open_requests))
unfolding perform can_execute
ask_step cb now now' h f b = ground arith

query_step : (cb : CircuitBreaker) (now : ℕ) → cb.circuit ≡ half_open → perform cb (query now) ≡ cb
unfolding perform state
query_step cb now h = ground arith

-- While no outcome is recorded, a half-open breaker lets through exactly the calls that there is
-- room for, at whatever times they come: when all its probes are out it refuses for ever.
pub probes_exact :
    (cb : CircuitBreaker) (cs : List Call)
    → cb.circuit ≡ half_open
    → cb.half_open_max < usize_mod
    → cb.half_open_requests ≤ cb.half_open_max
    → Unrecorded cs
    → admitted cb cs ≡ min (asked cs) (cb.half_open_max - cb.half_open_requests)
unfolding admitted asked
probes_exact cb [] h f b u = omega arith
probes_exact cb (query now ∷ cs) h f b u = rw (query_step cb now h) (probes_exact cb cs h f b u)
probes_exact cb (ask now now' ∷ cs) h f b u =
    let (circuit, same, bounded, requests, one) = ask_step cb now now' h f b in
    let ih = probes_exact (perform cb (ask now now')) cs circuit (omega arith) bounded u in
    omega arith
probes_exact cb (succeed ∷ cs) h f b u = absurd u
probes_exact cb (fail now ∷ cs) h f b u = absurd u
