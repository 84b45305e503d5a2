-- ===== src/Resilience/CircuitBreaker/Trips.antt =====
-- When a breaker opens, what it refuses then, and how it comes back.
use native.Mathlib.Nat.{add_assoc}
use godwit.Base.{
  ℕ, suc, ◌+◌, ◌≤◌, ◌<◌, ◌≡◌, refl, true, false, some, List, [], ◌∷◌, map, length, leb, Bool-cases,
  inl, inr, sym, ◌∙◌, arith, if◌then◌else◌,
}
use godwit.Resilience.CircuitBreaker.{
  CircuitBreaker, closed, opened, half_open, usize_mod, can_execute, record_success, record_failure,
}
use godwit.Resilience.CircuitBreaker.Invariant.{fail, perform, perform_all, IsValid}

leb-true : (a b : ℕ) → a ≤ b → leb a b ≡ true
leb-true a b h = ground arith

one-add : (n : ℕ) → 1 + n ≡ suc n
one-add n = omega arith

fail_opened :
    (cb : CircuitBreaker) (times : List ℕ)
    → cb.circuit ≡ opened
    → (perform_all cb (map fail times)).circuit ≡ opened
unfolding perform_all
fail_opened cb [] h = h
fail_opened cb (t ∷ times) h =
    fail_opened (perform cb (fail t)) times (unfold perform record_failure in ground arith)

fail_step :
    (cb : CircuitBreaker) (t : ℕ)
    → cb.circuit ≡ closed
    → cb.failures < cb.threshold
    → cb.threshold < usize_mod
    → let cb' = perform cb (fail t) in
      (cb'.threshold ≡ cb.threshold)
      × (cb'.failures ≡ cb.failures + 1)
      × (cb'.circuit ≡ (if leb cb.threshold (cb.failures + 1) then opened else closed))
unfolding perform record_failure
fail_step cb t h f m = ground arith

-- A closed breaker below its threshold is open after a run of failures exactly when they bring its
-- count to the threshold, whenever they happen.
pub trips_at_threshold :
    (cb : CircuitBreaker) (times : List ℕ)
    → cb.circuit ≡ closed
    → cb.failures < cb.threshold
    → cb.threshold < usize_mod
    → (perform_all cb (map fail times)).circuit
      ≡ (if leb cb.threshold (cb.failures + length times) then opened else closed)
unfolding perform_all
trips_at_threshold cb [] h f m = ground arith
trips_at_threshold cb (t ∷ times) h f m =
    let (same, count, circuit) = fail_step cb t h f m in
    elim (Bool-cases (leb cb.threshold (cb.failures + 1))) [
      | inl full ↦
          fail_opened (perform cb (fail t)) times (circuit ∙ rw full)
          ∙ sym (rw (leb-true cb.threshold (cb.failures + suc (length times)) (ground arith)))
      | inr below ↦
          trips_at_threshold (perform cb (fail t)) times (circuit ∙ rw below) (ground arith)
            (omega arith)
          ∙ rw (same, count)
              (rw (add_assoc cb.failures 1 (length times), one-add (length times)) refl)
    ]

-- An open breaker refuses every call, and stays as it is, while both its readings of the clock
-- come after the last failure, in order, by less than the timeout.
pub open_refuses :
    (cb : CircuitBreaker) (last now now' : ℕ)
    → cb.circuit ≡ opened
    → cb.last_failure ≡ some last
    → last ≤ now
    → now ≤ now'
    → now' < last + cb.timeout
    → can_execute cb now now' ≡ (cb, false)
unfolding can_execute
open_refuses cb last now now' h e k k' k'' = ground arith

-- Once the timeout has passed since the last failure, an open breaker that allows probes lets a
-- call through as its first probe; the success of the probe closes it, with a count of 0, and its
-- failure opens it again from that time on.
pub recovers :
    (cb : CircuitBreaker) (last now now' : ℕ)
    → IsValid cb
    → cb.circuit ≡ opened
    → cb.last_failure ≡ some last
    → last + cb.timeout ≤ now
    → 0 < cb.half_open_max
    → let (probed, admitted) = can_execute cb now now' in
      (admitted ≡ true)
      × (probed.circuit ≡ half_open)
      × (probed.half_open_requests ≡ 1)
      × ((record_success probed).circuit ≡ closed)
      × ((record_success probed).failures ≡ 0)
      × ((t : ℕ)
          → ((record_failure probed t).circuit ≡ opened)
            × ((record_failure probed t).last_failure ≡ some t))
unfolding can_execute record_success record_failure
recovers cb last now now' v h e k m = (
  ground arith,
  ground arith,
  ground arith,
  ground arith,
  ground arith,
  λ t. (ground arith, ground arith),
)
