-- ===== src/Resilience/CircuitBreaker/Tests.antt =====
-- The tests of circuit_breaker.rs, and instances of the theorems.
use godwit.Base.{
  ℕ, ◌+◌, ◌-◌, ◌≡◌, refl, true, none, some, [], ◌∷◌, map, min, leb, String, string_key, arith,
  if◌then◌else◌,
}
use godwit.Resilience.CircuitBreaker.{
  CircuitBreaker, closed, opened, half_open, new, can_execute, record_success, record_failure,
}
use godwit.Resilience.CircuitBreaker.Invariant.{
  query, ask, succeed, fail, perform, perform_all, IsValid, new-IsValid, perform_all-IsValid,
}
use godwit.Resilience.CircuitBreaker.Trips.{trips_at_threshold, recovers}
use godwit.Resilience.CircuitBreaker.Probes.{asked, admitted, probes_exact}

-- A failure at 10 opened this breaker, which waits for 100.
abbrev tripped : CircuitBreaker
tripped = record {
  failures = 1;
  successes = 0;
  last_failure = some 10;
  circuit = opened;
  threshold = 1;
  timeout = 100;
  half_open_max = 2;
  half_open_requests = 0;
}

abbrev probing : CircuitBreaker
probing = record tripped { circuit = half_open }

fresh-tripped : perform_all (new 1 100 2) (fail 10 ∷ []) ≡ tripped
unfolding perform_all perform record_failure new
fresh-tripped = refl

tripped-IsValid : IsValid tripped
tripped-IsValid = ground arith

perform_all-IsValid_example :
    IsValid
      (perform_all (new 3 100 2) (fail 0 ∷ ask 1 1 ∷ fail 2 ∷ fail 3 ∷ query 200 ∷ succeed ∷ []))
perform_all-IsValid_example =
    perform_all-IsValid (new 3 100 2)
      (fail 0 ∷ ask 1 1 ∷ fail 2 ∷ fail 3 ∷ query 200 ∷ succeed ∷ [])
      (new-IsValid 3 100 2 (omega arith) (omega arith))

abbrev steady : CircuitBreaker
steady = record tripped { circuit = closed; failures = 0; last_failure = none; threshold = 3 }

trips_at_threshold_example :
    (perform_all steady (map fail (5 ∷ 6 ∷ 9 ∷ []))).circuit
    ≡ (if leb 3 (0 + 3) then opened else closed)
trips_at_threshold_example =
    trips_at_threshold steady (5 ∷ 6 ∷ 9 ∷ []) refl (omega arith) (omega arith)

recovers_example :
    let (probed, allowed) = can_execute tripped 110 110 in
    (allowed ≡ true)
    × (probed.circuit ≡ half_open)
    × (probed.half_open_requests ≡ 1)
    × ((record_success probed).circuit ≡ closed)
    × ((record_success probed).failures ≡ 0)
    × ((t : ℕ)
        → ((record_failure probed t).circuit ≡ opened)
          × ((record_failure probed t).last_failure ≡ some t))
recovers_example = recovers tripped 10 110 110 tripped-IsValid refl refl (omega arith) (omega arith)

probes_exact_example :
    admitted probing (ask 1 1 ∷ ask 2 2 ∷ query 3 ∷ ask 900 900 ∷ [])
    ≡ min (asked (ask 1 1 ∷ ask 2 2 ∷ query 3 ∷ ask 900 900 ∷ [])) (2 - 0)
probes_exact_example =
    probes_exact probing (ask 1 1 ∷ ask 2 2 ∷ query 3 ∷ ask 900 900 ∷ []) refl (omega arith)
      (omega arith) tt

abbrev openai : String
openai = "openai"

abbrev gemini : String
gemini = "gemini"
