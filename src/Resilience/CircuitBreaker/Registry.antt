-- ===== src/Resilience/CircuitBreaker/Registry.antt =====
-- `CircuitBreakerRegistry`: a breaker for each provider, made on demand. The `Arc` of an entry is
-- shared with the map, so a call on a breaker is a write to its entry.
use godwit.Base.{
  ℕ, ◌≡◌, refl, ap, ◌∙◌, Bool, true, false, Bool-cases, inl, inr, String, Option, none, some, List,
  [], ◌∷◌, ◌==◌, if◌then◌else◌, string_key,
}
use godwit.Base.Dict
use godwit.Base.Dict.{Dict, get-insert_twice}
use godwit.Resilience.CircuitBreaker
use godwit.Resilience.CircuitBreaker.{CircuitBreaker, CircuitState, new, state}
use godwit.Resilience.CircuitBreaker.Invariant.{perform, succeed, fail, query}

pub record CircuitBreakerRegistry : Type 0 where
  pub breakers : Dict String CircuitBreaker
  pub threshold : ℕ
  pub timeout : ℕ
  pub half_open_max : ℕ

-- `CircuitBreakerRegistry::new`
unfoldable pub new_registry : ℕ → ℕ → ℕ → CircuitBreakerRegistry
new_registry threshold timeout half_open_max = record {
  breakers = Dict.empty;
  threshold = threshold;
  timeout = timeout;
  half_open_max = half_open_max;
}

abbrev pub or_new : Option CircuitBreaker → ℕ → ℕ → ℕ → CircuitBreaker
or_new (some cb) threshold timeout half_open_max = cb
or_new none threshold timeout half_open_max = new threshold timeout half_open_max

-- `entry(provider_id).or_insert_with(..)`
pub get : CircuitBreakerRegistry → String → CircuitBreakerRegistry × CircuitBreaker
get r provider_id =
    let cb = or_new (Dict.get provider_id r.breakers) r.threshold r.timeout r.half_open_max in
    (record r { breakers = Dict.insert provider_id cb r.breakers }, cb)

abbrev write : CircuitBreakerRegistry → String → CircuitBreaker → CircuitBreakerRegistry
write r provider_id cb = record r { breakers = Dict.insert provider_id cb r.breakers }

pub record_success : CircuitBreakerRegistry → String → CircuitBreakerRegistry
unfolding get
record_success r provider_id =
    let (r', cb) = get r provider_id in write r' provider_id (CircuitBreaker.record_success cb)

pub record_failure : CircuitBreakerRegistry → String → ℕ → CircuitBreakerRegistry
unfolding get
record_failure r provider_id now =
    let (r', cb) = get r provider_id in write r' provider_id (CircuitBreaker.record_failure cb now)

-- The states of all entries; `now` is the reading of the clock at each.
pub states_of :
    Dict String CircuitBreaker
    → (String → ℕ)
    → Dict String CircuitBreaker × List (String × CircuitState)
states_of [] now = ([], [])
states_of ((id, cb) ∷ m) now =
    let (m', states) = states_of m now in
    let (cb', current) = state cb (now id) in ((id, cb') ∷ m', (id, current) ∷ states)

pub all_states :
    CircuitBreakerRegistry → (String → ℕ) → CircuitBreakerRegistry × List (String × CircuitState)
unfolding states_of
all_states r now = let (m, states) = states_of r.breakers now in (record r { breakers = m }, states)

-- The breaker that a provider has, if it was made or not.
abbrev pub breaker_of : CircuitBreakerRegistry → String → CircuitBreaker
breaker_of r provider_id =
    or_new (Dict.get provider_id r.breakers) r.threshold r.timeout r.half_open_max

or_new-if :
    (t d m : ℕ) (b : Bool) (cb : CircuitBreaker) (o : Option CircuitBreaker)
    → or_new (if b then some cb else o) t d m ≡ (if b then cb else or_new o t d m)
or_new-if t d m true cb o = refl
or_new-if t d m false cb o = refl

-- A failure is recorded in the breaker of its provider, made on demand, and in no other.
pub breaker_of-record_failure :
    (r : CircuitBreakerRegistry) (p q : String) (now : ℕ)
    → breaker_of (record_failure r p now) q
      ≡ (if p == q then perform (breaker_of r p) (fail now) else breaker_of r q)
unfolding record_failure perform
breaker_of-record_failure r p q now =
    let cb = breaker_of r p in
    let cb' = CircuitBreaker.record_failure cb now in
    ap (λ o. or_new o r.threshold r.timeout r.half_open_max)
      (get-insert_twice p q cb cb' r.breakers)
    ∙ or_new-if r.threshold r.timeout r.half_open_max (p == q) cb' (Dict.get q r.breakers)

pub breaker_of-record_success :
    (r : CircuitBreakerRegistry) (p q : String)
    → breaker_of (record_success r p) q
      ≡ (if p == q then perform (breaker_of r p) succeed else breaker_of r q)
unfolding record_success perform
breaker_of-record_success r p q =
    let cb = breaker_of r p in
    let cb' = CircuitBreaker.record_success cb in
    ap (λ o. or_new o r.threshold r.timeout r.half_open_max)
      (get-insert_twice p q cb cb' r.breakers)
    ∙ or_new-if r.threshold r.timeout r.half_open_max (p == q) cb' (Dict.get q r.breakers)

abbrev looked_at : Option CircuitBreaker → ℕ → Option CircuitBreaker
looked_at none now = none
looked_at (some cb) now = some (state cb now).0

get-states_of :
    (m : Dict String CircuitBreaker) (now : String → ℕ) (q : String)
    → Dict.get q (states_of m now).0 ≡ looked_at (Dict.get q m) (now q)
unfolding states_of Dict.get
get-states_of [] now q = refl
get-states_of ((id, cb) ∷ m) now q = elim (Bool-cases (id == q)) [
  | inl hit ↦ rw hit (ap (λ k. some (state cb (now k)).0) ((string_key.same_iff id q).0 hit))
  | inr miss ↦ rw miss (get-states_of m now q)
]

or_new-looked_at :
    (t d m : ℕ) (o : Option CircuitBreaker) (now : ℕ)
    → or_new (looked_at o now) t d m ≡ (state (or_new o t d m) now).0
unfolding new state
or_new-looked_at t d m none now = refl
or_new-looked_at t d m (some cb) now = refl

-- A listing of the states advances each breaker as a query of its own state does.
pub breaker_of-all_states :
    (r : CircuitBreakerRegistry) (now : String → ℕ) (q : String)
    → breaker_of (all_states r now).0 q ≡ perform (breaker_of r q) (query (now q))
unfolding all_states perform
breaker_of-all_states r now q =
    ap (λ o. or_new o r.threshold r.timeout r.half_open_max) (get-states_of r.breakers now q)
    ∙ or_new-looked_at r.threshold r.timeout r.half_open_max (Dict.get q r.breakers) (now q)
