-- ===== src/RateLimit/Login/Tests.antt =====
-- Instances of the theorem on login attempts.
use godwit.Base.{◌+◌, ◌-◌, ◌*◌, ◌≤◌, ◌≡◌, refl, true, List, [], ◌∷◌, arith, string_key}
use godwit.Base.Dict
use godwit.RateLimit.Bucket.{token, second, deficit_retry_after, debit}
use godwit.RateLimit.Bucket as Bucket
use godwit.RateLimit.Login.{LoginLimiter, new, attempt_allowed, attempt_locked}
use godwit.RateLimit.Login.Step.{Attempt, IsSound}
use godwit.RateLimit.Login.Window.{let_through, login_window_bound}

-- Two attempts a minute.
abbrev limiter : LoginLimiter
limiter = record { capacity = 2; buckets = Dict.empty }

new-limiter : new 2 ≡ limiter
unfolding new
new-limiter = refl

-- Three at once and one after half a minute.
abbrev attempts : List Attempt
attempts =
    record { ip = "a"; debit_on_fail = true; time = 0 }
    ∷ record { ip = "a"; debit_on_fail = true; time = 0 }
    ∷ record { ip = "a"; debit_on_fail = true; time = 0 }
    ∷ record { ip = "a"; debit_on_fail = true; time = 30 * second }
    ∷ []

attempts-let_through : let_through "a" limiter attempts ≡ 3
unfolding let_through attempt_allowed attempt_locked deficit_retry_after Dict.get Dict.insert
    Bucket.new debit
attempts-let_through = refl

limiter-IsSound : IsSound limiter 0
unfolding Dict.get
limiter-IsSound = record { at = λ ip b e. cc }

login_window_bound_example :
    let_through "a" limiter attempts * token ≤ 2 * token + (30 * second - 0) * 2
login_window_bound_example =
    login_window_bound "a" limiter 0 (30 * second) attempts (omega arith) limiter-IsSound
      (omega arith, (omega arith, (omega arith, (omega arith, omega arith))))
