-- ===== src/Base/Text.antt =====
-- What the program uses of Rust's `str`.
use mathlib.Core.Path.{◌≡◌, refl}
use mathlib.Core.Logic.{◌↔◌}
use text.Mathlib.TextLemmas.{cons-ne-nil}
use Prim.Native.Char.{code}
use Prim.Native.String.{String, len, find, slice, ◌++◌ as ◌++ₛ◌}
use Prim.Native.Nat.{ℕ, zero, suc, ◌+◌, ◌/◌, ◌%◌}
use mathlib.Core.Bool.{Bool, true, false, ◌&&◌}
use godwit.Base.Tests.{leb, ltb, nat_beq, if◌then◌else◌}

infixr 60 ◌<>◌
abbrev pub ◌<>◌ : String → String → String
s <> t = s ++ₛ t

-- `contains`
abbrev pub has : String → String → Bool
has s t = leb (find s t) (len s)

abbrev pub empty_text : String → Bool
empty_text String.[] = true
empty_text (String.◌∷◌ c s) = false

pub empty_text_iff : (s : String) → (empty_text s ≡ true) ↔ (s ≡ "")
empty_text_iff String.[] = (λ h. refl, λ h. refl)
empty_text_iff (String.◌∷◌ c s) = (λ h. cc, λ h. absurd (cons-ne-nil c s h))

abbrev all_slashes : String → Bool
all_slashes String.[] = true
all_slashes (String.◌∷◌ c s) = nat_beq (code c) b'/' && all_slashes s

-- `trim_end_matches('/')`
abbrev pub trim_end_slashes : String → String
trim_end_slashes String.[] = ""
trim_end_slashes (String.◌∷◌ c s) =
    let rest = trim_end_slashes s in
    if nat_beq (code c) b'/' && all_slashes s then "" else String.◌∷◌ c rest

abbrev digit : ℕ → String
digit n = slice "0123456789" n (n + 1)

-- The decimal digits; as much fuel as the number is enough.
abbrev digits : ℕ → ℕ → String
digits zero n = digit n
digits (suc fuel) n =
    let front = digits fuel (n / 10) in if ltb n 10 then digit n else front <> digit (n % 10)

abbrev pub show : ℕ → String
show n = digits n n
