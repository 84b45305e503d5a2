-- ===== src/Base/Maybe.antt =====
-- The bind of `Option`: a value that may be missing, or a computation that may panic.
use mathlib.Core.Path.{◌≡◌, refl}
use mathlib.Core.Option.{Option, none, some}

infixl 5 ◌>>=◌
abbrev pub ◌>>=◌ : {A B : Type 0} → Option A → (A → Option B) → Option B
none >>= f = none
some a >>= f = f a

pub >>=-assoc :
    {A B C : Type 0} (m : Option A) (f : A → Option B) (k : B → Option C)
    → ((m >>= f) >>= k) ≡ (m >>= λ x. f x >>= k)
>>=-assoc none f k = refl
>>=-assoc (some x) f k = refl

-- What a computation that returns has passed through.
pub >>=-eq-some :
    {A B : Type 0} (m : Option A) (f : A → Option B) {b : B}
    → (m >>= f) ≡ some b
    → (a : A) × (m ≡ some a) × (f a ≡ some b)
>>=-eq-some none f h = cc
>>=-eq-some (some a) f h = (a, refl, h)

pub >>=-some : {A : Type 0} (m : Option A) → (m >>= some) ≡ m
>>=-some none = refl
>>=-some (some a) = refl
