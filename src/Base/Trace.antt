-- ===== src/Base/Trace.antt =====
-- Computations that leave a trace of what they have done, and may fail: the bind keeps the order.
use mathlib.Core.List.{List, [], ◌∷◌, ◌++◌}
use mathlib.Core.Path.{◌≡◌, refl}
use godwit.Base.Outcomes.{Result, ok, err, err-ne-ok}

abbrev pub Traced : Type 0 → Type 0 → Type 0 → Type 0
Traced W E A = List W × Result E A

abbrev pub after : {W E A B : Type 0} → List W → Result E A → (A → Traced W E B) → Traced W E B
after ws (err e) f = (ws, err e)
after ws (ok a) f = let (ws', r) = f a in (ws ++ ws', r)

infixl 5 ◌>>=◌ ◌>>◌
abbrev pub ◌>>=◌ : {W E A B : Type 0} → Traced W E A → (A → Traced W E B) → Traced W E B
m >>= f = after m.0 m.1 f

abbrev pub ◌>>◌ : {W E B : Type 0} → Traced W E (Unit {0}) → Traced W E B → Traced W E B
m >> k = m >>= λ _. k

-- An answer of another part, which leaves no trace here.
abbrev pub ask : {W E A : Type 0} → Result E A → Traced W E A
ask r = ([], r)

-- What is done, with the answer to it.
abbrev pub act : {W E A : Type 0} → W → Result E A → Traced W E A
act w r = (w ∷ [], r)

-- What two steps that succeed together have passed through.
pub >>-eq-ok :
    {W E : Type 0} (m k : Traced W E (Unit {0}))
    → (m >> k).1 ≡ ok tt
    → (m.1 ≡ ok tt) × (k.1 ≡ ok tt)
>>-eq-ok (ws, err e) k h = absurd (err-ne-ok h)
>>-eq-ok (ws, ok tt) k h = (refl, h)

pub >>-ok :
    {W E : Type 0} (m k : Traced W E (Unit {0})) → m.1 ≡ ok tt → (m >> k) ≡ (m.0 ++ k.0, k.1)
>>-ok (ws, err e) k h = absurd (err-ne-ok h)
>>-ok (ws, ok tt) k h = refl

pub >>-err :
    {W E : Type 0} (m k : Traced W E (Unit {0})) {ws : List W} {e : E}
    → m ≡ (ws, err e)
    → (m >> k) ≡ (ws, err e)
>>-err m k h = rw h
