-- ===== src/Base/Utf8.antt =====
-- `String::from_utf8_lossy`: bytes to code points, with U+FFFD for each longest prefix of a character
-- that does not go on as one.
use Prim.Native.Nat.{ℕ, zero, suc, ◌+◌, ◌-◌, ◌*◌}
use mathlib.Core.Path.{◌≡◌, refl, sym, ap, ◌∙◌}
use mathlib.Core.Bool.{Bool, true, ◌&&◌}
use mathlib.Core.List.{List, [], ◌∷◌, ◌++◌}
use godwit.Base.Tests.{leb, ltb, if◌then◌else◌}
use godwit.Base.Lists.{append_assoc, All}

-- The bytes that may come next: any continuation, or those after the first byte E0, ED, F0 or F4.
pub data Range : Type 0 where
  any e0 ed f0 f4 : Range

abbrev admits : Range → ℕ → Bool
admits any b = leb 0x80 b && leb b 0xBF
admits e0 b = leb 0xA0 b && leb b 0xBF
admits ed b = leb 0x80 b && leb b 0x9F
admits f0 b = leb 0x90 b && leb b 0xBF
admits f4 b = leb 0x80 b && leb b 0x8F

-- Between characters, or in one: the next byte, how many there are after it, and the bits so far.
pub data Decoder : Type 0 where
  idle : Decoder
  within : Range → ℕ → ℕ → Decoder

abbrev replacement : ℕ
replacement = 0xFFFD

-- The first byte of a character.
abbrev first : ℕ → List ℕ × Decoder
first b =
    if ltb b 0x80
    then (b ∷ [], idle)
    else if ltb b 0xC2
    then (replacement ∷ [], idle)
    else if ltb b 0xE0
    then ([], within any 0 (b - 0xC0))
    else if ltb b 0xE1
    then ([], within e0 1 0)
    else if ltb b 0xED
    then ([], within any 1 (b - 0xE0))
    else if ltb b 0xEE
    then ([], within ed 1 13)
    else if ltb b 0xF0
    then ([], within any 1 (b - 0xE0))
    else if ltb b 0xF1
    then ([], within f0 2 0)
    else if ltb b 0xF4
    then ([], within any 2 (b - 0xF0))
    else if ltb b 0xF5
    then ([], within f4 2 4)
    else (replacement ∷ [], idle)

abbrev continued : ℕ → ℕ → List ℕ × Decoder
continued zero bits = (bits ∷ [], idle)
continued (suc left) bits = ([], within any left bits)

abbrev feed : Decoder → ℕ → List ℕ × Decoder
feed idle b = first b
feed (within r left bits) b =
    if admits r b
    then continued left (bits * 64 + (b - 0x80))
    else let (out, d) = first b in (replacement ∷ out, d)

pub decode : List ℕ → Decoder → List ℕ
decode [] idle = []
decode [] (within r left bits) = replacement ∷ []
decode (b ∷ bs) d = let (out, d') = feed d b in out ++ decode bs d'

unfoldable pub from_utf8_lossy : List ℕ → List ℕ
unfolding decode
from_utf8_lossy bytes = decode bytes idle

decode-newline :
    (d : Decoder) (bs : List ℕ) → decode (10 ∷ bs) d ≡ decode [] d ++ (10 ∷ decode bs idle)
unfolding decode
decode-newline idle bs = refl
decode-newline (within any left bits) bs = refl
decode-newline (within e0 left bits) bs = refl
decode-newline (within ed left bits) bs = refl
decode-newline (within f0 left bits) bs = refl
decode-newline (within f4 left bits) bs = refl

decode-line :
    (a b : List ℕ) (d : Decoder) → decode (a ++ (10 ∷ b)) d ≡ decode a d ++ (10 ∷ decode b idle)
unfolding decode
decode-line [] b d = decode-newline d b
decode-line (x ∷ a) b d =
    let (out, d') = feed d x in
    ap (λ t. out ++ t) (decode-line a b d')
    ∙ sym (append_assoc out (decode a d') (10 ∷ decode b idle))

-- A newline ends every character, so that what comes before it and after it is read on its own.
pub from_utf8_lossy-line :
    (a b : List ℕ) → from_utf8_lossy (a ++ (10 ∷ b)) ≡ from_utf8_lossy a ++ (10 ∷ from_utf8_lossy b)
unfolding from_utf8_lossy
from_utf8_lossy-line a b = decode-line a b idle

-- ASCII is read as it is.
pub from_utf8_lossy-ascii :
    (a b : List ℕ)
    → All (λ c. ltb c 0x80 ≡ true) a
    → from_utf8_lossy (a ++ b) ≡ a ++ from_utf8_lossy b
unfolding from_utf8_lossy decode
from_utf8_lossy-ascii [] b h = refl
from_utf8_lossy-ascii (c ∷ a) b (low, h) = rw low (ap (λ t. c ∷ t) (from_utf8_lossy-ascii a b h))

-- The euro sign; one that breaks off before a newline; a surrogate; a byte that begins no character.
reads_characters :
    from_utf8_lossy (0xE2 ∷ 0x82 ∷ 0xAC ∷ 0xE2 ∷ 0x82 ∷ 10 ∷ 0xED ∷ 0xA0 ∷ 0xFF ∷ [])
    ≡ 0x20AC ∷ 0xFFFD ∷ 10 ∷ 0xFFFD ∷ 0xFFFD ∷ 0xFFFD ∷ []
unfolding from_utf8_lossy decode
reads_characters = refl
