-- ===== src/Core/PiiMasking/Splice.antt =====
-- A text as pieces: what a slice and `replace_range` do at the border of a piece.
use godwit.Base.{
  ℕ, suc, ◌+◌, ◌-◌, true, List, [], ◌∷◌, ◌++◌, length, take, drop, some, ◌≡◌, refl, ap, ◌∙◌, arith,
  length-append, take-length-append, drop-length-append,
}
use godwit.Core.PiiMasking.{Text, starts_char, range_ok, slice, replace_range}

-- The matches of a pattern, each behind the gap before it.
abbrev pub Pieces : Type 0
Pieces = List (Text × Text)

abbrev pub joined : Pieces → Text → Text
joined [] tail = tail
joined ((gap, found) ∷ ps) tail = gap ++ (found ++ joined ps tail)

-- Each match replaced.
abbrev pub masked_text : Text → Pieces → Text → Text
masked_text placeholder [] tail = tail
masked_text placeholder ((gap, found) ∷ ps) tail =
    gap ++ (placeholder ++ masked_text placeholder ps tail)

-- The ranges of the matches in a text whose pieces begin at `at`.
abbrev pub spans : ℕ → Pieces → List (ℕ × ℕ)
spans at [] = []
spans at ((gap, found) ∷ ps) =
    (at + length gap, at + length gap + length found) ∷ spans (at + length gap + length found) ps

-- Every piece begins with a character.
abbrev pub Aligned : Pieces → Text → Type 0
Aligned [] tail = starts_char tail ≡ true
Aligned ((gap, found) ∷ ps) tail =
    (starts_char gap ≡ true) × (starts_char found ≡ true) × Aligned ps tail

starts_char-append :
    (x y : Text) → starts_char x ≡ true → starts_char y ≡ true → starts_char (x ++ y) ≡ true
starts_char-append [] y hx hy = hy
starts_char-append (b ∷ x) y hx hy = hx

pub starts_char-joined :
    (ps : Pieces) (tail : Text) → Aligned ps tail → starts_char (joined ps tail) ≡ true
starts_char-joined [] tail h = h
starts_char-joined ((gap, found) ∷ ps) tail h =
    starts_char-append gap _ h.0 (starts_char-append found _ h.1 (starts_char-joined ps tail h.2))

pub starts_char-masked_text :
    (placeholder : Text) (ps : Pieces) (tail : Text)
    → starts_char placeholder ≡ true
    → Aligned ps tail
    → starts_char (masked_text placeholder ps tail) ≡ true
starts_char-masked_text placeholder [] tail hp h = h
starts_char-masked_text placeholder ((gap, found) ∷ ps) tail hp h =
    starts_char-append gap _ h.0
      (starts_char-append placeholder _ hp (starts_char-masked_text placeholder ps tail hp h.2))

take_exact : (x : Text) → take (length x) x ≡ x
take_exact [] = refl
take_exact (b ∷ x) = ap (λ l. b ∷ l) (take_exact x)

drop-add : (x y : Text) (n : ℕ) → drop (length x + n) (x ++ y) ≡ drop n y
drop-add [] y n = ap (λ k. drop k y) (omega arith)
drop-add (b ∷ x) y n =
    let e : suc (length x) + n ≡ suc (length x + n) = omega arith in
    ap (λ k. drop k (b ∷ (x ++ y))) e ∙ drop-add x y n

range_ok_piece :
    (x piece rest : Text)
    → starts_char piece ≡ true
    → starts_char rest ≡ true
    → range_ok (x ++ (piece ++ rest)) (length x) (length x + length piece) ≡ true
range_ok_piece x piece rest hp hr =
    rw
      (
        drop-length-append x (piece ++ rest),
        drop-add x (piece ++ rest) (length piece),
        drop-length-append piece rest,
        starts_char-append piece rest hp hr,
        hr,
        length-append x (piece ++ rest),
        length-append piece rest,
      )
      (ground arith)

module _ (x piece rest : Text) (hp : starts_char piece ≡ true) (hr : starts_char rest ≡ true) where
  width : length x + length piece - length x ≡ length piece
  width = omega arith

  pub slice_piece : slice (x ++ (piece ++ rest)) (length x) (length x + length piece) ≡ some piece
  unfolding slice
  slice_piece = rw (
    range_ok_piece x piece rest hp hr,
    drop-length-append x (piece ++ rest),
    width,
    take-length-append piece rest,
  )

  pub replace_range_piece :
      (new : Text)
      → replace_range (x ++ (piece ++ rest)) (length x) (length x + length piece) new
        ≡ some (x ++ (new ++ rest))
  unfolding replace_range
  replace_range_piece new = rw (
    range_ok_piece x piece rest hp hr,
    drop-add x (piece ++ rest) (length piece),
    drop-length-append piece rest,
    take-length-append x (piece ++ rest),
  )
