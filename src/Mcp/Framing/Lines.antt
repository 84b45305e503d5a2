-- ===== src/Mcp/Framing/Lines.antt =====
-- The lines of a stream of bytes, apart from how the reader finds them.
use godwit.Base.{
  ℕ, zero, suc, ◌≤◌, ◌≡◌, refl, true, false, Bool-cases, inl, inr, ◌==◌, nat_key, Option, none,
  some, List, [], ◌∷◌, length, if◌then◌else◌, arith,
}
use godwit.Mcp.Framing.{newline, next_line_offset, after, take, drop, keep_line, round, read_lines}

-- A byte before the first of the lines, or before the part that is no line yet.
abbrev pub before : ℕ → List (List ℕ) × List ℕ → List (List ℕ) × List ℕ
before b ([], tail) = ([], b ∷ tail)
before b (line ∷ lines, tail) = ((b ∷ line) ∷ lines, tail)

-- The lines, each with its newline, and what comes after the last newline.
unfoldable pub split : List ℕ → List (List ℕ) × List ℕ
split [] = ([], [])
split (b ∷ bytes) =
    let (lines, tail) = split bytes in
    if b == newline then ((b ∷ []) ∷ lines, tail) else before b (lines, tail)

-- What an offset of a newline says of the lines.
abbrev pub IsSplit : List ℕ → Option ℕ → Type 0
IsSplit buf none = split buf ≡ ([], buf)
IsSplit buf (some n) =
    split buf ≡ (take (suc n) buf ∷ (split (drop (suc n) buf)).0, (split (drop (suc n) buf)).1)

IsSplit-after :
    (b : ℕ) (buf : List ℕ) (o : Option ℕ)
    → (b == newline) ≡ false
    → IsSplit buf o
    → IsSplit (b ∷ buf) (after o)
unfolding split
IsSplit-after b buf none h s = rw (h, s) refl
IsSplit-after b buf (some n) h s = rw (h, s) refl

IsSplit-here : (b : ℕ) (buf : List ℕ) → (b == newline) ≡ true → IsSplit (b ∷ buf) (some 0)
unfolding split
IsSplit-here b buf h = rw h refl

pub next_line_offset-IsSplit : (buf : List ℕ) → IsSplit buf (next_line_offset buf)
unfolding next_line_offset split
next_line_offset-IsSplit [] = refl
next_line_offset-IsSplit (b ∷ buf) = elim (Bool-cases (b == newline)) [
  | inl hit ↦ rw hit (IsSplit-here b buf hit)
  | inr miss ↦
      rw miss (IsSplit-after b buf (next_line_offset buf) miss (next_line_offset-IsSplit buf))
]

length-drop : (n : ℕ) (buf : List ℕ) → length (drop n buf) ≤ length buf
length-drop zero buf = omega arith
length-drop (suc n) [] = omega arith
length-drop (suc n) (b ∷ buf) = omega (arith, length-drop n buf)

module _ {Frame : Type 0} (from_frame : List ℕ → Frame) where
  -- The frames of lines.
  unfoldable pub frames_of : List (List ℕ) → List Frame
  frames_of [] = []
  frames_of (line ∷ lines) = keep_line from_frame line (frames_of lines)

  round-split :
      (buf : List ℕ) (o : Option ℕ) (rest : List ℕ → List ℕ × List Frame)
      → IsSplit buf o
      → ((n : ℕ)
          → o ≡ some n
          → rest (drop (suc n) buf)
            ≡ ((split (drop (suc n) buf)).1, frames_of (split (drop (suc n) buf)).0))
      → round from_frame buf o rest ≡ ((split buf).1, frames_of (split buf).0)
  unfolding frames_of
  round-split buf none rest s h = rw s refl
  round-split buf (some n) rest s h = rw (s, h n refl) refl

  -- With as much fuel as there are bytes, the reader finds the lines and keeps the rest.
  pub read_lines-split :
      (fuel : ℕ) (buf : List ℕ)
      → length buf ≤ fuel
      → read_lines from_frame fuel buf ≡ ((split buf).1, frames_of (split buf).0)
  unfolding read_lines split frames_of next_line_offset
  read_lines-split zero [] h = refl
  read_lines-split zero (b ∷ buf) h = absurd (omega arith)
  read_lines-split (suc fuel) [] h = refl
  read_lines-split (suc fuel) (b ∷ buf) h =
      round-split (b ∷ buf) (next_line_offset (b ∷ buf)) (λ rest. read_lines from_frame fuel rest)
        (next_line_offset-IsSplit (b ∷ buf))
        (λ n e. read_lines-split fuel (drop n buf) (omega (arith, length-drop n buf)))
