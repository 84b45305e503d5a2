-- ===== src/Mcp/Framing/Chunks.antt =====
-- The frames of a stream do not depend on how it is cut, and there is one for each newline.
use godwit.Base.{
  ℕ, ◌+◌, ◌≡◌, refl, sym, ap, ◌∙◌, Bool, true, false, Bool-cases, inl, inr, ◌==◌, nat_key, List, [],
  ◌∷◌, ◌++◌, length, append_assoc, is_empty, ◌||◌, if◌then◌else◌, arith,
}
use godwit.Mcp.Framing.{newline, FrameReader, keep_line, push, trim_buf, trim_start, trim_end}
use godwit.Mcp.Framing.Lines.{before, split, frames_of, read_lines-split}

-- What splitting more bytes gives, from the lines so far and the rest.
abbrev joined : List (List ℕ) × List ℕ → List ℕ → List (List ℕ) × List ℕ
joined (lines, tail) more = let (lines', tail') = split (tail ++ more) in (lines ++ lines', tail')

before-joined :
    (b : ℕ) (s : List (List ℕ) × List ℕ) (more : List ℕ)
    → (b == newline) ≡ false
    → before b (joined s more) ≡ joined (before b s) more
unfolding split
before-joined b ([], tail) more h = rw h refl
before-joined b (line ∷ lines, tail) more h = refl

split-append : (xs ys : List ℕ) → split (xs ++ ys) ≡ joined (split xs) ys
unfolding split
split-append [] ys = refl
split-append (b ∷ xs) ys = elim (Bool-cases (b == newline)) [
  | inl hit ↦ rw (hit, split-append xs ys) refl
  | inr miss ↦ rw (miss, split-append xs ys) (before-joined b (split xs) ys miss)
]

module _ {Frame : Type 0} (from_frame : List ℕ → Frame) where
  keep_line-append :
      (line : List ℕ) (xs ys : List Frame)
      → keep_line from_frame line (xs ++ ys) ≡ keep_line from_frame line xs ++ ys
  keep_line-append line xs ys = elim (Bool-cases (is_empty (trim_buf line))) [
    | inl none_left ↦ rw none_left refl
    | inr some_left ↦ rw some_left refl
  ]

  frames_of-append :
      (xs ys : List (List ℕ))
      → frames_of from_frame (xs ++ ys) ≡ frames_of from_frame xs ++ frames_of from_frame ys
  unfolding frames_of
  frames_of-append [] ys = refl
  frames_of-append (l ∷ xs) ys =
      ap (keep_line from_frame l) (frames_of-append xs ys)
      ∙ keep_line-append l (frames_of from_frame xs) (frames_of from_frame ys)

  push-split :
      (r : FrameReader) (bytes : List ℕ)
      → push from_frame r bytes ≡ (
        record { buffer = (split (r.buffer ++ bytes)).1 },
        frames_of from_frame (split (r.buffer ++ bytes)).0,
      )
  unfolding push
  push-split r bytes =
      ap (λ s. (record { buffer = s.0 }, s.1))
        (read_lines-split from_frame (length (r.buffer ++ bytes)) (r.buffer ++ bytes) (omega arith))

  -- Two chunks give the frames, and leave the buffer, that the same bytes in one chunk do.
  pub push-append :
      (r : FrameReader) (xs ys : List ℕ)
      → push from_frame r (xs ++ ys) ≡ (
          let (r₁, frames₁) = push from_frame r xs in
          let (r₂, frames₂) = push from_frame r₁ ys in (r₂, frames₁ ++ frames₂))
  push-append r xs ys =
      let (lines, tail) = split (r.buffer ++ xs) in
      let (lines', tail') = split (tail ++ ys) in
      rw (push-split r xs) (
        rw (push-split (record { buffer = tail }) ys) (
          push-split r (xs ++ ys)
          ∙ ap (λ s. (record { buffer = s.1 }, frames_of from_frame s.0))
              (ap split (sym (append_assoc r.buffer xs ys)) ∙ split-append (r.buffer ++ xs) ys)
          ∙ ap (λ frames. (record { buffer = tail' }, frames)) (frames_of-append lines lines')))

-- The newlines among bytes.
pub newlines : List ℕ → ℕ
newlines [] = 0
newlines (b ∷ bytes) = (if b == newline then 1 else 0) + newlines bytes

pub has_newline : List ℕ → Bool
has_newline [] = false
has_newline (b ∷ bytes) = b == newline || has_newline bytes

trim_start-newline :
    (line : List ℕ) → has_newline line ≡ true → has_newline (trim_start line) ≡ true
unfolding has_newline trim_start
trim_start-newline [] h = h
trim_start-newline (b ∷ line) h =
    ground (arith, trim_start-newline line, nat_key.same_iff b newline)

trim_end-newline : (line : List ℕ) → has_newline line ≡ true → has_newline (trim_end line) ≡ true
unfolding has_newline trim_end
trim_end-newline [] h = h
trim_end-newline (b ∷ line) h =
    ground (arith, trim_end-newline line, empty_has_none (trim_end line))
  where
    empty_has_none : (l : List ℕ) → is_empty l ≡ true → has_newline l ≡ false
    empty_has_none [] e = refl
    empty_has_none (x ∷ l) e = cc

-- Trimming a whole line leaves its newline.
trim_buf-whole : (line : List ℕ) → has_newline line ≡ true → is_empty (trim_buf line) ≡ false
unfolding trim_buf has_newline
trim_buf-whole line h =
    not_empty (trim_buf line) (trim_end-newline (trim_start line) (trim_start-newline line h))
  where
    not_empty : (l : List ℕ) → has_newline l ≡ true → is_empty l ≡ false
    not_empty [] e = cc
    not_empty (x ∷ l) e = refl

-- Every line has its newline.
abbrev pub Whole : List (List ℕ) → Type 0
Whole [] = Unit
Whole (line ∷ lines) = (has_newline line ≡ true) × Whole lines

before-Whole : (b : ℕ) (s : List (List ℕ) × List ℕ) → Whole s.0 → Whole (before b s).0
unfolding has_newline
before-Whole b ([], tail) w = tt
before-Whole b (line ∷ lines, tail) w = (ground (arith, w.0), w.1)

split-Whole : (bytes : List ℕ) → Whole (split bytes).0
unfolding split has_newline
split-Whole [] = tt
split-Whole (b ∷ bytes) = elim (Bool-cases (b == newline)) [
  | inl hit ↦ rw hit (ground (arith, hit), split-Whole bytes)
  | inr miss ↦ rw miss (before-Whole b (split bytes) (split-Whole bytes))
]

before-length : (b : ℕ) (s : List (List ℕ) × List ℕ) → length (before b s).0 ≡ length s.0
before-length b ([], tail) = refl
before-length b (line ∷ lines, tail) = refl

split-length : (bytes : List ℕ) → length (split bytes).0 ≡ newlines bytes
unfolding split newlines
split-length [] = refl
split-length (b ∷ bytes) = elim (Bool-cases (b == newline)) [
  | inl hit ↦ rw hit (omega (arith, split-length bytes))
  | inr miss ↦ rw miss (before-length b (split bytes) ∙ omega (arith, split-length bytes))
]

module _ {Frame : Type 0} (from_frame : List ℕ → Frame) where
  frames_of-length :
      (lines : List (List ℕ)) → Whole lines → length (frames_of from_frame lines) ≡ length lines
  unfolding frames_of
  frames_of-length [] w = refl
  frames_of-length (line ∷ lines) w =
      rw (trim_buf-whole line w.0) (omega (arith, frames_of-length lines w.1))

  -- The reader answers each newline with a frame, also one on a blank line: trimming does not take
  -- the newline off, so no line is ever skipped.
  pub frame_per_newline :
      (r : FrameReader) (bytes : List ℕ)
      → length (push from_frame r bytes).1 ≡ newlines (r.buffer ++ bytes)
  frame_per_newline r bytes =
      let lines = (split (r.buffer ++ bytes)).0 in
      ap (λ s. length s.1) (push-split from_frame r bytes)
      ∙ frames_of-length lines (split-Whole (r.buffer ++ bytes))
      ∙ split-length (r.buffer ++ bytes)
