-- ===== src/Mcp/Framing.antt =====
-- `FrameReader` of crates/godwit-mcp/src/jsonrpc.rs: lines of bytes from a pipe, each a message.
--
-- Bytes are numbers. `RpcMessage::from_frame` is a parameter, since it is serde_json's parser.
pub mod Lines
pub mod Chunks
mod Tests
use godwit.Base.{
  ℕ, zero, suc, ◌+◌, Bool, true, false, ◌&&◌, ◌||◌, ◌==◌, nat_key, Option, none, some, List, [],
  ◌∷◌, ◌++◌, length, is_empty, if◌then◌else◌,
}

abbrev pub newline : ℕ
newline = b'\n'

pub record FrameReader : Type 0 where
  pub buffer : List ℕ

unfoldable pub new : FrameReader
new = record { buffer = [] }

abbrev pub after : Option ℕ → Option ℕ
after (some n) = some (suc n)
after none = none

-- The place of the first newline.
pub next_line_offset : List ℕ → Option ℕ
next_line_offset [] = none
next_line_offset (b ∷ buf) = if b == newline then some 0 else after (next_line_offset buf)

abbrev pub take : {A : Type 0} → ℕ → List A → List A
take zero xs = []
take (suc n) [] = []
take (suc n) (x ∷ xs) = x ∷ take n xs

abbrev pub drop : {A : Type 0} → ℕ → List A → List A
drop zero xs = xs
drop (suc n) [] = []
drop (suc n) (x ∷ xs) = drop n xs

abbrev pub is_blank : ℕ → Bool
is_blank b = b == b' ' || (b == b'\t' || b == b'\r')

-- The loop on `start` of `trim_buf`, and the one on `end`.
pub trim_start : List ℕ → List ℕ
trim_start [] = []
trim_start (b ∷ buf) = let rest = trim_start buf in if is_blank b then rest else b ∷ buf

pub trim_end : List ℕ → List ℕ
trim_end [] = []
trim_end (b ∷ buf) = let rest = trim_end buf in if is_blank b && is_empty rest then [] else b ∷ rest

pub trim_buf : List ℕ → List ℕ
unfolding trim_start trim_end
trim_buf buf = trim_end (trim_start buf)

module _ {Frame : Type 0} (from_frame : List ℕ → Frame) where
  -- A line and the frames after it.
  abbrev pub keep_line : List ℕ → List Frame → List Frame
  keep_line line frames =
      let trimmed = trim_buf line in
      if is_empty trimmed then frames else from_frame trimmed ∷ frames

  -- One round: what is left of the buffer, and the frames; `rest` runs the other rounds.
  abbrev pub round : List ℕ → Option ℕ → (List ℕ → List ℕ × List Frame) → List ℕ × List Frame
  round buffer none rest = (buffer, [])
  round buffer (some offset) rest =
      let (left, frames) = rest (drop (suc offset) buffer) in
      (left, keep_line (take (suc offset) buffer) frames)

  -- The `loop` of `push`. Each round drains a byte at least, so as much fuel as there are bytes is
  -- enough.
  pub read_lines : ℕ → List ℕ → List ℕ × List Frame
  read_lines zero buffer = (buffer, [])
  read_lines (suc fuel) buffer =
      round buffer (next_line_offset buffer) (λ rest. read_lines fuel rest)

  pub push : FrameReader → List ℕ → FrameReader × List Frame
  unfolding read_lines
  push r bytes =
      let buffer = r.buffer ++ bytes in
      let (left, frames) = read_lines (length buffer) buffer in (record { buffer = left }, frames)
