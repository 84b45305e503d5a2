-- ===== src/Providers/SseLines.antt =====
-- `parse_sse_events` of crates/godwit-providers/src/streaming.rs, and its use by `chat_stream` of the
-- adapters that speak the protocol of OpenAI. A text is its list of code points.
pub mod Chunks
pub mod Frames
mod Tests
use godwit.Base.{
  ℕ, Bool, true, false, ◌&&◌, ◌||◌, Option, none, some, List, [], ◌∷◌, ◌++◌, if◌then◌else◌, leb,
  nat_beq, String, Result, ok, err,
}
use godwit.Base.Utf8.{from_utf8_lossy}
use godwit.Resilience.Fallback.{keep_some}
use godwit.Providers.Wire.{Wire}
use godwit.Providers.Streaming.{normalize_openai_sse_event}

abbrev pub Text : Type 0
Text = List ℕ

-- `char::is_whitespace`
abbrev is_whitespace : ℕ → Bool
is_whitespace c =
    (leb 9 c && leb c 13)
    || nat_beq c 32
    || nat_beq c 0x85
    || nat_beq c 0xA0
    || nat_beq c 0x1680
    || (leb 0x2000 c && leb c 0x200A)
    || nat_beq c 0x2028
    || nat_beq c 0x2029
    || nat_beq c 0x202F
    || nat_beq c 0x205F
    || nat_beq c 0x3000

abbrev trim_start : Text → Text
trim_start [] = []
trim_start (c ∷ t) = let rest = trim_start t in if is_whitespace c then rest else c ∷ t

-- A code point in front of a text whose end is trimmed.
abbrev keep : ℕ → Text → Text
keep c [] = if is_whitespace c then [] else c ∷ []
keep c (d ∷ t) = c ∷ d ∷ t

abbrev trim_end : Text → Text
trim_end [] = []
trim_end (c ∷ t) = keep c (trim_end t)

pub trim : Text → Text
trim t = trim_start (trim_end t)

abbrev add_to_first : ℕ → List Text → List Text
add_to_first c [] = (c ∷ []) ∷ []
add_to_first c (l ∷ ls) = (c ∷ l) ∷ ls

-- `lines`; the `\r` that it takes off as well is taken off by `trim`.
pub lines : Text → List Text
lines [] = []
lines (c ∷ t) = let rest = lines t in if nat_beq c 10 then [] ∷ rest else add_to_first c rest

abbrev same : Text → Text → Bool
same [] [] = true
same (a ∷ s) (b ∷ t) = nat_beq a b && same s t
same _ _ = false

abbrev pub strip_prefix : Text → Text → Option Text
strip_prefix [] t = some t
strip_prefix (a ∷ p) [] = none
strip_prefix (a ∷ p) (b ∷ t) = let rest = strip_prefix p t in if nat_beq a b then rest else none

-- The prefix of a data line, the mark of the end of a stream, and ":".
abbrev pub data_prefix : Text
data_prefix = 100 ∷ 97 ∷ 116 ∷ 97 ∷ 58 ∷ 32 ∷ []

abbrev done_mark : Text
done_mark = 91 ∷ 68 ∷ 79 ∷ 78 ∷ 69 ∷ 93 ∷ []

abbrev colon : Text
colon = 58 ∷ []

abbrev event_of : Option Text → Option Text
event_of none = none
event_of (some payload) = if same payload done_mark then none else some payload

abbrev trimmed_event : Text → Option Text
trimmed_event [] = none
trimmed_event (c ∷ t) =
    if same (c ∷ t) colon then none else event_of (strip_prefix data_prefix (c ∷ t))

-- The event of a line, as its payload.
pub line_event : Text → Option Text
unfolding trim
line_event line = trimmed_event (trim line)

pub parse_sse_events : Text → List Text
unfolding lines line_event
parse_sse_events chunk = keep_some line_event (lines chunk)

-- The text of a chunk of bytes: one that failed is empty.
abbrev pub chunk_text : Result String (List ℕ) → Text
chunk_text (ok bytes) = from_utf8_lossy bytes
chunk_text (err e) = []

-- `of_chars` is the text of a list of code points.
module _ (w : Wire) (of_chars : Text → w.T) where
  open w use {T}

  pub normalize_all : List Text → List T
  normalize_all [] = []
  normalize_all (raw ∷ rest) = normalize_openai_sse_event w (of_chars raw) ++ normalize_all rest

  -- The events of a stream: each chunk of bytes that comes is parsed and normalized on its own.
  pub chat_stream_events : List (Result String (List ℕ)) → List T
  unfolding parse_sse_events normalize_all
  chat_stream_events [] = []
  chat_stream_events (chunk ∷ chunks) =
      normalize_all (parse_sse_events (chunk_text chunk)) ++ chat_stream_events chunks
