-- ===== src/Providers/SseLines/Frames.antt =====
-- What a stream of whole frames gives.
use godwit.Base.{
  ℕ, String, Result, ok, err, false, nat_beq, List, [], ◌∷◌, ◌++◌, All, ◌≡◌, refl, ap, ◌∙◌,
}
use godwit.Base.Utf8.{from_utf8_lossy, from_utf8_lossy-line, from_utf8_lossy-ascii}
use godwit.Resilience.Fallback.{keep_some}
use godwit.Providers.Wire.{Wire}
use godwit.Providers.Streaming.{normalize_openai_sse_event}
use godwit.Providers.SseLines.{
  Text, is_whitespace, trim, trim_end, keep, lines, line_event, same, data_prefix, done_mark,
  parse_sse_events, normalize_all, chat_stream_events,
}

-- A frame of a stream: a payload, as its bytes, or the mark of the end.
pub data Frame : Type 0 where
  payload : List ℕ → Frame
  done : Frame

-- A text of one line that does not end with white space.
abbrev pub OneLine : Text → Type 0
OneLine t =
    All (λ c. nat_beq c 10 ≡ false) t
    × (front : Text) × (last : ℕ) × (t ≡ front ++ (last ∷ []))
    × (is_whitespace last ≡ false)

abbrev pub IsFramed : Frame → Type 0
IsFramed (payload p) = OneLine (from_utf8_lossy p) × (same (from_utf8_lossy p) done_mark ≡ false)
IsFramed done = Unit

-- The bytes of frames: each is a data line and an empty line.
abbrev pub frames : List Frame → List ℕ
frames [] = []
frames (payload p ∷ fs) = data_prefix ++ (p ++ (10 ∷ 10 ∷ frames fs))
frames (done ∷ fs) = data_prefix ++ (done_mark ++ (10 ∷ 10 ∷ frames fs))

abbrev pub payloads : List Frame → List Text
payloads [] = []
payloads (payload p ∷ fs) = from_utf8_lossy p ∷ payloads fs
payloads (done ∷ fs) = payloads fs

lines-line :
    (t rest : Text) → All (λ c. nat_beq c 10 ≡ false) t → lines (t ++ (10 ∷ rest)) ≡ t ∷ lines rest
unfolding lines
lines-line [] rest h = refl
lines-line (c ∷ t) rest (other, h) = rw (other, lines-line t rest h) refl

keep-append : (c last : ℕ) (a : Text) → keep c (a ++ (last ∷ [])) ≡ c ∷ (a ++ (last ∷ []))
keep-append c last [] = refl
keep-append c last (d ∷ a) = refl

trim_end-append :
    (a : Text) (last : ℕ)
    → is_whitespace last ≡ false
    → trim_end (a ++ (last ∷ [])) ≡ a ++ (last ∷ [])
trim_end-append [] last h = rw h refl
trim_end-append (c ∷ a) last h = ap (keep c) (trim_end-append a last h) ∙ keep-append c last a

trim-data_prefix : (x : Text) → OneLine x → trim (data_prefix ++ x) ≡ data_prefix ++ x
unfolding trim
trim-data_prefix x (h, front, last, e, solid) =
    rw (e, trim_end-append (data_prefix ++ front) last solid) refl

parse-frame :
    (x rest : Text)
    → OneLine x
    → same x done_mark ≡ false
    → parse_sse_events (data_prefix ++ (x ++ (10 ∷ 10 ∷ rest))) ≡ x ∷ parse_sse_events rest
unfolding parse_sse_events line_event lines
parse-frame x rest h open_still =
    ap (keep_some line_event) (
      lines-line (data_prefix ++ x) (10 ∷ rest) (refl, (refl, (refl, (refl, (refl, (refl, h.0)))))))
    ∙ rw (trim-data_prefix x h) (rw open_still refl)

parse-done :
    (rest : Text)
    → parse_sse_events (data_prefix ++ (done_mark ++ (10 ∷ 10 ∷ rest))) ≡ parse_sse_events rest
unfolding parse_sse_events line_event lines trim
parse-done rest = refl

text-frame :
    (p rest : List ℕ)
    → from_utf8_lossy (data_prefix ++ (p ++ (10 ∷ 10 ∷ rest)))
      ≡ data_prefix ++ (from_utf8_lossy p ++ (10 ∷ 10 ∷ from_utf8_lossy rest))
text-frame p rest =
    from_utf8_lossy-ascii data_prefix (p ++ (10 ∷ 10 ∷ rest))
      (refl, (refl, (refl, (refl, (refl, (refl, tt))))))
    ∙ ap (λ t. data_prefix ++ t)
        (from_utf8_lossy-line p (10 ∷ rest)
          ∙ ap (λ t. from_utf8_lossy p ++ (10 ∷ t))
              (from_utf8_lossy-ascii (10 ∷ []) rest (refl, tt)))

parse-frames :
    (fs : List Frame)
    → All IsFramed fs
    → parse_sse_events (from_utf8_lossy (frames fs)) ≡ payloads fs
unfolding parse_sse_events from_utf8_lossy lines
parse-frames [] h = refl
parse-frames (payload p ∷ fs) ((line, open_still), h) =
    ap parse_sse_events (text-frame p (frames fs))
    ∙ parse-frame (from_utf8_lossy p) (from_utf8_lossy (frames fs)) line open_still
    ∙ ap (λ ps. from_utf8_lossy p ∷ ps) (parse-frames fs h)
parse-frames (done ∷ fs) (_, h) = parse-frames fs h

module _ (w : Wire) (of_chars : Text → w.T) where
  open w use {T}

  -- A chunk of whole frames, or one that failed.
  abbrev pub chunks : List (Result String (List Frame)) → List (Result String (List ℕ))
  chunks [] = []
  chunks (ok fs ∷ cs) = ok (frames fs) ∷ chunks cs
  chunks (err e ∷ cs) = err e ∷ chunks cs

  abbrev pub AllFramed : List (Result String (List Frame)) → Type 0
  AllFramed [] = Unit
  AllFramed (ok fs ∷ cs) = All IsFramed fs × AllFramed cs
  AllFramed (err e ∷ cs) = AllFramed cs

  abbrev canonical : List Frame → List T
  canonical [] = []
  canonical (payload p ∷ fs) =
      normalize_openai_sse_event w (of_chars (from_utf8_lossy p)) ++ canonical fs
  canonical (done ∷ fs) = canonical fs

  -- What the payloads of the chunks that came stand for, each on its own.
  abbrev pub streamed : List (Result String (List Frame)) → List T
  streamed [] = []
  streamed (ok fs ∷ cs) = canonical fs ++ streamed cs
  streamed (err e ∷ cs) = streamed cs

  normalize_all-payloads : (fs : List Frame) → normalize_all w of_chars (payloads fs) ≡ canonical fs
  unfolding normalize_all
  normalize_all-payloads [] = refl
  normalize_all-payloads (payload p ∷ fs) =
      ap (λ l. normalize_openai_sse_event w (of_chars (from_utf8_lossy p)) ++ l)
        (normalize_all-payloads fs)
  normalize_all-payloads (done ∷ fs) = normalize_all-payloads fs

  -- A stream each of whose chunks fails or has whole frames, each a data line with a payload of one
  -- line or with the mark of the end, gives in order what the payloads of the chunks that did not fail
  -- stand for: none is lost, split or joined, and neither a mark of the end nor a failed chunk ends it.
  pub chat_stream_events-frames :
      (cs : List (Result String (List Frame)))
      → AllFramed cs
      → chat_stream_events w of_chars (chunks cs) ≡ streamed cs
  unfolding chat_stream_events parse_sse_events lines
  chat_stream_events-frames [] h = refl
  chat_stream_events-frames (ok fs ∷ cs) (framed, h) =
      rw
        (
          ap (normalize_all w of_chars) (parse-frames fs framed) ∙ normalize_all-payloads fs,
          chat_stream_events-frames cs h,
        )
        refl
  chat_stream_events-frames (err e ∷ cs) h = chat_stream_events-frames cs h
