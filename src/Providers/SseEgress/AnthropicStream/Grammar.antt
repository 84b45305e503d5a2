-- ===== src/Providers/SseEgress/AnthropicStream/Grammar.antt =====
-- The frames of an Anthropic stream, without the state of its translator.
use godwit.Base.{
  ℕ, ◌+◌, String, string_key, ◌==◌, arith, Option, none, some, Bool, true, false, List, [], ◌∷◌,
  ◌++◌, if◌then◌else◌, ◌≡◌, refl, ap,
}
use godwit.Providers.Wire.{Wire}
use godwit.Providers.SseEgress.{
  ServerSentFrame, plain, event, CanonicalEvent, delta, tool_call, finish, error, unknown,
  parse_canonical_event,
}
use godwit.Providers.SseEgress.AnthropicStream.{
  AnthropicStreamTranslator, anthropic_frames, partial_frames, extract_partial_json, message_start,
  content_block_start, new, push,
}

module _ (w : Wire) where
  open w use {T, J}

  -- The frames of the payloads of a stream, pushed one after the other.
  pub run : AnthropicStreamTranslator w → List T → List (ServerSentFrame J)
  run t [] = []
  run t (d ∷ ds) = let (t', frames) = push w t d in frames ++ run t' ds

  -- What the payloads stand for, up to and with the first that finishes the stream or is an error.
  pub body : List T → List (ServerSentFrame J)
  body [] = []
  body (d ∷ ds) =
      let (done, frames) = anthropic_frames w (parse_canonical_event w d) in
      let rest = body ds in frames ++ (if done then [] else rest)

  -- The start of the message and of its block, if there is any payload, and the body.
  pub anthropic_stream : AnthropicStreamTranslator w → List T → List (ServerSentFrame J)
  anthropic_stream t [] = []
  anthropic_stream t (d ∷ ds) = message_start w t ∷ content_block_start w ∷ body (d ∷ ds)

  abbrev named_as : String → ServerSentFrame J → Bool
  named_as name (plain v) = false
  named_as name (event n v) = n == name

  -- How many frames are events of a name.
  abbrev pub count : String → List (ServerSentFrame J) → ℕ
  count name [] = 0
  count name (f ∷ fs) = (if named_as name f then 1 else 0) + count name fs

  -- A translator at work.
  abbrev at : T → T → Bool → Bool → AnthropicStreamTranslator w
  at id model started finished = record {
    id = id;
    model = model;
    started = started;
    finished = finished;
  }

  run_finished : (id model : T) (s : Bool) (ds : List T) → run (at id model s true) ds ≡ []
  unfolding run push
  run_finished id model s [] = refl
  run_finished id model s (d ∷ ds) = run_finished id model s ds

  -- One payload, by what it stands for.
  step_started :
      (id model : T) (ds : List T) (p : Bool × List (ServerSentFrame J))
      → run (at id model true false) ds ≡ body ds
      → p.1 ++ run (at id model true p.0) ds ≡ p.1 ++ (if p.0 then [] else body ds)
  step_started id model ds (true, frames) ih =
      ap (λ fs. frames ++ fs) (run_finished id model true ds)
  step_started id model ds (false, frames) ih = ap (λ fs. frames ++ fs) ih

  run_started : (id model : T) (ds : List T) → run (at id model true false) ds ≡ body ds
  unfolding run body push new
  run_started id model [] = refl
  run_started id model (d ∷ ds) =
      step_started id model ds (anthropic_frames w (parse_canonical_event w d))
        (run_started id model ds)

  -- A new translator makes of any payloads the frames of the grammar: the start of the message
  -- and of its one block if there is a payload, then what each stands for, up to and with the first that finishes the stream or is an
  -- error, and nothing after that.
  pub run-anthropic_stream :
      (id model : T) (ds : List T) → run (new w id model) ds ≡ anthropic_stream (new w id model) ds
  unfolding run push new anthropic_stream body
  run-anthropic_stream id model [] = refl
  run-anthropic_stream id model (d ∷ ds) =
      ap (λ fs. message_start w (new w id model) ∷ content_block_start w ∷ fs)
        (step_started id model ds (anthropic_frames w (parse_canonical_event w d))
          (run_started id model ds))

  count-append :
      (name : String) (fs gs : List (ServerSentFrame J))
      → count name (fs ++ gs) ≡ count name fs + count name gs
  count-append name [] gs = omega arith
  count-append name (f ∷ fs) gs = omega (arith, count-append name fs gs)

  no_block_partial :
      (o : Option T)
      → (count "content_block_start" (partial_frames w o) ≡ 0)
        × (count "content_block_stop" (partial_frames w o) ≡ 0)
  no_block_partial none = (refl, refl)
  no_block_partial (some args) = (refl, refl)

  no_block :
      (e : CanonicalEvent T)
      → (count "content_block_start" (anthropic_frames w e).1 ≡ 0)
        × (count "content_block_stop" (anthropic_frames w e).1 ≡ 0)
  no_block (delta t) = (refl, refl)
  no_block (tool_call t) = no_block_partial (extract_partial_json w t)
  no_block (finish p c r) = (refl, refl)
  no_block (error t) = (refl, refl)
  no_block unknown = (refl, refl)

  no_block_rest :
      (done : Bool) (ds : List T)
      → (count "content_block_start" (body ds) ≡ 0) × (count "content_block_stop" (body ds) ≡ 0)
      → (count "content_block_start" (if done then [] else body ds) ≡ 0)
        × (count "content_block_stop" (if done then [] else body ds) ≡ 0)
  no_block_rest true ds h = (refl, refl)
  no_block_rest false ds h = h

  body-no_block :
      (ds : List T)
      → (count "content_block_start" (body ds) ≡ 0) × (count "content_block_stop" (body ds) ≡ 0)
  unfolding body
  body-no_block [] = (refl, refl)
  body-no_block (d ∷ ds) =
      let frames = (anthropic_frames w (parse_canonical_event w d)).1 in
      let rest = if (anthropic_frames w (parse_canonical_event w d)).0 then [] else body ds in
      let (starts, stops) = no_block (parse_canonical_event w d) in
      let (starts', stops') =
        no_block_rest (anthropic_frames w (parse_canonical_event w d)).0 ds (body-no_block ds) in
      (
        omega (arith, count-append "content_block_start" frames rest, starts, starts'),
        omega (arith, count-append "content_block_stop" frames rest, stops, stops'),
      )

  -- A stream with any payload starts its block once, and never ends it.
  pub block_never_stops :
      (id model d : T) (ds : List T)
      → (count "content_block_start" (run (new w id model) (d ∷ ds)) ≡ 1)
        × (count "content_block_stop" (run (new w id model) (d ∷ ds)) ≡ 0)
  unfolding anthropic_stream
  block_never_stops id model d ds = rw (run-anthropic_stream id model (d ∷ ds)) (
      let (starts, stops) = body-no_block (d ∷ ds) in (omega (arith, starts), omega (arith, stops)))
