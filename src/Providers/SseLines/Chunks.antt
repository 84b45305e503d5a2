-- ===== src/Providers/SseLines/Chunks.antt =====
-- How the cut of a text into chunks, each parsed on its own, shows in its events.
use godwit.Base.{
  ℕ, false, Option, none, List, [], ◌∷◌, ◌++◌, ◌≡◌, refl, ap, ◌∙◌, nat_beq, Bool-cases,
  Option-cases, inl, inr,
}
use godwit.Resilience.Fallback.{keep_some}
use godwit.Providers.SseLines.{
  Text, trim, lines, add_to_first, line_event, trimmed_event, strip_prefix, data_prefix,
  parse_sse_events, done_mark, colon, same,
}

some_line : (a : Text) → (l : Text) × (ls : List Text) × (lines (a ++ (10 ∷ [])) ≡ l ∷ ls)
unfolding lines
some_line [] = ([], [], refl)
some_line (c ∷ a) =
    let (l, ls, e) = some_line a in
    elim (Bool-cases (nat_beq c 10)) [
      | inl hit ↦ ([], l ∷ ls, rw (hit, e))
      | inr miss ↦ (c ∷ l, ls, rw (miss, e))
    ]

add_to_first-append :
    (c : ℕ) (ls ms : List Text) {l : Text} {rest : List Text}
    → ls ≡ l ∷ rest
    → add_to_first c (ls ++ ms) ≡ add_to_first c ls ++ ms
add_to_first-append c ls ms e = rw e

lines-append : (a b : Text) → lines (a ++ (10 ∷ b)) ≡ lines (a ++ (10 ∷ [])) ++ lines b
unfolding lines
lines-append [] b = refl
lines-append (c ∷ a) b =
    let (l, ls, e) = some_line a in
    elim (Bool-cases (nat_beq c 10)) [
      | inl hit ↦ rw (hit, lines-append a b)
      | inr miss ↦ rw (miss, lines-append a b) (add_to_first-append c _ (lines b) e)
    ]

keep_some-append :
    {A B : Type 0} (f : A → Option B) (xs ys : List A)
    → keep_some f (xs ++ ys) ≡ keep_some f xs ++ keep_some f ys
keep_some-append f [] ys = refl
keep_some-append f (x ∷ xs) ys = elim (Option-cases (f x)) [
  | inl skip ↦ rw skip (keep_some-append f xs ys)
  | inr (y, kept) ↦ rw kept (ap (λ l. y ∷ l) (keep_some-append f xs ys))
]

parse-append :
    (a b : Text)
    → parse_sse_events (a ++ (10 ∷ b)) ≡ parse_sse_events (a ++ (10 ∷ [])) ++ parse_sse_events b
unfolding parse_sse_events
parse-append a b =
    ap (keep_some line_event) (lines-append a b)
    ∙ keep_some-append line_event (lines (a ++ (10 ∷ []))) (lines b)

-- A text with no newline, that begins and ends with something other than white space.
abbrev pub OneLine : Text → Type 0
OneLine t = (lines t ≡ t ∷ []) × (lines (t ++ (10 ∷ [])) ≡ t ∷ []) × (trim t ≡ t)

-- The line gives this event, with or without its newline.
abbrev Gives : Text → List Text → Type 0
Gives t es = (parse_sse_events t ≡ es) × (parse_sse_events (t ++ (10 ∷ [])) ≡ es)

data_line-event :
    (x : Text)
    → OneLine (data_prefix ++ x)
    → same x done_mark ≡ false
    → Gives (data_prefix ++ x) (x ∷ [])
unfolding parse_sse_events line_event
data_line-event x h e = (rw (h.0, h.2) (rw e), rw (h.1, h.2) (rw e))

trimmed_event_other : (y : Text) → strip_prefix data_prefix y ≡ none → trimmed_event y ≡ none
trimmed_event_other [] e = refl
trimmed_event_other (c ∷ t) e = elim (Bool-cases (same (c ∷ t) colon)) [
  | inl hit ↦ rw hit
  | inr miss ↦ rw (miss, e)
]

other_line-event : (y : Text) → OneLine y → strip_prefix data_prefix y ≡ none → Gives y []
unfolding parse_sse_events line_event
other_line-event y h e =
    let skip = trimmed_event_other y e in (rw (h.0, h.2) (rw skip), rw (h.1, h.2) (rw skip))

-- A chunk border inside the payload of a line cuts the payload off there: its rest `y` is lost, if it
-- does not begin like a data line; read in one chunk, the line gives its whole payload.
pub cut_line_loses_rest :
    (x y rest : Text)
    → OneLine (data_prefix ++ x)
    → OneLine y
    → OneLine (data_prefix ++ (x ++ y))
    → same x done_mark ≡ false
    → same (x ++ y) done_mark ≡ false
    → strip_prefix data_prefix y ≡ none
    → (parse_sse_events (data_prefix ++ x) ++ parse_sse_events (y ++ (10 ∷ rest))
        ≡ x ∷ parse_sse_events rest)
      × (parse_sse_events ((data_prefix ++ (x ++ y)) ++ (10 ∷ rest))
          ≡ (x ++ y) ∷ parse_sse_events rest)
cut_line_loses_rest x y rest hx hy hxy nx nxy ny = (
  rw ((data_line-event x hx nx).0, parse-append y rest, (other_line-event y hy ny).1) refl,
  rw (parse-append (data_prefix ++ (x ++ y)) rest, (data_line-event (x ++ y) hxy nxy).1) refl,
)
