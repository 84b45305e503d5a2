-- ===== src/Api/ToolCalls/Fragments.antt =====
-- What the buffer makes of the fragments of a stream.
use godwit.Base.{
  ℕ, true, false, Option, none, some, List, [], ◌∷◌, ◌++◌, ◌≡◌, refl, sym, ap, ◌∙◌, arith, nat_beq,
  if◌then◌else◌, Bool-cases, Option-cases, inl, inr, append_assoc,
}
use godwit.Providers.Wire.{Wire}
use godwit.Resilience.Fallback.{keep_some}
use godwit.Api.ToolCalls.{
  CurrentToolState, ToolCall, ToolCallBuffer, new, fragment_of, complete, extend, push_fragment,
  push_delta, finish_all, finish_current_tool, non_empty_or,
}

module _ (w : Wire) (as_u64 : w.J → Option ℕ) where
  open w use {T, J, parse, is_empty, push_str, push_str_assoc}

  abbrev State : Type 0
  State = CurrentToolState w as_u64

  abbrev Buffer : Type 0
  Buffer = ToolCallBuffer w as_u64

  -- A fragment in front of the calls that the later ones make.
  abbrev pub attach : State → List State → List State
  attach f [] = f ∷ []
  attach f (g ∷ gs) = if nat_beq f.index g.index then extend w as_u64 f g ∷ gs else f ∷ g ∷ gs

  -- The calls: each is a longest run of fragments with one index, with the last id and the last name
  -- that are not empty, and the arguments one after the other.
  pub runs : List State → List State
  runs [] = []
  runs (f ∷ fs) = attach f (runs fs)

  abbrev pub push_all : Buffer → List State → Buffer
  push_all b [] = b
  push_all b (f ∷ fs) = push_all (push_fragment w as_u64 b b.current_tool f) fs

  last_of :
      (a b c : T)
      → non_empty_or w as_u64 c (non_empty_or w as_u64 b a)
        ≡ non_empty_or w as_u64 (non_empty_or w as_u64 c b) a
  last_of a b c = ground arith

  extend_assoc :
      (f g h : State)
      → extend w as_u64 (extend w as_u64 f g) h ≡ extend w as_u64 f (extend w as_u64 g h)
  extend_assoc f g h = rw (
    push_str_assoc f.arguments g.arguments h.arguments,
    last_of f.id g.id h.id,
    last_of f.name g.name h.name,
  )

  attach-extend :
      (c f : State) (gs : List State)
      → nat_beq c.index f.index ≡ true
      → attach (extend w as_u64 c f) gs ≡ attach c (attach f gs)
  attach-extend c f [] e = rw e
  attach-extend c f (g ∷ gs) e = elim (Bool-cases (nat_beq f.index g.index)) [
    | inl same ↦
        let far : nat_beq c.index g.index ≡ true = ground arith in
        rw (same, far, e) (ap (λ s. s ∷ gs) (extend_assoc c f g))
    | inr other ↦ let far : nat_beq c.index g.index ≡ false = ground arith in rw (other, far, e)
  ]

  attach_other :
      (c f : State) (gs : List State)
      → nat_beq c.index f.index ≡ false
      → attach c (attach f gs) ≡ c ∷ attach f gs
  attach_other c f [] e = rw e
  attach_other c f (g ∷ gs) e = elim (Bool-cases (nat_beq f.index g.index)) [
    | inl same ↦ rw (same, e)
    | inr other ↦ rw (other, e)
  ]

  pub complete_all : List State → List (ToolCall w as_u64)
  complete_all [] = []
  complete_all (s ∷ ss) = complete w as_u64 s ∷ complete_all ss

  at_work : List (ToolCall w as_u64) → State → Buffer
  at_work acc c = record { current_tool = some c; accumulated_tools = acc }

  push_same :
      (acc : List (ToolCall w as_u64)) (c f : State)
      → nat_beq c.index f.index ≡ true
      → push_fragment w as_u64 (at_work acc c) (some c) f ≡ at_work acc (extend w as_u64 c f)
  unfolding at_work
  push_same acc c f e = rw e

  push_other :
      (acc : List (ToolCall w as_u64)) (c f : State)
      → nat_beq c.index f.index ≡ false
      → push_fragment w as_u64 (at_work acc c) (some c) f
        ≡ at_work (acc ++ (complete w as_u64 c ∷ [])) f
  unfolding at_work
  push_other acc c f e = rw e

  finish_all-push_all :
      (acc : List (ToolCall w as_u64)) (c : State) (fs : List State)
      → (finish_all w as_u64 (push_all (at_work acc c) fs)).1
        ≡ acc ++ complete_all (attach c (runs fs))
  unfolding runs complete_all at_work finish_all finish_current_tool
  finish_all-push_all acc c [] = refl
  finish_all-push_all acc c (f ∷ fs) = elim (Bool-cases (nat_beq c.index f.index)) [
    | inl same ↦
        ap (λ b. (finish_all w as_u64 (push_all b fs)).1) (push_same acc c f same)
        ∙ finish_all-push_all acc (extend w as_u64 c f) fs
        ∙ ap (λ ss. acc ++ complete_all ss) (attach-extend c f (runs fs) same)
    | inr other ↦
        ap (λ b. (finish_all w as_u64 (push_all b fs)).1) (push_other acc c f other)
        ∙ finish_all-push_all (acc ++ (complete w as_u64 c ∷ [])) f fs
        ∙ append_assoc acc (complete w as_u64 c ∷ []) (complete_all (attach f (runs fs)))
        ∙ ap (λ ss. acc ++ complete_all ss) (sym (attach_other c f (runs fs) other))
  ]

  abbrev parsed : Option J → Option State
  parsed none = none
  parsed (some v) = some (fragment_of w as_u64 v)

  -- Pushing payloads pushes the fragments among them.
  abbrev pub push_deltas : Buffer → List T → Buffer
  push_deltas b [] = b
  push_deltas b (d ∷ ds) = push_deltas (push_delta w as_u64 b d) ds

  abbrev pub fragments : List T → List State
  fragments = keep_some (λ d. parsed (parse d))

  push_deltas-fragments : (b : Buffer) (ds : List T) → push_deltas b ds ≡ push_all b (fragments ds)
  unfolding push_delta
  push_deltas-fragments b [] = refl
  push_deltas-fragments b (d ∷ ds) = elim (Option-cases (parse d)) [
    | inl bad ↦ rw bad (push_deltas-fragments b ds)
    | inr (v, good) ↦ rw good (
        push_deltas-fragments (push_fragment w as_u64 b b.current_tool (fragment_of w as_u64 v)) ds)
  ]

  from_new :
      (fs : List State)
      → (finish_all w as_u64 (push_all (new w as_u64) fs)).1 ≡ complete_all (runs fs)
  unfolding new finish_all finish_current_tool runs complete_all at_work
  from_new [] = refl
  from_new (f ∷ fs) = finish_all-push_all [] f fs

  -- After any payloads, a new buffer ends with the calls of their runs, in order: payloads that are
  -- no JSON are left out, and fragments of one call that others come between give several calls.
  pub finish_all-runs :
      (ds : List T)
      → (finish_all w as_u64 (push_deltas (new w as_u64) ds)).1 ≡ complete_all (runs (fragments ds))
  finish_all-runs ds = rw (push_deltas-fragments (new w as_u64) ds) (from_new (fragments ds))
