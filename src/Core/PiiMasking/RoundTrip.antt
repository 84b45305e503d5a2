-- ===== src/Core/PiiMasking/RoundTrip.antt =====
-- Unmasking after masking, where one pattern has found something.
use godwit.Base.{
  ℕ, ◌+◌, ◌-◌, ◌%◌, ◌<◌, Bool, true, not, ◌||◌, String, string_key, none, some, List, [], ◌∷◌, ◌++◌,
  length, All, ◌≡◌, refl, sym, ap, ◌∙◌, arith, append_assoc, append_nil, length-append, ==-refl,
}
use godwit.Base.Dict
use godwit.Base.Dict.{get-insert, get-remove}
use godwit.Base.Maybe.{◌>>=◌}
use godwit.Core.PiiMasking.{
  Text, Replacement, PiiPattern, PiiMasker, usize_mod, starts_char, mask_matches, mask_patterns,
  mask, unmask, unmask_loop,
}
use godwit.Core.PiiMasking.Splice.{
  Pieces, joined, masked_text, spans, Aligned, starts_char-masked_text, replace_range_piece,
}
use godwit.Core.PiiMasking.Masking.{
  isize_mod, all_long, records, gap_of, length_three, mask_matches_lem,
}

module _ (placeholder : Text) (hp : starts_char placeholder ≡ true) where
  -- One round: the text before it has `a` bytes, where the masked text had `b`.
  unmask_round :
      (x rest : Text) (a b g : ℕ) (r : Replacement) (rs : List Replacement)
      → r.start ≡ b + g
      → r.placeholder ≡ placeholder
      → starts_char rest ≡ true
      → length x ≡ a + g
      → a + g + length r.original < isize_mod
      → a + g + length placeholder < usize_mod
      → b + g + length placeholder < isize_mod
      → unmask_loop (x ++ (placeholder ++ rest)) (gap_of a b) (r ∷ rs)
        ≡ unmask_loop
            (x ++ (r.original ++ rest))
            (gap_of (a + g + length r.original) (b + g + length placeholder))
            rs
  unfolding unmask_loop
  unmask_round x rest a b g r rs es ep hr lx ha ha' hb =
      let start_ok : (r.start + gap_of a b) % usize_mod ≡ length x = rw es (omega arith) in
      let end_ok : (length x + length placeholder) % usize_mod ≡ length x + length placeholder =
        omega arith in
      let offset_ok : (gap_of a b + length r.original + (usize_mod - length placeholder))
            % usize_mod
          ≡ gap_of (a + g + length r.original) (b + g + length placeholder) =
        omega arith in
      rw (start_ok, ep, end_ok, replace_range_piece x placeholder rest hp hr r.original, offset_ok)

  unmask_loop-masked_text :
      (ps : Pieces) (tail pre : Text) (b : ℕ)
      → Aligned ps tail
      → length pre + length (joined ps tail) < isize_mod
      → b + length (masked_text placeholder ps tail) < isize_mod
      → unmask_loop
          (pre ++ masked_text placeholder ps tail)
          (gap_of (length pre) b)
          (records placeholder b ps)
        ≡ some (pre ++ joined ps tail)
  unmask_loop-masked_text [] tail pre b al ha hb = unfold unmask_loop in refl
  unmask_loop-masked_text ((gap, found) ∷ ps) tail pre b al ha hb =
      let rest = masked_text placeholder ps tail in
      let x = pre ++ gap in
      let lx = length-append pre gap in
      let l3 = length_three pre gap found in
      let lj = length-append gap (found ++ joined ps tail) in
      let lj' = length-append found (joined ps tail) in
      let lm = length-append gap (placeholder ++ rest) in
      let lm' = length-append placeholder rest in
      let rs = records placeholder (b + length gap + length placeholder) ps in
      let offset = λ (a : ℕ). gap_of a (b + length gap + length placeholder) in
      ap (λ t. unmask_loop t (gap_of (length pre) b) (records placeholder b ((gap, found) ∷ ps)))
        (sym (append_assoc pre gap (placeholder ++ rest)))
      ∙ unmask_round x rest (length pre) b (length gap) _ rs refl refl
          (starts_char-masked_text placeholder ps tail hp al.2) lx (omega arith) (omega arith)
          (omega arith)
      ∙ ap (λ a. unmask_loop (x ++ (found ++ rest)) (offset a) rs) (sym l3)
      ∙ ap (λ t. unmask_loop t (offset (length (x ++ found))) rs) (sym (append_assoc x found rest))
      ∙ unmask_loop-masked_text ps tail (x ++ found) _ al.2 (omega arith) (omega arith)
      ∙ ap some
          (append_assoc x found (joined ps tail) ∙ append_assoc pre gap (found ++ joined ps tail))

-- No pattern of the list finds anything in the text.
abbrev pub NothingFound :
    {Regex : Type 0} → (Regex → Text → List (ℕ × ℕ)) → Text → List (PiiPattern Regex) → Type 0
NothingFound find_iter text = All (λ p. find_iter p.pattern text ≡ [])

module _ (checked : Bool) {Regex : Type 0} (find_iter : Regex → Text → List (ℕ × ℕ)) where
  mask_patterns-NothingFound :
      (text : Text) (reps : List Replacement) (before after : List (PiiPattern Regex))
      → NothingFound find_iter text before
      → mask_patterns checked find_iter text reps (before ++ after)
        ≡ mask_patterns checked find_iter text reps after
  unfolding mask_patterns mask_matches
  mask_patterns-NothingFound text reps [] after h = refl
  mask_patterns-NothingFound text reps (p ∷ before) after h =
      rw h.0 (mask_patterns-NothingFound text reps before after h.1)

  mask_patterns-cons :
      (text masked : Text) (reps reps' : List Replacement) (p : PiiPattern Regex)
      (after : List (PiiPattern Regex))
      → mask_matches checked p.replacement text 0 reps (find_iter p.pattern text)
        ≡ some (masked, reps')
      → NothingFound find_iter masked after
      → mask_patterns checked find_iter text reps (p ∷ after) ≡ some (masked, reps')
  mask_patterns-cons text masked reps reps' p after e h =
      let quiet =
        ap (λ l. mask_patterns checked find_iter masked reps' l) (sym (append_nil after))
        ∙ mask_patterns-NothingFound masked reps' after [] h in
      unfold mask_patterns in rw (e, quiet)

  module _ (m : PiiMasker Regex) (request_id : String) (before after : List (PiiPattern Regex))
      (p : PiiPattern Regex) (ps : Pieces) (tail : Text) where
    -- The masker that remembers the replacements of the pattern for the request.
    abbrev pub remembering : PiiMasker Regex
    remembering = record m {
      mask_map = Dict.insert request_id (records p.replacement 0 ps) m.mask_map;
    }

    pub mask_one :
        m.patterns ≡ before ++ (p ∷ after)
        → NothingFound find_iter (joined ps tail) before
        → find_iter p.pattern (joined ps tail) ≡ spans 0 ps
        → NothingFound find_iter (masked_text p.replacement ps tail) after
        → (not checked || all_long (length p.replacement) ps) ≡ true
        → Aligned ps tail
        → length (joined ps tail) < isize_mod
        → length (masked_text p.replacement ps tail) < isize_mod
        → mask checked find_iter m (joined ps tail) request_id
          ≡ some (remembering, masked_text p.replacement ps tail)
    unfolding mask
    mask_one ep hb found ha long al l l' =
        let loop : mask_matches checked p.replacement (joined ps tail) 0 []
              (find_iter p.pattern (joined ps tail))
            ≡ some (masked_text p.replacement ps tail, records p.replacement 0 ps) =
          rw found (mask_matches_lem checked p.replacement ps tail al l l' ∙ (rw long)) in
        rw (
          ep,
          mask_patterns-NothingFound (joined ps tail) [] before (p ∷ after) hb,
          mask_patterns-cons _ _ [] (records p.replacement 0 ps) p after loop ha,
        )

    unmask_one :
        starts_char p.replacement ≡ true
        → Aligned ps tail
        → length (joined ps tail) < isize_mod
        → length (masked_text p.replacement ps tail) < isize_mod
        → unmask remembering (masked_text p.replacement ps tail) request_id
          ≡ some
              (record m { mask_map = Dict.remove request_id remembering.mask_map }, joined ps tail)
    unfolding unmask
    unmask_one hp al l l' =
        let kept : Dict.get request_id remembering.mask_map ≡ some (records p.replacement 0 ps) =
          get-insert request_id request_id _ m.mask_map ∙ (rw (==-refl request_id)) in
        rw (
          kept,
          unmask_loop-masked_text p.replacement hp ps tail [] 0 al (omega arith) (omega arith),
        )

    -- What `mask` makes of a text in which only one pattern finds something, `unmask` of the same
    -- request turns back into the text, and it forgets the request; if the pieces of the text and
    -- the placeholder begin with characters, the texts fit memory, and, where overflow is checked,
    -- no match is shorter than the placeholder.
    pub unmask-mask :
        m.patterns ≡ before ++ (p ∷ after)
        → NothingFound find_iter (joined ps tail) before
        → find_iter p.pattern (joined ps tail) ≡ spans 0 ps
        → NothingFound find_iter (masked_text p.replacement ps tail) after
        → (not checked || all_long (length p.replacement) ps) ≡ true
        → starts_char p.replacement ≡ true
        → Aligned ps tail
        → length (joined ps tail) < isize_mod
        → length (masked_text p.replacement ps tail) < isize_mod
        → ((mask checked find_iter m (joined ps tail) request_id >>= λ (m', masked).
              unmask m' masked request_id)
            ≡ some (
              record m { mask_map = Dict.remove request_id remembering.mask_map },
              joined ps tail,
            ))
          × (Dict.get request_id (Dict.remove request_id remembering.mask_map) ≡ none)
    unmask-mask ep hb found ha long hp al l l' = (
      rw (mask_one ep hb found ha long al l l') (unmask_one hp al l l'),
      get-remove request_id request_id remembering.mask_map ∙ (rw (==-refl request_id)),
    )
