-- ===== src/Core/PiiMasking/Masking.antt =====
-- What the masking of one pattern makes of a text, also where its arithmetic on `usize` wraps.
use godwit.Base.{
  ℕ, ◌+◌, ◌-◌, ◌%◌, ◌<◌, ◌≤◌, Bool, true, false, not, ◌&&◌, ◌||◌, Option, none, some, List, [], ◌∷◌,
  ◌++◌, length, leb, if◌then◌else◌, ◌≡◌, ◌⊎◌, inl, inr, sym, ap, ◌∙◌, arith, append_assoc,
  append_nil, length-append,
}
use godwit.Base.Maybe.{◌>>=◌, >>=-assoc}
use godwit.Core.PiiMasking.{
  starts_char, Text, Replacement, usize_mod, sub_usize, add_usize, mask_matches,
}
use godwit.Core.PiiMasking.Splice.{
  Pieces, joined, masked_text, spans, Aligned, starts_char-joined, slice_piece, replace_range_piece,
}

-- `isize::MAX + 1`: no text in memory is as long.
abbrev pub isize_mod : ℕ
isize_mod = 9_223_372_036_854_775_808

-- No match is shorter than the placeholder.
abbrev pub all_long : ℕ → Pieces → Bool
all_long n [] = true
all_long n ((gap, found) ∷ ps) = leb n (length found) && all_long n ps

-- The replacements of the matches, `at` the bytes of the masked text before the pieces.
abbrev pub records : Text → ℕ → Pieces → List Replacement
records placeholder at [] = []
records placeholder at ((gap, found) ∷ ps) =
    record {
      start = at + length gap;
      end = at + length gap + length found;
      original = found;
      placeholder = placeholder;
    }
    ∷ records placeholder (at + length gap + length placeholder) ps

-- The offset where `a` bytes of the text have become `b` bytes.
abbrev pub gap_of : ℕ → ℕ → ℕ
gap_of a b = (a + usize_mod - b) % usize_mod

sub_usize-gap_of :
    (checked : Bool) (a b n : ℕ)
    → a + n < isize_mod
    → b < isize_mod
    → (checked ≡ false) ⊎ (b ≤ a)
    → sub_usize checked (a + n) (gap_of a b) ≡ some (b + n)
unfolding sub_usize
sub_usize-gap_of checked a b n ha hb (inl e) = ground arith
sub_usize-gap_of checked a b n ha hb (inr e) = ground arith

sub_usize-add : (checked : Bool) (n k : ℕ) → sub_usize checked (n + k) n ≡ some k
unfolding sub_usize
sub_usize-add checked n k = ground arith

-- The step of the offset, with or without checks.
add_usize-gap_of :
    (checked : Bool) (a b g f p : ℕ)
    → a + g + f < isize_mod
    → b + g + p < isize_mod
    → (checked ≡ false) ⊎ (b ≤ a)
    → (checked ≡ false) ⊎ (p ≤ f)
    → (sub_usize checked f p >>= add_usize checked (gap_of a b))
      ≡ some (gap_of (a + g + f) (b + g + p))
unfolding sub_usize add_usize
add_usize-gap_of checked a b g f p ha hb h k = ground arith

pub length_three : (x y z : Text) → length ((x ++ y) ++ z) ≡ length x + length y + length z
length_three x y z = rw (length-append (x ++ y) z, length-append x y)

module _ (checked : Bool) (placeholder : Text) where
  -- What a match makes the loop add.
  abbrev record_at : ℕ → Text → Replacement
  record_at start found = record {
    start = start;
    end = start + length found;
    original = found;
    placeholder = placeholder;
  }

  module _ (x found rest : Text) (a b g : ℕ) (reps : List Replacement) (matches : List (ℕ × ℕ))
      (hf : starts_char found ≡ true) (hr : starts_char rest ≡ true) (lx : length x ≡ b + g)
      (ha : a + g + length found < isize_mod) (hb : b + g + length placeholder < isize_mod)
      (h : (checked ≡ false) ⊎ (b ≤ a)) where
    start_ok : sub_usize checked (a + g) (gap_of a b) ≡ some (length x)
    start_ok = sub_usize-gap_of checked a b g (omega arith) (omega arith) h ∙ ap some (sym lx)

    end_ok : sub_usize checked (a + g + length found) (gap_of a b) ≡ some (length x + length found)
    end_ok =
        ap (λ k. sub_usize checked k (gap_of a b)) (omega arith)
        ∙ sub_usize-gap_of checked a b (g + length found) (omega arith) (omega arith) h
        ∙ ap some (omega arith)

    -- One round of the loop, up to the step of the offset.
    mask_round :
        mask_matches checked placeholder
          (x ++ (found ++ rest))
          (gap_of a b)
          reps
          ((a + g, a + g + length found) ∷ matches)
        ≡ (sub_usize checked (length found) (length placeholder)
            >>= add_usize checked (gap_of a b)
            >>= λ offset.
                mask_matches checked placeholder
                  (x ++ (placeholder ++ rest))
                  offset
                  (reps ++ (record_at (length x) found ∷ []))
                  matches)
    unfolding mask_matches
    mask_round =
        rw
          (
            start_ok,
            end_ok,
            slice_piece x found rest hf hr,
            replace_range_piece x found rest hf hr placeholder,
            sub_usize-add checked (length x) (length found),
          )
          (sym (>>=-assoc (sub_usize checked (length found) (length placeholder)) _ _))

  -- The result of the loop, in terms of what is left.
  abbrev outcome : Text → List Replacement → Pieces → Text → Option (Text × List Replacement)
  outcome pre reps ps tail =
      if not checked || all_long (length placeholder) ps
      then some
          (pre ++ masked_text placeholder ps tail, reps ++ records placeholder (length pre) ps)
      else none

  outcome-step :
      (pre gap found : Text) (reps : List Replacement) (ps : Pieces) (tail : Text)
      → (checked ≡ false) ⊎ (length placeholder ≤ length found)
      → outcome
          ((pre ++ gap) ++ placeholder)
          (reps ++ (record_at (length (pre ++ gap)) found ∷ []))
          ps
          tail
        ≡ outcome pre reps ((gap, found) ∷ ps) tail
  outcome-step pre gap found reps ps tail h =
      rw
        (
          length_three pre gap placeholder,
          append_assoc (pre ++ gap) placeholder,
          append_assoc pre gap,
          append_assoc reps,
          length-append pre gap,
        )
        (ground arith)

  long-or-short : (p f : ℕ) → ((checked ≡ false) ⊎ (p ≤ f)) ⊎ ((checked ≡ true) × (f < p))
  long-or-short p f = ground arith

  short_panics :
      (p f offset : ℕ)
      → checked ≡ true
      → f < p
      → (sub_usize checked f p >>= add_usize checked offset) ≡ none
  unfolding sub_usize
  short_panics p f offset hc hs = ground arith

  mask_matches-nil :
      (tail pre : Text) (offset : ℕ) (reps : List Replacement)
      → mask_matches checked placeholder (pre ++ tail) offset reps [] ≡ outcome pre reps [] tail
  unfolding mask_matches
  mask_matches-nil tail pre offset reps = rw (append_nil reps) (ground arith)

  outcome-short :
      (pre gap found : Text) (reps : List Replacement) (ps : Pieces) (tail : Text)
      → checked ≡ true
      → length found < length placeholder
      → outcome pre reps ((gap, found) ∷ ps) tail ≡ none
  outcome-short pre gap found reps ps tail hc hs = ground arith

  keeps_below :
      (b a b' p f g : ℕ)
      → b' ≡ b + g + p
      → (checked ≡ false) ⊎ (b ≤ a)
      → (checked ≡ false) ⊎ (p ≤ f)
      → (checked ≡ false) ⊎ (b' ≤ a + g + f)
  keeps_below b a b' p f g e h k = ground arith

  pub mask_matches-joined :
      (ps : Pieces) (tail pre : Text) (a : ℕ) (reps : List Replacement)
      → Aligned ps tail
      → a + length (joined ps tail) < isize_mod
      → length pre + length (masked_text placeholder ps tail) < isize_mod
      → (checked ≡ false) ⊎ (length pre ≤ a)
      → mask_matches checked placeholder
          (pre ++ joined ps tail)
          (gap_of a (length pre))
          reps
          (spans a ps)
        ≡ outcome pre reps ps tail
  mask_matches-joined [] tail pre a reps al ha hb h = mask_matches-nil tail pre _ reps
  mask_matches-joined ((gap, found) ∷ ps) tail pre a reps al ha hb h =
      let rest = joined ps tail in
      let x = pre ++ gap in
      let lx = length-append pre gap in
      let l3 = length_three pre gap placeholder in
      let ha' : a + length gap + length found + length rest < isize_mod =
        omega (arith, length-append gap (found ++ rest), length-append found rest) in
      let hb' : length pre + length gap + length placeholder < isize_mod = omega (
        arith,
        length-append gap (placeholder ++ masked_text placeholder ps tail),
        length-append placeholder (masked_text placeholder ps tail),
      ) in
      let hb'' : length (x ++ placeholder) + length (masked_text placeholder ps tail) < isize_mod =
        omega (
          arith,
          length-append gap (placeholder ++ masked_text placeholder ps tail),
          length-append placeholder (masked_text placeholder ps tail),
        ) in
      let reps' = reps ++ (record_at (length x) found ∷ []) in
      let a' = a + length gap + length found in
      rw
        (
          sym (append_assoc pre gap (found ++ rest)),
          mask_round x found rest a (length pre) (length gap) reps (spans a' ps) al.1
              (starts_char-joined ps tail al.2) lx (omega arith) hb' h,
        )
        (elim (long-or-short (length placeholder) (length found)) [
          | inl long ↦
              rw
                (add_usize-gap_of checked a (length pre) (length gap) (length found)
                  (length placeholder) (omega arith) hb' h long)
                (ap
                    (λ o.
                      mask_matches checked placeholder (x ++ (placeholder ++ rest)) (gap_of a' o)
                        reps' (spans a' ps))
                    (sym l3)
                  ∙ ap
                      (λ t.
                        mask_matches checked placeholder t (gap_of a' (length (x ++ placeholder)))
                          reps' (spans a' ps))
                      (sym (append_assoc x placeholder rest))
                  ∙ mask_matches-joined ps tail (x ++ placeholder) a' reps' al.2 ha' hb'' (
                      keeps_below (length pre) a (length (x ++ placeholder)) (length placeholder)
                        (length found) (length gap) l3 h long)
                  ∙ outcome-step pre gap found reps ps tail long)
          | inr short ↦
              rw (short_panics (length placeholder) (length found) _ short.0 short.1)
                (sym (outcome-short pre gap found reps ps tail short.0 short.1))
        ])

  -- The loop over the matches of one pattern puts the placeholder for each match and records where
  -- it now stands; with overflow checks it does so exactly if no match is shorter than the
  -- placeholder, and panics otherwise. The pieces begin with characters, and the texts fit memory.
  pub mask_matches_lem :
      (ps : Pieces) (tail : Text)
      → Aligned ps tail
      → length (joined ps tail) < isize_mod
      → length (masked_text placeholder ps tail) < isize_mod
      → mask_matches checked placeholder (joined ps tail) 0 [] (spans 0 ps) ≡ (
          if not checked || all_long (length placeholder) ps
          then some (masked_text placeholder ps tail, records placeholder 0 ps)
          else none)
  mask_matches_lem ps tail al ha hb =
      mask_matches-joined ps tail [] 0 [] al (omega arith) (omega arith) (inr (omega arith))
