-- ===== src/Core/PiiMasking/Panics.antt =====
-- Unmasking of a text other than the masked one, as the guardrails do it to a response.
use godwit.Base.{
  ℕ, ◌+◌, ◌%◌, ◌<◌, Bool, true, not, ◌||◌, String, string_key, none, some, List, ◌∷◌, ◌++◌, length,
  length-append, ◌≡◌, ◌∙◌, arith, ==-refl,
}
use godwit.Base.Dict
use godwit.Base.Dict.{get-insert}
use godwit.Base.Maybe.{◌>>=◌}
use godwit.Core.PiiMasking.{
  Text, Replacement, PiiPattern, PiiMasker, usize_mod, mask, unmask, unmask_loop, replace_range,
}
use godwit.Core.PiiMasking.Splice.{Pieces, joined, masked_text, spans, Aligned}
use godwit.Core.PiiMasking.Masking.{isize_mod, all_long, records}
use godwit.Core.PiiMasking.RoundTrip.{NothingFound, remembering, mask_one}

replace_range_outside :
    (text new : Text) (start end : ℕ) → length text < end → replace_range text start end new ≡ none
unfolding replace_range
replace_range_outside text new start end h = ground arith

unmask_loop_outside :
    (text : Text) (r : Replacement) (rs : List Replacement)
    → length text < r.start + length r.placeholder
    → r.start + length r.placeholder < usize_mod
    → unmask_loop text 0 (r ∷ rs) ≡ none
unfolding unmask_loop
unmask_loop_outside text r rs h l =
    let outside : length text < ((r.start + 0) % usize_mod + length r.placeholder) % usize_mod =
      omega arith in
    rw (replace_range_outside text r.original _ _ outside)

unmask_outside :
    {Regex : Type 0} (m : PiiMasker Regex) (request_id : String) (other : Text) (r : Replacement)
    (rs : List Replacement)
    → Dict.get request_id m.mask_map ≡ some (r ∷ rs)
    → length other < r.start + length r.placeholder
    → r.start + length r.placeholder < usize_mod
    → unmask m other request_id ≡ none
unfolding unmask
unmask_outside m request_id other r rs e h l = rw (e, unmask_loop_outside other r rs h l)

-- Once a text was masked in which only one pattern finds something, `unmask` of the same request
-- panics on every text that ends before the place of the first placeholder; under the conditions
-- that masking succeeds.
pub unmask-other_text :
    (checked : Bool) {Regex : Type 0} (find_iter : Regex → Text → List (ℕ × ℕ))
    (m : PiiMasker Regex) (request_id : String) (before after : List (PiiPattern Regex))
    (p : PiiPattern Regex) (gap found : Text) (ps : Pieces) (tail other : Text)
    → m.patterns ≡ before ++ (p ∷ after)
    → NothingFound find_iter (joined ((gap, found) ∷ ps) tail) before
    → find_iter p.pattern (joined ((gap, found) ∷ ps) tail) ≡ spans 0 ((gap, found) ∷ ps)
    → NothingFound find_iter (masked_text p.replacement ((gap, found) ∷ ps) tail) after
    → (not checked || all_long (length p.replacement) ((gap, found) ∷ ps)) ≡ true
    → Aligned ((gap, found) ∷ ps) tail
    → length (joined ((gap, found) ∷ ps) tail) < isize_mod
    → length (masked_text p.replacement ((gap, found) ∷ ps) tail) < isize_mod
    → length other < length gap + length p.replacement
    → (mask checked find_iter m (joined ((gap, found) ∷ ps) tail) request_id >>= λ (m', masked).
        unmask m' other request_id)
      ≡ none
unmask-other_text checked find_iter m request_id before after p gap found ps tail other ep hb hf ha
      long al l l' short =
    let pieces = (gap, found) ∷ ps in
    let m' = remembering checked find_iter m request_id before after p pieces tail in
    let kept : Dict.get request_id m'.mask_map ≡ some (records p.replacement 0 pieces) =
      get-insert request_id request_id _ m.mask_map ∙ (rw (==-refl request_id)) in
    let rest = masked_text p.replacement ps tail in
    rw (mask_one checked find_iter m request_id before after p pieces tail ep hb hf ha long al l l')
      (unmask_outside m' request_id other _ _ kept (omega arith) (
        omega (arith, length-append gap (p.replacement ++ rest), length-append p.replacement rest)))
