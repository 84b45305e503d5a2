-- ===== src/Core/PiiMasking/Tests.antt =====
-- Runs of the masker, and the theorems at concrete texts; the pattern is a literal text.
use godwit.Base.{
  ℕ, zero, suc, ◌+◌, ◌-◌, Bool, true, false, not, ◌&&◌, ◌||◌, none, some, List, [], ◌∷◌, length,
  nat_beq, if◌then◌else◌, ◌≡◌, refl, arith, string_key,
}
use godwit.Base.Dict
use godwit.Base.Maybe.{◌>>=◌}
use godwit.Core.PiiMasking.{Text, PiiPattern, PiiMasker, mask_matches, mask_patterns, mask, unmask}
use godwit.Core.PiiMasking.Splice.{Pieces, joined, masked_text, spans}
use godwit.Core.PiiMasking.Masking.{mask_matches_lem, all_long, records}
use godwit.Core.PiiMasking.RoundTrip.{unmask-mask, remembering}
use godwit.Core.PiiMasking.Panics.{unmask-other_text}

abbrev is_prefix : Text → Text → Bool
is_prefix [] t = true
is_prefix (a ∷ p) [] = false
is_prefix (a ∷ p) (b ∷ t) = nat_beq a b && is_prefix p t

-- `skip` bytes belong to the last match.
abbrev find_from : Text → ℕ → ℕ → Text → List (ℕ × ℕ)
find_from p skip at [] = []
find_from p (suc skip) at (b ∷ t) = find_from p skip (at + 1) t
find_from p zero at (b ∷ t) =
    let hit = (at, at + length p) ∷ find_from p (length p - 1) (at + 1) t in
    let miss = find_from p 0 (at + 1) t in if is_prefix p (b ∷ t) then hit else miss

abbrev find_literal : Text → Text → List (ℕ × ℕ)
find_literal p = find_from p 0 0

-- "a@b." as an address with the placeholder "[E]", and "55" as a number with "[P]".
abbrev address : PiiPattern Text
address = record {
  name = "email";
  pattern = 97 ∷ 64 ∷ 98 ∷ 46 ∷ [];
  replacement = 91 ∷ 69 ∷ 93 ∷ [];
}

abbrev number : PiiPattern Text
number = record { name = "phone"; pattern = 53 ∷ 53 ∷ []; replacement = 91 ∷ 80 ∷ 93 ∷ [] }

abbrev only : List (PiiPattern Text) → PiiMasker Text
only patterns = record { patterns = patterns; mask_map = Dict.empty }

abbrev two_addresses : Pieces
two_addresses = (105 ∷ [], address.pattern) ∷ (44 ∷ [], address.pattern) ∷ []

abbrev two_numbers : Pieces
two_numbers = (105 ∷ [], number.pattern) ∷ (44 ∷ [], number.pattern) ∷ []

abbrev the_end : Text
the_end = 33 ∷ []

-- A match that is shorter than its placeholder panics where overflow is checked.
short_match_checked :
    mask_matches true number.replacement (joined two_numbers the_end) 0 [] (spans 0 two_numbers)
    ≡ none
short_match_checked =
    mask_matches_lem true number.replacement two_numbers the_end (refl, refl, (refl, refl, refl))
      (omega arith) (omega arith)

mask_matches_lem_example :
    mask_matches false number.replacement (joined two_numbers the_end) 0 [] (spans 0 two_numbers)
    ≡ (if not false || all_long (length number.replacement) two_numbers
        then some (
          masked_text number.replacement two_numbers the_end,
          records number.replacement 0 two_numbers,
        )
        else none)
mask_matches_lem_example =
    mask_matches_lem false number.replacement two_numbers the_end (refl, refl, (refl, refl, refl))
      (omega arith) (omega arith)

unmask-mask_example :
    ((mask true find_literal (only (number ∷ address ∷ [])) (joined two_addresses the_end) "r"
        >>= λ (m', masked). unmask m' masked "r")
      ≡ some (
        record {
          patterns = number ∷ address ∷ [];
          mask_map =
              Dict.remove "r"
                (remembering true find_literal
                  (only (number ∷ address ∷ []))
                  "r"
                  (number ∷ [])
                  []
                  address
                  two_addresses
                  the_end).mask_map;
        },
        joined two_addresses the_end,
      ))
    × (Dict.get "r" (
          Dict.remove "r"
            (remembering true find_literal
              (only (number ∷ address ∷ []))
              "r"
              (number ∷ [])
              []
              address
              two_addresses
              the_end).mask_map)
        ≡ none)
unmask-mask_example =
    unmask-mask true find_literal (only (number ∷ address ∷ [])) "r" (number ∷ []) [] address
      two_addresses the_end refl (refl, tt) refl tt refl refl (refl, refl, (refl, refl, refl))
      (omega arith) (omega arith)

unmask-other_text_example :
    (mask true find_literal (only (address ∷ [])) (joined two_addresses the_end) "r"
      >>= λ (m', masked). unmask m' (111 ∷ 107 ∷ []) "r")
    ≡ none
unmask-other_text_example =
    unmask-other_text true find_literal (only (address ∷ [])) "r" [] [] address (105 ∷ [])
      address.pattern ((44 ∷ [], address.pattern) ∷ []) the_end (111 ∷ 107 ∷ []) refl tt refl tt
      refl (refl, refl, (refl, refl, refl)) (omega arith) (omega arith) (omega arith)

-- A number in front of an address is masked by the later pattern, and the places do not fit any more.
two_patterns :
    (mask true find_literal
        (only (address ∷ (record number { replacement = 35 ∷ [] }) ∷ []))
        (53 ∷ 53 ∷ 105 ∷ 97 ∷ 64 ∷ 98 ∷ 46 ∷ [])
        "r"
      >>= λ (m', masked). unmask m' masked "r")
    ≡ none
unfolding mask unmask Dict.get Dict.insert mask_patterns
two_patterns = refl
