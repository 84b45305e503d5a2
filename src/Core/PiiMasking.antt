-- ===== src/Core/PiiMasking.antt =====
-- `PiiMasker` of crates/godwit-core/src/pii_masking.rs.
--
-- A `str` is its list of bytes. `none` is a panic: of a slice or of `replace_range` out of bounds or
-- inside a character, or, if overflow is checked (`checked`, a debug build), of `-` and `+=` on
-- `usize`, which wrap otherwise. `find_iter` of a regex is a parameter.
pub mod Splice
pub mod Masking
pub mod RoundTrip
pub mod Panics
mod Tests
use godwit.Base.{
  ℕ, ◌+◌, ◌-◌, ◌%◌, Bool, true, false, ◌&&◌, not, String, Option, none, some, List, [], ◌∷◌, ◌++◌,
  length, take, drop, ltb, leb, if◌then◌else◌, string_key,
}
use godwit.Base.Maybe.{◌>>=◌}
use godwit.Base.Dict
use godwit.Base.Dict.{Dict}

abbrev pub Text : Type 0
Text = List ℕ

-- `usize::MAX + 1`
abbrev pub usize_mod : ℕ
usize_mod = 18_446_744_073_709_551_616

pub sub_usize : Bool → ℕ → ℕ → Option ℕ
sub_usize checked a b =
    if leb b a then some (a - b) else if checked then none else some (a + usize_mod - b)

pub add_usize : Bool → ℕ → ℕ → Option ℕ
add_usize checked a b =
    if ltb (a + b) usize_mod
    then some (a + b)
    else if checked
    then none
    else some (a + b - usize_mod)

-- Whether a rest of a text begins with a character: its first byte continues none.
abbrev pub starts_char : Text → Bool
starts_char [] = true
starts_char (b ∷ rest) = not (leb 128 b && ltb b 192)

-- What an index by `start..end` of a `str` wants, or else panics.
abbrev pub range_ok : Text → ℕ → ℕ → Bool
range_ok text start end =
    leb start end
    && leb end (length text)
    && starts_char (drop start text)
    && starts_char (drop end text)

-- `text[start..end].to_string()`
pub slice : Text → ℕ → ℕ → Option Text
slice text start end =
    if range_ok text start end then some (take (end - start) (drop start text)) else none

pub replace_range : Text → ℕ → ℕ → Text → Option Text
replace_range text start end new =
    if range_ok text start end then some (take start text ++ (new ++ drop end text)) else none

pub record Replacement : Type 0 where
  pub start : ℕ
  pub end : ℕ
  pub original : Text
  pub placeholder : Text

pub record PiiPattern (Regex : Type 0) : Type 0 where
  pub name : String
  pub pattern : Regex
  pub replacement : Text

pub record PiiMasker (Regex : Type 0) : Type 0 where
  pub patterns : List (PiiPattern Regex)
  pub mask_map : Dict String (List Replacement)

module _ (checked : Bool) where
  -- The loop over the matches of one pattern: the text, `offset` and the replacements so far.
  pub mask_matches :
      Text → Text → ℕ → List Replacement → List (ℕ × ℕ) → Option (Text × List Replacement)
  unfolding sub_usize add_usize slice replace_range
  mask_matches placeholder masked offset replacements [] = some (masked, replacements)
  mask_matches placeholder masked offset replacements ((match_start, match_end) ∷ matches) = do
    start ← sub_usize checked match_start offset
    end ← sub_usize checked match_end offset
    original ← slice masked start end
    masked' ← replace_range masked start end placeholder
    wide ← sub_usize checked end start
    shrunk ← sub_usize checked wide (length placeholder)
    offset' ← add_usize checked offset shrunk
    mask_matches placeholder masked' offset'
        (replacements
          ++ (record { start = start; end = end; original = original; placeholder = placeholder }
              ∷ []))
        matches

  module _ {Regex : Type 0} (find_iter : Regex → Text → List (ℕ × ℕ)) where
    -- The loop over the patterns.
    pub mask_patterns :
        Text → List Replacement → List (PiiPattern Regex) → Option (Text × List Replacement)
    unfolding mask_matches
    mask_patterns masked replacements [] = some (masked, replacements)
    mask_patterns masked replacements (p ∷ ps) = do
      (masked', replacements') ←
          mask_matches p.replacement masked 0 replacements (find_iter p.pattern masked)
      mask_patterns masked' replacements' ps

    unfoldable pub mask : PiiMasker Regex → Text → String → Option (PiiMasker Regex × Text)
    unfolding mask_patterns
    mask m text request_id = do
      (masked, replacements) ← mask_patterns text [] m.patterns
      some (record m { mask_map = Dict.insert request_id replacements m.mask_map }, masked)

-- The loop over the replacements; `offset` is an `isize` in two's complement. That no sum of lengths
-- of texts in memory overflows an `isize` is left out.
pub unmask_loop : Text → ℕ → List Replacement → Option Text
unfolding replace_range
unmask_loop unmasked offset [] = some unmasked
unmask_loop unmasked offset (r ∷ rs) = do
  let placeholder_start = (r.start + offset) % usize_mod
  let placeholder_end = (placeholder_start + length r.placeholder) % usize_mod
  unmasked' ← replace_range unmasked placeholder_start placeholder_end r.original
  unmask_loop unmasked'
      ((offset + length r.original + (usize_mod - length r.placeholder)) % usize_mod) rs

module _ {Regex : Type 0} where
  abbrev pub unmask_found :
      PiiMasker Regex → Text → String → Option (List Replacement) → Option (PiiMasker Regex × Text)
  unmask_found m masked_text request_id none = some (m, masked_text)
  unmask_found m masked_text request_id (some replacements) = do
    unmasked ← unmask_loop masked_text 0 replacements
    some (record m { mask_map = Dict.remove request_id m.mask_map }, unmasked)

  unfoldable pub unmask : PiiMasker Regex → Text → String → Option (PiiMasker Regex × Text)
  unfolding unmask_loop
  unmask m masked_text request_id =
      unmask_found m masked_text request_id (Dict.get request_id m.mask_map)
