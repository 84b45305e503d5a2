-- ===== src/Providers/Wire.antt =====
-- What the streams use of `serde_json` and of `str`: texts, JSON values, and the laws between them.
pub mod Values
use godwit.Base.{
  Bool, String, Option, none, some, List, [], ◌∷◌, ◌==◌, string_key, if◌then◌else◌, ◌≡◌,
}
use godwit.Base.Int.{ℤ}

-- The first field of a name.
abbrev pub field : {J : Type 0} → String → List (String × J) → Option J
field k [] = none
field k ((j, v) ∷ fs) = if j == k then some v else field k fs

pub record Wire : Type 1 where
  -- `String`; `lit` is a literal, and `is_lit` compares with one
  pub T : Type 0
  pub lit : String → T
  pub is_lit : T → String → Bool
  pub to_ascii_lowercase : T → T
  pub is_empty : T → Bool
  -- `starts_with('{')`
  pub opens_brace : T → Bool
  pub push_str : T → T → T
  -- `Value`, with `from_str` and `to_string`
  pub J : Type 0
  pub parse : T → Option J
  pub render : J → T
  pub get : J → String → Option J
  pub as_array : J → Option (List J)
  pub as_str : J → Option T
  pub as_i64 : J → Option ℤ
  pub null : J
  pub of_text : T → J
  pub of_int : ℤ → J
  pub of_list : List J → J
  pub of_fields : List (String × J) → J
  -- what is written is read back, and the readers fit the writers
  pub parse-render : (v : J) → parse (render v) ≡ some v
  pub get-of_fields : (fs : List (String × J)) (k : String) → get (of_fields fs) k ≡ field k fs
  pub as_str-of_text : (t : T) → as_str (of_text t) ≡ some t
  pub as_i64-of_int : (z : ℤ) → as_i64 (of_int z) ≡ some z
  pub as_str-of_int : (z : ℤ) → as_str (of_int z) ≡ none
  pub is_lit-lit : (s t : String) → is_lit (lit s) t ≡ (s == t)
  pub push_str_assoc : (a b c : T) → push_str (push_str a b) c ≡ push_str a (push_str b c)
