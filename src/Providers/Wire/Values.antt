-- ===== src/Providers/Wire/Values.antt =====
-- The interface `Wire` with values for JSON, where a text is plain or the text of a value.
use text.Mathlib.Text.{starts_with}
use text.Mathlib.TextLemmas.{append_assoc}
use godwit.Base.{
  Bool, true, false, String, string_key, ◌==◌, Option, none, some, List, [], ◌∷◌, if◌then◌else◌,
  ◌≡◌, refl, ap, ◌<>◌, empty_text, Bool-cases, inl, inr,
}
use godwit.Base.Int.{ℤ}
use godwit.Providers.Wire.{Wire, field}

mutual
  pub data Word : Type 0 where
    plain : String → Word
    json : Value → Word

  pub data Value : Type 0 where
    nothing : Value
    num : ℤ → Value
    str : Word → Value
    arr : Items → Value
    obj : Fields → Value

  pub data Items : Type 0 where
    nil : Items
    cons : Value → Items → Items

  pub data Fields : Type 0 where
    end : Fields
    entry : String → Value → Fields → Fields

abbrev lookup : Fields → String → Option Value
lookup end k = none
lookup (entry j v fs) k = if j == k then some v else lookup fs k

abbrev items : Items → List Value
items nil = []
items (cons v vs) = v ∷ items vs

abbrev to_items : List Value → Items
to_items [] = nil
to_items (v ∷ vs) = cons v (to_items vs)

abbrev to_fields : List (String × Value) → Fields
to_fields [] = end
to_fields ((k, v) ∷ fs) = entry k v (to_fields fs)

abbrev get : Value → String → Option Value
get (obj fs) k = lookup fs k
get _ k = none

abbrev as_array : Value → Option (List Value)
as_array (arr vs) = some (items vs)
as_array _ = none

abbrev as_str : Value → Option Word
as_str (str t) = some t
as_str _ = none

abbrev as_i64 : Value → Option ℤ
as_i64 (num z) = some z
as_i64 _ = none

abbrev parse : Word → Option Value
parse (plain s) = none
parse (json v) = some v

abbrev is_lit : Word → String → Bool
is_lit (plain s) t = s == t
is_lit (json v) t = false

abbrev is_empty : Word → Bool
is_empty (plain s) = empty_text s
is_empty (json v) = false

abbrev opens_brace : Word → Bool
opens_brace (plain s) = starts_with s "{"
opens_brace (json (obj fs)) = true
opens_brace (json _) = false

-- The text of a value counts as empty here.
abbrev plain_text : Word → String
plain_text (plain s) = s
plain_text (json v) = ""

abbrev push_str : Word → Word → Word
push_str a b = plain (plain_text a <> plain_text b)

pub push_str_assoc : (a b c : Word) → push_str (push_str a b) c ≡ push_str a (push_str b c)
push_str_assoc a b c = ap plain (append_assoc (plain_text a) (plain_text b) (plain_text c))

pub get-of_fields : (fs : List (String × Value)) (k : String) → lookup (to_fields fs) k ≡ field k fs
get-of_fields [] k = refl
get-of_fields ((j, v) ∷ fs) k = elim (Bool-cases (j == k)) [
  | inl hit ↦ rw hit
  | inr miss ↦ rw miss (get-of_fields fs k)
]

abbrev pub values : Wire
values = record {
  T = Word;
  lit = plain;
  is_lit = is_lit;
  to_ascii_lowercase = λ t. t;
  is_empty = is_empty;
  opens_brace = opens_brace;
  push_str = push_str;
  J = Value;
  parse = parse;
  render = json;
  get = get;
  as_array = as_array;
  as_str = as_str;
  as_i64 = as_i64;
  null = nothing;
  of_text = str;
  of_int = num;
  of_list = λ vs. arr (to_items vs);
  of_fields = λ fs. obj (to_fields fs);
  parse-render = λ v. refl;
  get-of_fields = get-of_fields;
  as_str-of_text = λ t. refl;
  as_i64-of_int = λ z. refl;
  as_str-of_int = λ z. refl;
  is_lit-lit = λ s t. refl;
  push_str_assoc = push_str_assoc;
}
