-- ===== src/Api/BatchParser.antt =====
-- crates/godwit-api/src/batch_parser.rs after the parsing of lines: the validation of the requests of a
-- batch, and the estimate of its cost.
--
-- Messages are JSON values, a parameter; the price of a chat (`compute_cost` of
-- crates/godwit-providers/src/usage.rs) and the sum of decimals are parameters too.
pub mod Totals
pub mod Validation
mod Tests
use Prim.Native.String.{len}
use text.Mathlib.Text.{starts_with}
use godwit.Base.{
  ℕ, ◌+◌, ◌/◌, Bool, not, String, string_key, ◌==◌, Option, none, some, List, [], ◌∷◌,
  if◌then◌else◌, Result, ok, err, ◌>>=◌, ◌<>◌, empty_text,
}
use godwit.Base.Dict
use godwit.Base.Dict.{Dict}
use godwit.Base.Int.{ℤ, pos, pos_part, neg_part, sub_ℕ, ◌+ℤ◌, wrap_i32}
use godwit.Resilience.Fallback.{and_then}
use godwit.Core.Json.{Json}
use godwit.Providers.Adapter.{UsageReport, no_usage}

pub data BatchParseError : Type 0 where
  invalid_format missing_field invalid_model cost_estimation_failed : String → BatchParseError

module _ (J : Type 0) where
  pub record BatchRequestBody : Type 0 where
    pub model : String
    pub messages : List J
    pub max_tokens : Option ℤ

  pub record BatchRequest : Type 0 where
    pub custom_id : String
    pub method : String
    pub url : String
    pub body : BatchRequestBody

  pub validate_request : BatchRequest → Result BatchParseError (Unit {0})
  validate_request r =
      if empty_text r.custom_id
      then err (missing_field "custom_id")
      else if not (r.method == "POST")
      then err (invalid_format ("method must be POST, got: " <> r.method))
      else if not (starts_with r.url "/")
      then err (invalid_format ("url must start with '/', got: " <> r.url))
      else if empty_text r.body.model
      then err (missing_field "model")
      else ok tt

  pub record ParsedBatchLine (D : Type 0) : Type 0 where
    pub custom_id : String
    pub method : String
    pub url : String
    pub body : BatchRequestBody
    pub estimated_cost : D

  pub record BatchParseResult (D : Type 0) : Type 0 where
    pub lines : List (ParsedBatchLine D)
    pub total_estimated_cost : D

-- `/ 4` and `* 0.5` truncate towards 0.
abbrev quarter : ℤ → ℤ
quarter z = sub_ℕ (pos_part z / 4) (neg_part z / 4)

abbrev half : ℤ → ℤ
half z = sub_ℕ (pos_part z / 2) (neg_part z / 2)

pub estimate_tokens_from_text : String → ℤ
estimate_tokens_from_text text = quarter (wrap_i32 (pos (len text)))

abbrev completion_of : Option ℤ → ℤ → ℤ
completion_of (some max_tokens) prompt_tokens = max_tokens
completion_of none prompt_tokens = half prompt_tokens

module _ (js : Json) where
  abbrev add_text : ℤ → Option String → ℤ
  add_text total none = total
  add_text total (some text) = wrap_i32 (total +ℤ estimate_tokens_from_text text)

  abbrev add_parts : ℤ → List js.J → ℤ
  add_parts total [] = total
  add_parts total (p ∷ ps) = add_parts (add_text total (and_then (js.get p "text") js.as_str)) ps

  abbrev add_array : ℤ → Option (List js.J) → ℤ
  add_array total none = total
  add_array total (some parts) = add_parts total parts

  abbrev add_content : ℤ → Option js.J → Option String → ℤ
  add_content total none text = total
  add_content total (some content) (some text) = add_text total (some text)
  add_content total (some content) none = add_array total (js.as_array content)

  abbrev add_messages : ℤ → List js.J → ℤ
  add_messages total [] = total
  add_messages total (m ∷ ms) =
      let content = js.get m "content" in
      add_messages (add_content total content (and_then content js.as_str)) ms

  pub estimate_usage_from_request : BatchRequest js.J → UsageReport
  unfolding estimate_tokens_from_text
  estimate_usage_from_request r =
      let prompt_tokens = add_messages (pos 0) r.body.messages in
      record no_usage {
        prompt_tokens = some prompt_tokens;
        completion_tokens = some (completion_of r.body.max_tokens prompt_tokens);
      }

-- Of a catalog, `get` gives the price of a model.
module _ {D Pricing : Type 0} (js : Json) (zero_d : D) (add : D → D → D)
    (compute_cost : Pricing → UsageReport → Option D) (catalog : Dict String Pricing) where
  abbrev cost_of : String → Option D → Result BatchParseError D
  cost_of model none =
      err (cost_estimation_failed ("could not compute cost for model '" <> model <> "'"))
  cost_of model (some cost) = ok cost

  abbrev priced : String → Option Pricing → UsageReport → Result BatchParseError D
  priced model none usage =
      err (invalid_model ("model '" <> model <> "' not found in pricing catalog"))
  priced model (some pricing) usage = cost_of model (compute_cost pricing usage)

  -- The body of the loop: the cost of one request, or why it has none.
  pub line_cost : BatchRequest js.J → Result BatchParseError D
  line_cost r =
      priced r.body.model (Dict.get r.body.model catalog) (estimate_usage_from_request js r)

  abbrev pub with_line : BatchRequest js.J → D → BatchParseResult js.J D → BatchParseResult js.J D
  with_line r cost rest = record {
    lines =
        record {
          custom_id = r.custom_id;
          method = r.method;
          url = r.url;
          body = r.body;
          estimated_cost = cost;
        }
        ∷ rest.lines;
    total_estimated_cost = rest.total_estimated_cost;
  }

  abbrev pub then_line :
      BatchRequest js.J
      → D
      → Result BatchParseError (BatchParseResult js.J D)
      → Result BatchParseError (BatchParseResult js.J D)
  then_line r cost (ok rest) = ok (with_line r cost rest)
  then_line r cost (err e) = err e

  abbrev pub costed :
      BatchRequest js.J
      → Result BatchParseError D
      → (D → Result BatchParseError (BatchParseResult js.J D))
      → Result BatchParseError (BatchParseResult js.J D)
  costed r (err e) rest = err e
  costed r (ok cost) rest = then_line r cost (rest cost)

  -- The loop, with the cost so far.
  pub estimate_from :
      D → List (BatchRequest js.J) → Result BatchParseError (BatchParseResult js.J D)
  estimate_from total [] = ok (record { lines = []; total_estimated_cost = total })
  estimate_from total (r ∷ rs) = costed r (line_cost r) (λ cost. estimate_from (add total cost) rs)

  pub estimate_cost : List (BatchRequest js.J) → Result BatchParseError (BatchParseResult js.J D)
  unfolding estimate_from
  estimate_cost requests = estimate_from zero_d requests
