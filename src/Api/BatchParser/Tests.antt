-- ===== src/Api/BatchParser/Tests.antt =====
-- The tests of batch_parser.rs on validation and cost, with numbers for decimals.
use godwit.Base.{ℕ, ◌+◌, ◌≡◌, refl, true, String, string_key, Option, none, some, [], ◌∷◌, ok, err}
use godwit.Base.Dict
use godwit.Base.Dict.{Dict}
use godwit.Base.Int.{ℤ, pos, pos_part}
use godwit.Core.Json.{Json}
use godwit.Providers.Adapter.{UsageReport}
use godwit.Api.BatchParser.{
  BatchRequest, BatchParseResult, missing_field, validate_request, estimate_cost, estimate_from,
  line_cost, estimate_usage_from_request, estimate_tokens_from_text,
}

-- A message is its content.
abbrev js : Json
js = record {
  J = String;
  get = λ v k. some v;
  as_array = λ v. none;
  as_str = λ v. some v;
  as_u64 = λ v. none;
  is_object = λ v. true;
  set = λ v k x. v;
  of_str = λ s. s;
  of_list = λ vs. "";
  of_fields = λ fs. "";
}

abbrev request : BatchRequest String
request = record {
  custom_id = "req-1";
  method = "POST";
  url = "/v1/chat/completions";
  body = record {
    model = "gpt-4o";
    messages = "Hello, how are you?" ∷ [];
    max_tokens = some (pos 100);
  };
}

missing_model :
    validate_request String
      (record request { body = record { model = ""; messages = []; max_tokens = none } })
    ≡ err (missing_field "model")
unfolding validate_request
missing_model = refl

-- A token costs its price, also one of the completion.
abbrev tokens : Option ℤ → ℕ
tokens none = 0
tokens (some n) = pos_part n

abbrev compute_cost : ℕ → UsageReport → Option ℕ
compute_cost price usage = some (tokens usage.prompt_tokens + tokens usage.completion_tokens)

abbrev catalog : Dict String ℕ
catalog = ("gpt-4o", 1) ∷ []

abbrev add : ℕ → ℕ → ℕ
add a b = a + b

abbrev estimate : BatchParseResult String ℕ
estimate = record {
  lines =
      record {
        custom_id = request.custom_id;
        method = request.method;
        url = request.url;
        body = request.body;
        estimated_cost = 104;
      }
      ∷ [];
  total_estimated_cost = 104;
}

estimated : estimate_cost js 0 add compute_cost catalog (request ∷ []) ≡ ok estimate
unfolding estimate_cost estimate_from line_cost estimate_usage_from_request
    estimate_tokens_from_text Dict.get
estimated = refl
