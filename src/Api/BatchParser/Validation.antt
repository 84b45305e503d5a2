-- ===== src/Api/BatchParser/Validation.antt =====
-- Which requests of a batch are valid.
use text.Mathlib.Text.{starts_with}
use godwit.Base.{◌≡◌, ◌≢◌, ◌↔◌, true, string_key, ok, arith, empty_text_iff}
use godwit.Api.BatchParser.{BatchRequest, validate_request}

-- A request of a batch is valid exactly if it has an id and a model, its method is POST, and its URL
-- starts with a slash.
pub validate_request_iff :
    {J : Type 0} (r : BatchRequest J)
    → (validate_request J r ≡ ok tt) ↔ (
        (r.custom_id ≢ "")
        × (r.method ≡ "POST")
        × (starts_with r.url "/" ≡ true)
        × (r.body.model ≢ ""))
unfolding validate_request
validate_request_iff r = ground (
  arith,
  empty_text_iff r.custom_id,
  string_key.same_iff r.method "POST",
  empty_text_iff r.body.model,
)
