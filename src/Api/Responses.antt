-- ===== src/Api/Responses.antt =====
-- crates/godwit-api/src/error.rs: the errors of handlers, and the responses that they become.
--
-- Of a response the status, the title, the detail, the `Retry-After` header and the categories are
-- modelled; its `type` is made from the title.
pub mod Clients
mod Tests
use godwit.Base.{ℕ, String, Option, none, some, List}
use godwit.Core.Error.{PasteurError}

pub data ApiError : Type 0 where
  unauthorized forbidden not_found budget_exceeded internal : ApiError
  bad_request : String → ApiError
  rate_limited : Option ℕ → ApiError
  core : PasteurError → ApiError
  database : String → ApiError
  moderation_blocked : List String → ApiError
  guardrails_error : String → ApiError

-- `From<PasteurError>`
unfoldable pub from_core : PasteurError → ApiError
from_core PasteurError.not_found = not_found
from_core (PasteurError.auth s) = unauthorized
from_core (PasteurError.forbidden s) = unauthorized
from_core (PasteurError.validation msg) = bad_request msg
from_core PasteurError.rate_limited = rate_limited none
from_core (PasteurError.config s) = core (PasteurError.config s)
from_core (PasteurError.provider s) = core (PasteurError.provider s)
from_core (PasteurError.database s) = core (PasteurError.database s)

pub record Response : Type 0 where
  pub status : ℕ
  pub title : String
  pub detail : String
  pub retry_after : Option ℕ
  pub categories : Option (List String)

abbrev problem : ℕ → String → String → Option ℕ → Response
problem status title detail retry_after = record {
  status = status;
  title = title;
  detail = detail;
  retry_after = retry_after;
  categories = none;
}

abbrev internal_response : Response
internal_response = problem 500 "Internal Server Error" "An unexpected error occurred." none

-- `show_categories` is the debug text of a list of texts.
pub into_response : (List String → String) → ApiError → Response
into_response show_categories unauthorized =
    problem 401 "Unauthorized" "Authentication required." none
into_response show_categories forbidden = problem 403 "Forbidden" "Insufficient permissions." none
into_response show_categories not_found = problem 404 "Not Found" "Resource not found." none
into_response show_categories (bad_request msg) = problem 400 "Bad Request" msg none
into_response show_categories (rate_limited retry_after) =
    problem 429 "Too Many Requests" "Rate limit exceeded." retry_after
into_response show_categories budget_exceeded =
    problem 429 "Budget Exceeded" "End-user budget has been exceeded." none
into_response show_categories (moderation_blocked categories) = record {
  status = 400;
  title = "Moderation Blocked";
  detail = show_categories categories;
  retry_after = none;
  categories = some categories;
}
into_response show_categories internal = internal_response
into_response show_categories (core e) = internal_response
into_response show_categories (database e) = internal_response
into_response show_categories (guardrails_error e) = internal_response
