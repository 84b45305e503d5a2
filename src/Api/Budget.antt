-- ===== src/Api/Budget.antt =====
-- The budgets and the token estimate of crates/godwit-api/src/rate_limit.rs.
--
-- Decimals are an interface, and the two queries of each budget are parameters: a row or none, and the
-- sum of the costs.
pub mod Spending
pub mod Estimate
mod Tests
use Prim.Native.String.{len}
use godwit.Base.{
  ℕ, ◌+◌, ◌/◌, ◌%◌, max, Bool, String, Option, none, some, List, [], ◌∷◌, if◌then◌else◌, Result, ok,
  err,
}
use godwit.Base.Int.{ℤ, pos_part}
use godwit.Core.Error.{PasteurError}
use godwit.Api.Responses.{ApiError, core, budget_exceeded}

pub record Decimal : Type 1 where
  pub D : Type 0
  pub zero_d : D
  -- `>=`
  pub ge : D → D → Bool

module _ (dec : Decimal) where
  pub record EndUser : Type 0 where
    pub max_budget_usd : Option dec.D

  pub record Team : Type 0 where
    pub max_budget_usd : Option dec.D

  abbrev pub unwrap_or_zero : Option dec.D → dec.D
  unwrap_or_zero none = dec.zero_d
  unwrap_or_zero (some d) = d

  abbrev database_error : String → ApiError
  database_error e = core (PasteurError.database e)

  abbrev against_spent : dec.D → Result String (Option dec.D) → Result ApiError (Unit {0})
  against_spent max_budget (err e) = err (database_error e)
  against_spent max_budget (ok spent) =
      if dec.ge (unwrap_or_zero spent) max_budget then err budget_exceeded else ok tt

  abbrev against_budget : Option dec.D → Result String (Option dec.D) → Result ApiError (Unit {0})
  against_budget none spent = ok tt
  against_budget (some max_budget) spent = against_spent max_budget spent

  abbrev end_user_row :
      Result String (Option EndUser) → Result String (Option dec.D) → Result ApiError (Unit {0})
  end_user_row (err e) spent = err (database_error e)
  end_user_row (ok none) spent = ok tt
  end_user_row (ok (some end_user)) spent = against_budget end_user.max_budget_usd spent

  abbrev team_row :
      Result String (Option Team) → Result String (Option dec.D) → Result ApiError (Unit {0})
  team_row (err e) spent = err (database_error e)
  team_row (ok none) spent = ok tt
  team_row (ok (some team)) spent = against_budget team.max_budget_usd spent

  -- The queries by user and organization.
  pub check_end_user_budget :
      (ℕ → ℕ → Result String (Option EndUser))
      → (ℕ → ℕ → Result String (Option dec.D))
      → ℕ
      → ℕ
      → Result ApiError (Unit {0})
  check_end_user_budget fetch_end_user fetch_spent user_id org_id =
      end_user_row (fetch_end_user user_id org_id) (fetch_spent user_id org_id)

  -- The queries by team.
  pub check_team_budget :
      (ℕ → Result String (Option Team))
      → (ℕ → Result String (Option dec.D))
      → ℕ
      → Result ApiError (Unit {0})
  check_team_budget fetch_team fetch_spent team_id =
      team_row (fetch_team team_id) (fetch_spent team_id)

pub data ChatContentPart : Type 0 where
  part_text image_url : String → ChatContentPart

pub data ChatContent : Type 0 where
  text : String → ChatContent
  parts : List ChatContentPart → ChatContent

pub record ChatMessage : Type 0 where
  pub role : String
  pub content : Option (List ChatContent)

pub record ChatCompletionRequest : Type 0 where
  pub messages : List ChatMessage
  pub max_tokens : Option ℤ

pub sum_by : {A : Type 0} → (A → ℕ) → List A → ℕ
sum_by f [] = 0
sum_by f (x ∷ xs) = f x + sum_by f xs

abbrev part_len : ChatContentPart → ℕ
part_len (part_text t) = len t
part_len (image_url url) = len url

abbrev content_len : ChatContent → ℕ
content_len (text t) = len t
content_len (parts ps) = sum_by part_len ps

abbrev contents_len : Option (List ChatContent) → ℕ
contents_len none = 0
contents_len (some contents) = sum_by content_len contents

abbrev pub message_len : ChatMessage → ℕ
message_len m = contents_len m.content + len m.role

-- `max_tokens.max(0)`
abbrev pub completion_tokens : Option ℤ → ℕ
completion_tokens none = 0
completion_tokens (some n) = pos_part n

-- `as u32` wraps; the sum of the lengths of texts in memory does not.
pub estimate_request_tokens : ChatCompletionRequest → ℕ
unfolding sum_by
estimate_request_tokens req =
    max (sum_by message_len req.messages / 4 + completion_tokens req.max_tokens) 1 % 4_294_967_296
