-- ===== src/Core/Json.antt =====
-- What the code uses of `serde_json::Value`, and of an HTTP client.
use godwit.Base.{ℕ, String, Bool, Option, List, Result, leb, ltb, ◌&&◌}

pub record Json : Type 1 where
  pub J : Type 0
  pub get : J → String → Option J
  pub as_array : J → Option (List J)
  pub as_str : J → Option String
  pub as_u64 : J → Option ℕ
  pub is_object : J → Bool
  -- `v[key] = x`
  pub set : J → String → J → J
  pub of_str : String → J
  pub of_list : List J → J
  pub of_fields : List (String × J) → J

-- A response: its status, its text, and its body as JSON or the reason that it is none.
pub record HttpResponse (J : Type 0) : Type 0 where
  pub status : ℕ
  pub text : String
  pub json : Result String J

-- `StatusCode::is_success`
abbrev pub is_success : ℕ → Bool
is_success status = leb 200 status && ltb status 300
