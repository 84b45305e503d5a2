-- ===== src/Core/Error.antt =====
-- `PasteurError` of crates/godwit-core/src/lib.rs.
use godwit.Base.{String, ◌<>◌}

pub data PasteurError : Type 0 where
  config auth forbidden provider database validation : String → PasteurError
  not_found rate_limited : PasteurError

-- `to_string`
abbrev pub show_error : PasteurError → String
show_error (config s) = "configuration error: " <> s
show_error (auth s) = "authentication error: " <> s
show_error (forbidden s) = "authorization error: " <> s
show_error not_found = "not found"
show_error (provider s) = "provider error: " <> s
show_error (database s) = "database error: " <> s
show_error (validation s) = "validation error: " <> s
show_error rate_limited = "rate limited"
