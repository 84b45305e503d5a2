-- ===== src/Api/Middleware/Tests.antt =====
-- The tests of middleware.rs, and instances of the theorems.
use godwit.Base.{
  ◌≡◌, refl, Bool, false, String, string_key, none, some, List, [], ◌∷◌, Result, ok, ◌==◌,
}
use godwit.Base.Dict
use godwit.Api.Middleware.{
  admitted, ApiKey, Cache, api_key_auth, extract_token, extract_prefix, lookup, find_key,
}
use godwit.Api.Middleware.ApiKeys.{IsVerified, IsRight, admitted_was_verified}
use godwit.Api.Middleware.Revoked.{Visit, visit_all, revoked_key_stays_admitted}

-- A hash is the token itself.
abbrev verify_key : String → String → Bool
verify_key auth hash = auth == hash

abbrev key : ApiKey
key = record {
  id = 1;
  key_hash = "sk-godwit-abcdefghijklmnop";
  disabled = false;
  expires_at = none;
  allowed_models = "gpt-4o" ∷ [];
}

abbrev bearer : String
bearer = "Bearer sk-godwit-abcdefghijklmnop"

abbrev has_key : String → Result String (List ApiKey)
has_key prefix = ok (key ∷ [])

abbrev no_key : String → Result String (List ApiKey)
no_key prefix = ok []

abbrev no_cache : Cache
no_cache = []

no_cache-IsVerified : IsVerified verify_key no_cache
unfolding Dict.get
no_cache-IsVerified = record { verified = λ auth k e. cc }

bearer_token : extract_token bearer ≡ some "sk-godwit-abcdefghijklmnop"
unfolding extract_token
bearer_token = refl

first_admitted : (api_key_auth verify_key has_key no_cache (some bearer) 5 5).1 ≡ admitted key
unfolding api_key_auth extract_token extract_prefix lookup find_key Dict.get
first_admitted = refl

admitted_was_verified_example :
    IsRight verify_key "sk-godwit-abcdefghijklmnop"
      (api_key_auth verify_key has_key no_cache (some bearer) 5 5)
admitted_was_verified_example =
    admitted_was_verified verify_key has_key no_cache bearer "sk-godwit-abcdefghijklmnop" 5 5
      no_cache-IsVerified bearer_token

-- Requests with another token and with none, when the key is no longer in the table.
abbrev others : List Visit
others =
    record {
      get_by_prefix = no_key;
      header = some "Bearer sk-godwit-zyxwvutsrqponmlk";
      now = 7;
      now' = 7;
    }
    ∷ record { get_by_prefix = no_key; header = none; now = 8; now' = 8 }
    ∷ []

revoked_key_stays_admitted_example :
    (api_key_auth verify_key no_key
      (visit_all verify_key (api_key_auth verify_key has_key no_cache (some bearer) 5 5).0 others)
      (some bearer)
      900
      900).1
    ≡ admitted key
revoked_key_stays_admitted_example =
    revoked_key_stays_admitted verify_key has_key no_key no_cache bearer
      "sk-godwit-abcdefghijklmnop" 5 5 900 900 key others no_cache-IsVerified bearer_token
      first_admitted (refl, (refl, tt)) refl

short_token : extract_token "Bearer abc" ≡ some "abc"
unfolding extract_token
short_token = refl

abbrev app : String
app = "https://app.example.com"
