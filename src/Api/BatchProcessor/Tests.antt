-- ===== src/Api/BatchProcessor/Tests.antt =====
-- A batch and its results, with numbers for decimals.
use godwit.Base.{
  ℕ, zero, suc, ◌+◌, ◌*◌, ◌/◌, ltb, Option, none, some, [], ◌∷◌, Result, ok, err, ◌≡◌, refl, arith,
  String,
}
use godwit.Base.Int.{pos, pos_part}
use godwit.Core.Error.{PasteurError, not_found}
use godwit.Providers.Wire.Values.{values, Word, json, Value, num}
use godwit.Providers.Adapter.{UsageReport, no_usage, ProviderError}
use godwit.Providers.Usage.{Decimals}
use godwit.Api.BatchParser.{ParsedBatchLine}
use godwit.Api.BatchProcessor.{
  ChatRequest, process_single_request, attempts_from, attempt_request, exponential_backoff_delay,
}

abbrev read_number : Word → Option ℕ
read_number (json (num z)) = some (pos_part z)
read_number _ = none

numbers_mul_zero : (d : ℕ) → d * 0 ≡ 0
numbers_mul_zero d = omega arith

abbrev numbers : Decimals values
numbers = record {
  D = ℕ;
  zero_d = 0;
  add = λ a b. a + b;
  mul = λ a b. a * b;
  per_million = λ d. d / 1_000_000;
  of_int = pos_part;
  positive = λ d. ltb 0 d;
  from_str_exact = read_number;
  from_zero = refl;
  mul_zero = numbers_mul_zero;
  add_zero = refl;
  per_million_zero = refl;
  positive_zero = refl;
}

abbrev line : String → ParsedBatchLine Value ℕ
line id = record {
  custom_id = id;
  method = "POST";
  url = "/v1/chat/completions";
  body = record { model = "m"; messages = []; max_tokens = none };
  estimated_cost = 5;
}

-- The router fails at the first attempt.
abbrev resolve : ParsedBatchLine Value ℕ → ℕ → Result PasteurError (Unit {0})
resolve r zero = err not_found
resolve r (suc n) = ok tt

abbrev used : UsageReport
used = record no_usage {
  prompt_tokens = some (pos 1_000_000);
  completion_tokens = some (pos 2_000_000);
}

abbrev answer :
    ParsedBatchLine Value ℕ
    → ℕ
    → Unit {0}
    → ChatRequest values numbers
    → Result ProviderError UsageReport
answer r n resolved request = ok used

-- The second attempt succeeds, after a second.
second_attempt : (process_single_request values numbers resolve answer (line "a")).1 ≡ 1000 ∷ []
unfolding process_single_request attempts_from attempt_request exponential_backoff_delay
second_attempt = refl
