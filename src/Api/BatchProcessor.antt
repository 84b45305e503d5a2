-- ===== src/Api/BatchProcessor.antt =====
-- `BatchProcessor` of crates/godwit-api/src/batch_processor.rs, and the webhook of
-- crates/godwit-api/src/batch_webhook.rs.
--
-- The tasks of a batch share only the semaphore, which bounds how many run at a time: what the router
-- and the adapter answer to the nth attempt at a request is a parameter, whenever it runs. A task that
-- panics is left out. JSON and texts are the interface `Wire`, decimals the interface `Decimals`.
pub mod Totals
pub mod Attempts
mod Tests
use godwit.Base.{
  ℕ, zero, suc, ◌+◌, ◌-◌, ◌*◌, ◌^◌, Bool, true, false, String, Option, none, some, List, [], ◌∷◌,
  ◌++◌, map, length, ltb, if◌then◌else◌, Result, ok, err, ◌<>◌, show,
}
use godwit.Base.Maybe.{◌>>=◌}
use godwit.Base.Int.{ℤ, pos, ◌+ℤ◌, wrap_i64}
use godwit.Resilience.Fallback.{keep_some}
use godwit.Core.Error.{PasteurError, show_error}
use godwit.Core.Json.{is_success}
use godwit.Providers.Wire.{Wire}
use godwit.Providers.Adapter.{UsageReport, no_usage, ProviderError, show_provider_error}
use godwit.Providers.Usage.{Decimals, compute_chat_cost}
use godwit.Api.BatchParser.{BatchRequestBody, ParsedBatchLine}

pub record BatchItemResult (D : Type 0) : Type 0 where
  pub custom_id : String
  pub success : Bool
  pub estimated_cost : D
  pub actual_cost : Option D
  pub actual_input_tokens : Option ℤ
  pub actual_output_tokens : Option ℤ
  pub error : Option String

pub record BatchProcessResult (D : Type 0) : Type 0 where
  pub items : List (BatchItemResult D)
  pub total_estimated_cost : D
  pub total_actual_cost : Option D
  pub total_input_tokens : ℤ
  pub total_output_tokens : ℤ
  pub success_count : ℕ
  pub failure_count : ℕ

abbrev pub max_retries : ℕ
max_retries = 2

-- `exponential_backoff_delay`, in milliseconds, of attempts from 1
pub exponential_backoff_delay : ℕ → ℕ
exponential_backoff_delay attempt = 1000 * 2 ^ (attempt - 1)

module _ (w : Wire) (ds : Decimals w) where
  open w use {T, J, get, as_str, of_int, of_fields}
  open ds use {D, zero_d, add, positive}

  pub record ChatMessage : Type 0 where
    pub role : T
    pub content : Option T

  pub record ChatRequest : Type 0 where
    pub model : String
    pub messages : List ChatMessage
    pub max_tokens : Option ℤ

  abbrev to_message : J → Option ChatMessage
  to_message msg = do
    role_value ← get msg "role"
    role ← as_str role_value
    some (record { role = role; content = get msg "content" >>= as_str })

  -- Messages without a role are left out.
  pub convert_to_chat_request : BatchRequestBody J → ChatRequest
  convert_to_chat_request body = record {
    model = body.model;
    messages = keep_some to_message body.messages;
    max_tokens = body.max_tokens;
  }

  abbrev or_zero : Option ℤ → ℤ
  or_zero none = pos 0
  or_zero (some n) = n

  abbrev pub or_free : Option D → D
  or_free none = zero_d
  or_free (some d) = d

  -- The prices of `build_result`.
  abbrev pub free : J
  free = of_fields (
      ("input_price_per_million", of_int (pos 0))
      ∷ ("output_price_per_million", of_int (pos 0))
      ∷ [])

  pub build_result :
      ParsedBatchLine J D → BatchItemResult D → Option UsageReport → BatchItemResult D
  build_result request base none = record base {
    estimated_cost = request.estimated_cost;
    actual_cost = none;
    actual_input_tokens = none;
    actual_output_tokens = none;
  }
  build_result request base (some usage) = record base {
    estimated_cost = request.estimated_cost;
    actual_cost = some (or_free (compute_chat_cost w ds free usage));
    actual_input_tokens = some (or_zero usage.prompt_tokens);
    actual_output_tokens = some (or_zero usage.completion_tokens);
  }

  abbrev pub plain_result : ParsedBatchLine J D → Bool → Option String → BatchItemResult D
  plain_result request success e = record {
    custom_id = request.custom_id;
    success = success;
    estimated_cost = request.estimated_cost;
    actual_cost = none;
    actual_input_tokens = none;
    actual_output_tokens = none;
    error = e;
  }

  module _ {Resolved : Type 0} (resolve : ParsedBatchLine J D → ℕ → Result PasteurError Resolved)
      (chat : ParsedBatchLine J D
        → ℕ
        → Resolved
        → ChatRequest
        → Result ProviderError UsageReport) where
    abbrev pub answered :
        ParsedBatchLine J D → Result ProviderError UsageReport → BatchItemResult D × UsageReport
    answered request (ok usage) = (plain_result request true none, usage)
    answered request (err e) =
        (plain_result request false (some ("Request failed: " <> show_provider_error e)), no_usage)

    abbrev pub resolved_to :
        ParsedBatchLine J D → ℕ → Result PasteurError Resolved → BatchItemResult D × UsageReport
    resolved_to request n (err e) =
        (plain_result request false (some ("Model resolution failed: " <> show_error e)), no_usage)
    resolved_to request n (ok r) =
        answered request (chat request n r (convert_to_chat_request request.body))

    pub attempt_request : ParsedBatchLine J D → ℕ → BatchItemResult D × UsageReport
    unfolding convert_to_chat_request
    attempt_request request n = resolved_to request n (resolve request n)

    -- The loop from an attempt on, with `left` attempts, the last error, and the delays slept.
    pub attempts_from :
        ParsedBatchLine J D → ℕ → ℕ → Option String → List ℕ → BatchItemResult D × List ℕ
    unfolding attempt_request build_result exponential_backoff_delay
    attempts_from request zero attempt last_error slept =
        (build_result request (plain_result request false last_error) none, slept)
    attempts_from request (suc left) attempt last_error slept =
        let slept' =
          if ltb 0 attempt then slept ++ (exponential_backoff_delay attempt ∷ []) else slept in
        let (result, usage) = attempt_request request attempt in
        let rest = attempts_from request left (attempt + 1) result.error slept' in
        if result.success then (build_result request result (some usage), slept') else rest

    pub process_single_request : ParsedBatchLine J D → BatchItemResult D × List ℕ
    unfolding attempts_from
    process_single_request request = attempts_from request (max_retries + 1) 0 none []

    abbrev pub sum_d : D → List D → D
    sum_d total [] = total
    sum_d total (d ∷ ds') = sum_d (add total d) ds'

    -- The sum of 64-bit numbers wraps.
    abbrev sum_i64 : ℤ → List ℤ → ℤ
    sum_i64 total [] = total
    sum_i64 total (n ∷ ns) = sum_i64 (wrap_i64 (total +ℤ n)) ns

    abbrev pub successes : List (BatchItemResult D) → ℕ
    successes [] = 0
    successes (i ∷ is) = (if i.success then 1 else 0) + successes is

    pub aggregate_results : List (BatchItemResult D) → BatchProcessResult D
    aggregate_results items =
        let total_actual_cost = sum_d zero_d (keep_some (λ i. i.actual_cost) items) in
        record {
          items = items;
          total_estimated_cost = sum_d zero_d (map (λ i. i.estimated_cost) items);
          total_actual_cost = if positive total_actual_cost then some total_actual_cost else none;
          total_input_tokens = sum_i64 (pos 0) (keep_some (λ i. i.actual_input_tokens) items);
          total_output_tokens = sum_i64 (pos 0) (keep_some (λ i. i.actual_output_tokens) items);
          success_count = successes items;
          failure_count = length items - successes items;
        }

    abbrev pub process_all : List (ParsedBatchLine J D) → List (BatchItemResult D)
    process_all [] = []
    process_all (r ∷ rs) = (process_single_request r).0 ∷ process_all rs

    -- The results are joined in the order of the requests.
    pub process_batch : List (ParsedBatchLine J D) → BatchProcessResult D
    unfolding process_single_request aggregate_results
    process_batch requests = aggregate_results (process_all requests)

  pub record BatchWebhookPayload : Type 0 where
    pub batch_id : String
    pub status : String
    pub total_requests : ℕ
    pub completed_requests : ℕ
    pub failed_requests : ℕ
    pub total_cost_usd : D
    pub total_input_tokens : ℤ
    pub total_output_tokens : ℤ

  pub data WebhookError : Type 0 where
    http_error : String → WebhookError
    http_status : ℕ → WebhookError

  -- `post` sends a payload to a URL and answers with a status.
  module _ (post : String → BatchWebhookPayload → Result String ℕ) where
    abbrev checked : Result String ℕ → Result WebhookError (Unit {0})
    checked (err e) = err (http_error e)
    checked (ok status) = if is_success status then ok tt else err (http_status status)

    pub send_webhook : String → BatchWebhookPayload → Result WebhookError (Unit {0})
    send_webhook url payload = checked (post url payload)

    pub send_completion_webhook :
        String → String → BatchProcessResult D → Result WebhookError (Unit {0})
    unfolding send_webhook
    send_completion_webhook batch_public_id webhook_url result = send_webhook webhook_url (record {
      batch_id = batch_public_id;
      status = "completed";
      total_requests = length result.items;
      completed_requests = result.success_count;
      failed_requests = result.failure_count;
      total_cost_usd = or_free result.total_actual_cost;
      total_input_tokens = result.total_input_tokens;
      total_output_tokens = result.total_output_tokens;
    })
