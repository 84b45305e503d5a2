-- ===== src/Api/AgenticLoop.antt =====
-- crates/godwit-api/src/agentic_loop.rs: chat, run the tools that the model calls, and chat again.
--
-- Messages, tool calls, the call of the adapter, the schema validator and the tools (`resolve_tool_calls`
-- of proxy.rs) are parameters. `timeout` gives the result of an iteration that ends in time.
pub mod Rounds
mod Tests
use godwit.Base.{
  ℕ, zero, suc, ◌+◌, Bool, true, false, String, Option, none, some, List, [], ◌∷◌, ◌++◌, is_empty,
  if◌then◌else◌, Result, ok, err, ◌<>◌, show,
}
use godwit.Base.Int.{ℤ, ◌+ℤ◌, wrap_i32}
use godwit.Core.Error.{PasteurError, provider}
use godwit.Providers.Adapter.{ProviderError, UsageReport, no_usage, show_provider_error}
use godwit.Providers.Adapter as Adapter
use godwit.Resilience.Retry.{default, with_retry}

abbrev pub add_tokens : Option ℤ → Option ℤ → Option ℤ
add_tokens (some x) (some y) = some (wrap_i32 (x +ℤ y))
add_tokens a none = a
add_tokens none b = b

pub accumulate_usage : UsageReport → UsageReport → UsageReport
accumulate_usage acc report = record acc {
  prompt_tokens = add_tokens acc.prompt_tokens report.prompt_tokens;
  completion_tokens = add_tokens acc.completion_tokens report.completion_tokens;
}

-- A choice of a completion: its message and the tool calls of that.
pub record Choice (Message ToolCall : Type 0) : Type 0 where
  pub message : Message
  pub tool_calls : Option (List ToolCall)

-- `ProviderResponse`: a chat completion, or anything else.
pub data ProviderResponse (Message ToolCall : Type 0) : Type 0 where
  chat : List (Choice Message ToolCall) → ProviderResponse Message ToolCall
  other : ProviderResponse Message ToolCall

pub record AgenticLoop : Type 0 where
  pub max_iterations : ℕ
  pub iteration_timeout : ℕ

abbrev pub not_converging : AgenticLoop → PasteurError
not_converging l =
    provider
      ("agentic tool loop exceeded " <> show l.max_iterations <> " iterations without converging")

module _ {Message ToolCall : Type 0} where
  -- The tool calls of all choices.
  pub tool_calls_of : List (Choice Message ToolCall) → List ToolCall
  tool_calls_of [] = []
  tool_calls_of (c ∷ cs) = calls c.tool_calls ++ tool_calls_of cs
    where
      calls : Option (List ToolCall) → List ToolCall
      calls (some ts) = ts
      calls none = []

  -- The message of the first choice, which joins the conversation.
  abbrev pub first_message : List (Choice Message ToolCall) → List Message
  first_message [] = []
  first_message (c ∷ cs) = c.message ∷ []

-- What the environment of the loop does: the adapter's answer to an attempt of an iteration, whether
-- the iteration ends in time, what is wrong with the content of a completion if the request has a
-- schema, and the results of tools.
pub record Environment (Message ToolCall : Type 0) : Type 0 where
  pub adapter_chat :
      ℕ → List Message → ℕ → Result ProviderError (ProviderResponse Message ToolCall × UsageReport)
  pub in_time : ℕ → Bool
  pub schema_error : List (Choice Message ToolCall) → Option String
  pub resolve_tool_calls : ℕ → List ToolCall → List Message

module _ {Message ToolCall : Type 0} (env : Environment Message ToolCall) where
  abbrev chat_only :
      Result ProviderError (ProviderResponse Message ToolCall × UsageReport)
      → Result ProviderError (List (Choice Message ToolCall) × UsageReport)
  chat_only (ok (chat completion, usage)) = ok (completion, usage)
  chat_only (ok (other, usage)) =
      err (Adapter.provider "unexpected provider response variant during agentic chat")
  chat_only (err e) = err e

  pub run_iteration :
      ℕ → List Message → Result ProviderError (List (Choice Message ToolCall) × UsageReport)
  run_iteration iteration messages =
      chat_only (with_retry default (env.adapter_chat iteration messages)).0

  abbrev pub Outcome : Type 0
  Outcome = Result PasteurError (List (Choice Message ToolCall) × UsageReport)

  -- What a round does: it ends the loop, or leaves the conversation and the usage for the next one.
  pub data Round : Type 0 where
    return : Outcome → Round
    continue : List Message → UsageReport → Round

  abbrev pub after_tools :
      List (Choice Message ToolCall) → UsageReport → List Message → List Message → Round
  after_tools completion usage messages [] = return (ok (completion, usage))
  after_tools completion usage messages (r ∷ results) =
      continue ((messages ++ first_message completion) ++ (r ∷ results)) usage

  abbrev pub after_validation :
      Option String → ℕ → List (Choice Message ToolCall) → UsageReport → List Message → Round
  after_validation (some e) iteration completion usage messages =
      return (err (provider ("response validation failed: " <> e)))
  after_validation none iteration completion usage messages =
      let tool_calls = tool_calls_of completion in
      if is_empty tool_calls
      then return (ok (completion, usage))
      else after_tools completion usage messages (env.resolve_tool_calls iteration tool_calls)

  abbrev pub after_iteration :
      Result ProviderError (List (Choice Message ToolCall) × UsageReport)
      → ℕ
      → List Message
      → UsageReport
      → Round
  after_iteration (err e) iteration messages total = return (err (provider (show_provider_error e)))
  after_iteration (ok (completion, usage)) iteration messages total =
      after_validation (env.schema_error completion) iteration completion
        (accumulate_usage total usage) messages

  -- The body of the `for` loop.
  pub round : AgenticLoop → ℕ → List Message → UsageReport → Round
  unfolding run_iteration accumulate_usage
  round l iteration messages total =
      if env.in_time iteration
      then after_iteration (run_iteration iteration messages) iteration messages total
      else return (
          err (
            provider (
              "iteration "
              <> show (iteration + 1)
              <> " timed out after "
              <> show l.iteration_timeout
              <> "s")))

  abbrev pub next_round : Round → (List Message → UsageReport → Outcome) → Outcome
  next_round (return r) rest = r
  next_round (continue messages total) rest = rest messages total

  -- `remaining` is the number of rounds left of `0..max_iterations`.
  pub rounds : AgenticLoop → ℕ → ℕ → List Message → UsageReport → Outcome
  rounds l zero iteration messages total = err (not_converging l)
  rounds l (suc remaining) iteration messages total =
      next_round (round l iteration messages total) (λ m t. rounds l remaining (suc iteration) m t)

  pub execute : AgenticLoop → List Message → Outcome
  unfolding rounds
  execute l messages = rounds l l.max_iterations 0 messages no_usage
