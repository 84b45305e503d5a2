-- ===== src/Api/AgenticLoop/Tests.antt =====
-- Instances of the theorems on the agentic loop, with texts for messages and tool calls.
use godwit.Base.{
  ℕ, zero, suc, ◌≡◌, refl, true, String, none, some, List, [], ◌∷◌, Result, ok, nat_key,
}
use godwit.Base.Int.{pos}
use godwit.Providers.Adapter.{ProviderError, UsageReport, no_usage}
use godwit.Resilience.Retry.{default, with_retry, attempts}
use godwit.Api.AgenticLoop.{
  AgenticLoop, Environment, ProviderResponse, chat, continue, round, run_iteration,
  accumulate_usage, tool_calls_of, execute, rounds,
}
use godwit.Api.AgenticLoop.Rounds.{Ends, execute-Ends}

abbrev loop : AgenticLoop
loop = record { max_iterations = 4; iteration_timeout = 120 }

abbrev used : UsageReport
used = record no_usage { prompt_tokens = some (pos 10); completion_tokens = some (pos 5) }

-- The first round calls a tool, the second answers.
abbrev chats :
    ℕ → List String → ℕ → Result ProviderError (ProviderResponse String String × UsageReport)
chats zero messages k =
    ok (chat (record { message = "let me see"; tool_calls = some ("search" ∷ []) } ∷ []), used)
chats (suc i) messages k = ok (chat (record { message = "done"; tool_calls = none } ∷ []), used)

abbrev env : Environment String String
env = record {
  adapter_chat = chats;
  in_time = λ i. true;
  schema_error = λ c. none;
  resolve_tool_calls = λ i calls. "found it" ∷ [];
}

answers_in_two_rounds :
    execute env loop ("hi" ∷ [])
    ≡ ok (
      record { message = "done"; tool_calls = none } ∷ [],
      record no_usage { prompt_tokens = some (pos 20); completion_tokens = some (pos 10) },
    )
unfolding execute rounds round run_iteration accumulate_usage tool_calls_of with_retry attempts
    default
answers_in_two_rounds = refl

first_round :
    round env loop 0 ("hi" ∷ []) no_usage ≡ continue ("hi" ∷ "let me see" ∷ "found it" ∷ []) used
unfolding round run_iteration accumulate_usage tool_calls_of with_retry attempts default
first_round = refl

execute-Ends_example : Ends env loop ("hi" ∷ []) (execute env loop ("hi" ∷ []))
execute-Ends_example = execute-Ends env loop ("hi" ∷ [])
