-- ===== src/Api/AgenticLoop/Rounds.antt =====
-- How the agentic loop ends, without its state.
use mathlib.Core.Path.{subst}
use godwit.Base.{
  ℕ, zero, suc, ◌+◌, ◌<◌, ◌≡◌, ◌⊎◌, inl, inr, refl, sym, ap, ◌∙◌, List, [], ◌∷◌, ◌++◌, Result, ok,
  err, arith, append_assoc, append_nil, is_empty, Bool, true, false, Option, none, some, String,
  if◌then◌else◌, ◌<>◌, show,
}
use godwit.Base.Int.{ℤ, ◌+ℤ◌, wrap_i32}
use godwit.Core.Error.{provider}
use godwit.Providers.Adapter.{ProviderError, UsageReport, no_usage, show_provider_error}
use godwit.Api.AgenticLoop.{
  AgenticLoop, Environment, Outcome, Round, return, continue, round, next_round, rounds, execute,
  not_converging, Choice, after_tools, after_validation, after_iteration, first_message,
  tool_calls_of, run_iteration, accumulate_usage, add_tokens,
}

abbrev plus : Option ℤ → ℤ → ℤ
plus none x = x
plus (some y) x = wrap_i32 (y +ℤ x)

-- The sum of the counts that were reported, none if there is none; the newest comes first.
abbrev summed : List (Option ℤ) → Option ℤ
summed [] = none
summed (none ∷ xs) = summed xs
summed (some x ∷ xs) = some (plus (summed xs) x)

abbrev prompts : List UsageReport → List (Option ℤ)
prompts [] = []
prompts (u ∷ us) = u.prompt_tokens ∷ prompts us

abbrev completions : List UsageReport → List (Option ℤ)
completions [] = []
completions (u ∷ us) = u.completion_tokens ∷ completions us

-- The usage of several iterations: their tokens, and nothing else of the reports.
abbrev pub total : List UsageReport → UsageReport
total us = record no_usage {
  prompt_tokens = summed (prompts us);
  completion_tokens = summed (completions us);
}

add_tokens-summed :
    (p : Option ℤ) (ps : List (Option ℤ)) → add_tokens (summed ps) p ≡ summed (p ∷ ps)
add_tokens-summed p ps = go (summed ps) refl p
  where
    go :
        (s : Option ℤ) → summed ps ≡ s → (q : Option ℤ) → add_tokens (summed ps) q ≡ summed (q ∷ ps)
    go none e none = rw e refl
    go none e (some x) = rw e refl
    go (some y) e none = rw e refl
    go (some y) e (some x) = rw e refl

accumulate_usage-total :
    (us : List UsageReport) (u : UsageReport) → accumulate_usage (total us) u ≡ total (u ∷ us)
unfolding accumulate_usage
accumulate_usage-total us u =
    ap
      (λ p. record no_usage {
        prompt_tokens = p;
        completion_tokens = add_tokens (summed (completions us)) u.completion_tokens;
      })
      (add_tokens-summed u.prompt_tokens (prompts us))
    ∙ ap
        (λ c. record no_usage {
          prompt_tokens = summed (u.prompt_tokens ∷ prompts us);
          completion_tokens = c;
        })
        (add_tokens-summed u.completion_tokens (completions us))

module _ {Message ToolCall : Type 0} (env : Environment Message ToolCall) (l : AgenticLoop) where
  abbrev timed_out : ℕ → Outcome env
  timed_out i = err (
      provider
        ("iteration " <> show (i + 1) <> " timed out after " <> show l.iteration_timeout <> "s"))

  -- The loop comes to round `i` with this conversation, after these reports, the newest first: in each
  -- round before, the model answered in time and to the schema, and the tools that it called gave
  -- results. The conversation has the message of the model and the results of each round.
  pub data Reaches (messages : List Message) : ℕ → List Message → List UsageReport → Type 0 where
    start : Reaches messages 0 messages []
    next :
        {i : ℕ} {m : List Message} {us : List UsageReport} (c : List (Choice Message ToolCall))
        (u : UsageReport) (r : Message) (results : List Message)
        → Reaches messages i m us
        → env.in_time i ≡ true
        → run_iteration env i m ≡ ok (c, u)
        → env.schema_error c ≡ none
        → is_empty (tool_calls_of c) ≡ false
        → env.resolve_tool_calls i (tool_calls_of c) ≡ r ∷ results
        → Reaches messages (suc i) ((m ++ first_message c) ++ (r ∷ results)) (u ∷ us)

  -- What ends the loop in round `i`, and with which outcome.
  pub data Stops (i : ℕ) (m : List Message) (us : List UsageReport) : Outcome env → Type 0 where
    too_slow : env.in_time i ≡ false → Stops i m us (timed_out i)
    failed :
        (e : ProviderError)
        → env.in_time i ≡ true
        → run_iteration env i m ≡ err e
        → Stops i m us (err (provider (show_provider_error e)))
    invalid :
        (c : List (Choice Message ToolCall)) (u : UsageReport) (reason : String)
        → env.in_time i ≡ true
        → run_iteration env i m ≡ ok (c, u)
        → env.schema_error c ≡ some reason
        → Stops i m us (err (provider ("response validation failed: " <> reason)))
    answered :
        (c : List (Choice Message ToolCall)) (u : UsageReport)
        → env.in_time i ≡ true
        → run_iteration env i m ≡ ok (c, u)
        → env.schema_error c ≡ none
        → (is_empty (tool_calls_of c) ≡ true) ⊎ (env.resolve_tool_calls i (tool_calls_of c) ≡ [])
        → Stops i m us (ok (c, total (u ∷ us)))

  -- What the loop comes to.
  abbrev pub Ends : List Message → Outcome env → Type 0
  Ends messages out =
      ((k : ℕ) × (m : List Message) × (us : List UsageReport) × (k < l.max_iterations)
        × Reaches messages k m us
        × Stops k m us out)
      ⊎ ((m : List Message) × (us : List UsageReport) × Reaches messages l.max_iterations m us
          × (out ≡ err (not_converging l)))

  module _ (messages : List Message) (i : ℕ) (m : List Message) (us : List UsageReport) where
    -- A round that ends the loop, or one that leads to the next.
    abbrev IsRound : Round env → Type 0
    IsRound b =
        ((out : Outcome env) × Stops i m us out × (b ≡ return out))
        ⊎ ((m' : List Message) × (us' : List UsageReport) × Reaches messages (suc i) m' us'
            × (b ≡ continue m' (total us')))

    after_tools-IsRound :
        (c : List (Choice Message ToolCall)) (u : UsageReport) (results : List Message)
        → Reaches messages i m us
        → env.in_time i ≡ true
        → run_iteration env i m ≡ ok (c, u)
        → env.schema_error c ≡ none
        → is_empty (tool_calls_of c) ≡ false
        → env.resolve_tool_calls i (tool_calls_of c) ≡ results
        → IsRound (after_tools env c (total (u ∷ us)) m results)
    after_tools-IsRound c u [] at in_time run fine calls e =
        inl (ok (c, total (u ∷ us)), answered c u in_time run fine (inr e), refl)
    after_tools-IsRound c u (r ∷ results) at in_time run fine calls e = inr (
      (m ++ first_message c) ++ (r ∷ results),
      u ∷ us,
      next c u r results at in_time run fine calls e,
      refl,
    )

    after_validation-IsRound :
        (c : List (Choice Message ToolCall)) (u : UsageReport) (reason : Option String)
        → Reaches messages i m us
        → env.in_time i ≡ true
        → run_iteration env i m ≡ ok (c, u)
        → env.schema_error c ≡ reason
        → IsRound (after_validation env reason i c (total (u ∷ us)) m)
    after_validation-IsRound c u (some reason) at in_time run wrong = inl (
      err (provider ("response validation failed: " <> reason)),
      invalid c u reason in_time run wrong,
      refl,
    )
    after_validation-IsRound c u none at in_time run fine = go (is_empty (tool_calls_of c)) refl
      where
        results : List Message
        results = env.resolve_tool_calls i (tool_calls_of c)

        go :
            (b : Bool)
            → is_empty (tool_calls_of c) ≡ b
            → IsRound (
                if b
                then return (ok (c, total (u ∷ us)))
                else after_tools env c (total (u ∷ us)) m results)
        go true e = inl (ok (c, total (u ∷ us)), answered c u in_time run fine (inl e), refl)
        go false e = after_tools-IsRound c u results at in_time run fine e refl

    after_iteration-IsRound :
        (r : Result ProviderError (List (Choice Message ToolCall) × UsageReport))
        → Reaches messages i m us
        → env.in_time i ≡ true
        → run_iteration env i m ≡ r
        → IsRound (after_iteration env r i m (total us))
    after_iteration-IsRound (err e) at in_time run =
        inl (err (provider (show_provider_error e)), failed e in_time run, refl)
    after_iteration-IsRound (ok (c, u)) at in_time run =
        subst (λ t. IsRound (after_validation env (env.schema_error c) i c t m))
          (sym (accumulate_usage-total us u))
          (after_validation-IsRound c u (env.schema_error c) at in_time run refl)

    round-IsRound : Reaches messages i m us → IsRound (round env l i m (total us))
    unfolding round
    round-IsRound at = go (env.in_time i) refl
      where
        go :
            (b : Bool)
            → env.in_time i ≡ b
            → IsRound (
                if b
                then after_iteration env (run_iteration env i m) i m (total us)
                else return (timed_out i))
        go true e = after_iteration-IsRound (run_iteration env i m) at e refl
        go false e = inl (timed_out i, too_slow e, refl)

  rounds-Ends :
      (messages : List Message) (remaining i : ℕ) (m : List Message) (us : List UsageReport)
      → i + remaining ≡ l.max_iterations
      → Reaches messages i m us
      → Ends messages (rounds env l remaining i m (total us))
  unfolding rounds
  rounds-Ends messages zero i m us e at =
      inr (m, us, subst (λ n. Reaches messages n m us) (omega arith) at, refl)
  rounds-Ends messages (suc remaining) i m us e at =
      go (round env l i m (total us)) (round-IsRound messages i m us at)
        (λ m' us'. rounds-Ends messages remaining (suc i) m' us' (omega arith))
    where
      go :
          (b : Round env)
          → IsRound messages i m us b
          → ((m' : List Message) (us' : List UsageReport)
              → Reaches messages (suc i) m' us'
              → Ends messages (rounds env l remaining (suc i) m' (total us')))
          → Ends messages (next_round env b (λ m' t'. rounds env l remaining (suc i) m' t'))
      go b (inl (out, stops, h)) ih = rw h (inl (i, m, us, omega arith, at, stops))
      go b (inr (m', us', at', h)) ih = rw h (ih m' us' at')

  -- The loop ends in its first round in which the model is too slow, fails, breaks the schema, calls
  -- no tools or gets no results, with the error that belongs to that or the answer and the sum of the
  -- tokens of all rounds up to this one; or, if there is no such round among as many as are allowed,
  -- with the error that it does not converge. The conversation of each round is that of the one before
  -- with its message and the results of its tools.
  pub execute-Ends : (messages : List Message) → Ends messages (execute env l messages)
  unfolding execute
  execute-Ends messages = rounds-Ends messages l.max_iterations 0 messages [] (omega arith) start

  -- Whatever round the loop comes to, its conversation begins with the messages of the request.
  pub conversation_grows :
      (messages : List Message) (i : ℕ) (m : List Message) (us : List UsageReport)
      → Reaches messages i m us
      → (added : List Message) × (m ≡ messages ++ added)
  conversation_grows messages i m us start = ([], sym (append_nil messages))
  conversation_grows messages i m us
        (next {i = j} {m = m₀} {us = us₀} c u r results at in_time run fine calls e) =
      let (added, eq) = conversation_grows messages j m₀ us₀ at in
      let more = first_message c ++ (r ∷ results) in
      (
        added ++ more,
        append_assoc m₀ (first_message c) (r ∷ results)
            ∙ ap (λ x. x ++ more) eq
            ∙ append_assoc messages added more,
      )
