-- ===== src/Core/Guardrails/Calls.antt =====
-- What `pre_call` remembers of a request, and what `post_call` restores of a response.
use mathlib.Core.Option.{some-injective}
use godwit.Base.{
  ℕ, Bool, true, String, string_key, Option, some, List, [], ◌∷◌, ◌++◌, Result, ok, err, ◌≡◌, sym,
  ap, ◌∙◌, arith,
}
use godwit.Core.Json.{Json, HttpResponse}
use godwit.Core.Chat.{ChatMessage, ChatCompletionRequest, ChatCompletionResponse}
use godwit.Base.Maybe.{>>=-eq-some}
use godwit.Core.PiiMasking.{Text, PiiMasker, mask}
use godwit.Core.Guardrails.{
  rewrite_messages, GuardrailsOrchestrator, GuardrailsError, CallResult, allowed, blocked, active,
  rewritten, unmasked, after_verdict, pre_call, post_call,
}
use godwit.Core.Guardrails.Contents.{texts_of, run_texts, texts_after, rewrite_messages_lem}
use godwit.Core.Guardrails.Runs.{
  Remembers, mask_it, unmask_it, masked_messages-Remembers, run_unmask-cons,
}

module _ (js : Json) (as_bool : js.J → Option Bool) (no_object : js.J) (is_blank : Text → Bool)
    (post : Text → Result String (HttpResponse js.J)) (checked : Bool) {Regex : Type 0}
    (find_iter : Regex → Text → List (ℕ × ℕ)) where
  abbrev Orchestrator : Type 0
  Orchestrator = GuardrailsOrchestrator js as_bool no_object is_blank post checked find_iter

  abbrev Outcome : Type 0
  Outcome = Result GuardrailsError (CallResult js as_bool no_object)

  -- The masker that is at work rewrites the messages.
  rewritten_by :
      (f : PiiMasker Regex → Text → Option (PiiMasker Regex × Text)) (g : Orchestrator)
      (m : PiiMasker Regex) (msgs : List ChatMessage) {g' : Orchestrator} {msgs' : List ChatMessage}
      → g.config.pii_enabled ≡ true
      → g.pii_masker ≡ some m
      → rewritten js as_bool no_object is_blank post checked find_iter f g
          (active js as_bool no_object is_blank post checked find_iter g)
          msgs
        ≡ some (g', msgs')
      → (m' : PiiMasker Regex) × (g'.pii_masker ≡ some m')
        × (rewrite_messages f m msgs ≡ some (m', msgs'))
  rewritten_by f g m msgs on em h =
      let at_work : active js as_bool no_object is_blank post checked find_iter g ≡ some m =
        ground (arith, on, em) in
      let h' =
        ap (λ o. rewritten js as_bool no_object is_blank post checked find_iter f g o msgs)
          (sym at_work)
        ∙ h in
      let ((m', msgs'), e, h1) = >>=-eq-some (rewrite_messages f m msgs) _ h' in
      let same = some-injective _ _ h1 in
      (m', ap (λ p. p.0.pii_masker) (sym same), e ∙ ap (λ p. some (m', p.1)) same)

  -- After `pre_call` with the masker enabled, the masker knows for the request what it replaced in
  -- the last text of its messages, and nothing that it replaced in the texts before it.
  pub pre_call-Remembers_last :
      (g : Orchestrator) (request : ChatCompletionRequest) (request_id : String)
      (m : PiiMasker Regex) (ts : List Text) (t : Text) {g' : Orchestrator}
      {request' : ChatCompletionRequest} {out : Outcome}
      → g.config.pii_enabled ≡ true
      → g.pii_masker ≡ some m
      → texts_of request.messages ≡ ts ++ (t ∷ [])
      → pre_call js as_bool no_object is_blank post checked find_iter g request request_id
        ≡ some (g', request', out)
      → (m' : PiiMasker Regex) × (g'.pii_masker ≡ some m')
        × Remembers checked find_iter request_id m m' t
  unfolding pre_call
  pre_call-Remembers_last g request request_id m ts t on em et h =
      let ((g1, msgs1), e, h1) =
        >>=-eq-some
          (rewritten js as_bool no_object is_blank post checked find_iter
            (λ m1 t1. mask checked find_iter m1 t1 request_id) g
            (active js as_bool no_object is_blank post checked find_iter g) request.messages)
          _ h in
      let (m', em', er) =
        rewritten_by (mask_it checked find_iter request_id) g m request.messages on em e in
      (
        m',
        ap (λ p. p.0.pii_masker) (sym (some-injective _ _ h1)) ∙ em',
        masked_messages-Remembers checked find_iter request_id m request.messages ts t et er,
      )

  unmasked-first_text :
      (g : Orchestrator) (response : ChatCompletionResponse) (request_id : String)
      (m : PiiMasker Regex) (t : Text) (ts : List Text) {g' : Orchestrator}
      {response' : ChatCompletionResponse} {out : Outcome}
      → g.config.pii_enabled ≡ true
      → g.pii_masker ≡ some m
      → texts_of response.choices ≡ t ∷ ts
      → unmasked js as_bool no_object is_blank post checked find_iter g response request_id
        ≡ some (g', response', out)
      → (t' : Text) × (texts_of response'.choices ≡ t' ∷ ts)
  unmasked-first_text g response request_id m t ts on em et h =
      let f = unmask_it checked find_iter request_id in
      let ((g1, msgs1), e, h1) =
        >>=-eq-some
          (rewritten js as_bool no_object is_blank post checked find_iter f g
            (active js as_bool no_object is_blank post checked find_iter g) response.choices)
          _ h in
      let (m', _, er) = rewritten_by f g m response.choices on em e in
      let run : run_texts f m (t ∷ ts) ≡ some (m', texts_of msgs1) =
        ap (run_texts f m) (sym et)
        ∙ sym (rewrite_messages_lem f m response.choices)
        ∙ ap (texts_after f) er in
      let (t', ets) = run_unmask-cons checked find_iter request_id m t ts run in
      (t', ap (λ p. texts_of p.1.choices) (sym (some-injective _ _ h1)) ∙ ets)

  after_verdict-first_text :
      (g : Orchestrator) (response : ChatCompletionResponse) (request_id : String)
      (m : PiiMasker Regex) (t : Text) (ts : List Text) (v : Outcome) {g' : Orchestrator}
      {response' : ChatCompletionResponse} {out : Outcome}
      → g.config.pii_enabled ≡ true
      → g.pii_masker ≡ some m
      → texts_of response.choices ≡ t ∷ ts
      → after_verdict js as_bool no_object is_blank post checked find_iter g response request_id v
        ≡ some (g', response', out)
      → (t' : Text) × (texts_of response'.choices ≡ t' ∷ ts)
  after_verdict-first_text g response request_id m t ts (ok allowed) on em et h =
      unmasked-first_text g response request_id m t ts on em et h
  after_verdict-first_text g response request_id m t ts (ok (blocked r)) on em et h =
      (t, ap (λ p. texts_of p.1.choices) (sym (some-injective _ _ h)) ∙ et)
  after_verdict-first_text g response request_id m t ts (err e) on em et h =
      (t, ap (λ p. texts_of p.1.choices) (sym (some-injective _ _ h)) ∙ et)

  -- Of the texts of a response, `post_call` rewrites at most the first; if the masker is enabled.
  pub post_call-first_text :
      (g : Orchestrator) (response : ChatCompletionResponse) (request_id : String)
      (m : PiiMasker Regex) (t : Text) (ts : List Text) {g' : Orchestrator}
      {response' : ChatCompletionResponse} {out : Outcome}
      → g.config.pii_enabled ≡ true
      → g.pii_masker ≡ some m
      → texts_of response.choices ≡ t ∷ ts
      → post_call js as_bool no_object is_blank post checked find_iter g response request_id
        ≡ some (g', response', out)
      → (t' : Text) × (texts_of response'.choices ≡ t' ∷ ts)
  unfolding post_call
  post_call-first_text g response request_id m t ts on em et h =
      after_verdict-first_text g response request_id m t ts _ on em et h
