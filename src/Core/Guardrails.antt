-- ===== src/Core/Guardrails.antt =====
-- `GuardrailsOrchestrator` of crates/godwit-core/src/guardrails.rs.
--
-- `none` is a panic of the masker. JSON, the HTTP client and `trim` are parameters; `PreCallResult`
-- and `PostCallResult`, which have the same cases, are one type. The order of the effects is that of the code, so a panic of
-- the masker comes before the call of the moderation in `pre_call`, and after it in `post_call`.
pub mod Contents
pub mod Pictures
pub mod Runs
pub mod Calls
mod Tests
use godwit.Base.{
  ℕ, Bool, true, false, ◌&&◌, String, Option, none, some, List, [], ◌∷◌, ◌++◌, is_empty, ◌<>◌, show,
  if◌then◌else◌, Result, ok, err,
}
use godwit.Core.Chat.{
  ChatContent, text, ChatMessage, ChatCompletionRequest, ChatCompletionResponse, as_text,
  content_as_text, filter_map, join,
}
use godwit.Core.Json.{Json, HttpResponse, is_success}
use godwit.Base.Maybe.{◌>>=◌}
use godwit.Core.PiiMasking.{Text, PiiMasker, mask, unmask}
use godwit.Resilience.Fallback.{and_then}

pub record GuardrailsConfig : Type 0 where
  pub pii_enabled : Bool
  pub moderation_pre : Bool
  pub moderation_post : Bool
  pub block_on_moderation_failure : Bool

-- `GuardrailsConfig::default()`
pub default_config : GuardrailsConfig
default_config = record {
  pii_enabled = false;
  moderation_pre = false;
  moderation_post = false;
  block_on_moderation_failure = true;
}

pub data GuardrailsError : Type 0 where
  moderation internal : String → GuardrailsError

-- What a call does to the texts of the contents: `mask` or `unmask`.
module _ {Regex : Type 0}
    (rewrite_text : PiiMasker Regex → Text → Option (PiiMasker Regex × Text)) where
  abbrev pub rewrite_content :
      PiiMasker Regex → ChatContent → Option Text → Option (PiiMasker Regex × ChatContent)
  rewrite_content m c none = some (m, c)
  rewrite_content m c (some t) = do (m', t') ← rewrite_text m t; some (m', text t')

  -- The loop over the contents of a message.
  pub rewrite_contents :
      PiiMasker Regex → List ChatContent → Option (PiiMasker Regex × List ChatContent)
  unfolding as_text
  rewrite_contents m [] = some (m, [])
  rewrite_contents m (c ∷ cs) = do
    (m', c') ← rewrite_content m c (as_text c)
    (m'', cs') ← rewrite_contents m' cs
    some (m'', c' ∷ cs')

  abbrev pub rewrite_message :
      PiiMasker Regex
      → ChatMessage
      → Option (List ChatContent)
      → Option (PiiMasker Regex × ChatMessage)
  rewrite_message m msg none = some (m, msg)
  rewrite_message m msg (some cs) = do
    (m', cs') ← rewrite_contents m cs
    some (m', record msg { content = some cs' })

  -- The loop over the messages, or over the messages of the choices.
  pub rewrite_messages :
      PiiMasker Regex → List ChatMessage → Option (PiiMasker Regex × List ChatMessage)
  unfolding rewrite_contents
  rewrite_messages m [] = some (m, [])
  rewrite_messages m (msg ∷ msgs) = do
    (m', msg') ← rewrite_message m msg msg.content
    (m'', msgs') ← rewrite_messages m' msgs
    some (m'', msg' ∷ msgs')

module _ (js : Json) (as_bool : js.J → Option Bool) (no_object : js.J) where
  pub record ModerationResult : Type 0 where
    pub flagged : Bool
    pub categories : js.J

  pub data CallResult : Type 0 where
    allowed : CallResult
    blocked : ModerationResult → CallResult

  abbrev first : List js.J → Option js.J
  first [] = none
  first (x ∷ xs) = some x

  abbrev or_value : {A : Type 0} → A → Option A → A
  or_value d none = d
  or_value d (some x) = x

  abbrev moderation_of : Option js.J → ModerationResult
  moderation_of results = record {
    flagged = or_value false (and_then results λ r. and_then (js.get r "flagged") as_bool);
    categories = or_value no_object (and_then results λ r. js.get r "categories");
  }

  abbrev body_moderation : Result String js.J → Result GuardrailsError ModerationResult
  body_moderation (err e) = err (moderation ("parse failed: " <> e))
  body_moderation (ok value) =
      ok (moderation_of (and_then (and_then (js.get value "results") js.as_array) first))

  abbrev read_moderation :
      Result String (HttpResponse js.J) → Result GuardrailsError ModerationResult
  read_moderation (err e) = err (moderation ("request failed: " <> e))
  read_moderation (ok r) =
      if is_success r.status
      then body_moderation r.json
      else err (moderation ("HTTP " <> show r.status <> ": " <> r.text))

  module _ (is_blank : Text → Bool) (post : Text → Result String (HttpResponse js.J)) where
    pub check_moderation : Text → Result GuardrailsError ModerationResult
    check_moderation t =
        if is_blank t
        then ok (record { flagged = false; categories = no_object })
        else read_moderation (post t)

    -- `map_err` shows the error in another of its kind.
    abbrev show_guardrails_error : GuardrailsError → String
    show_guardrails_error (moderation s) = "moderation failed: " <> s
    show_guardrails_error (internal s) = "internal error: " <> s

    abbrev verdict :
        GuardrailsConfig
        → Result GuardrailsError ModerationResult
        → Result GuardrailsError CallResult
    verdict config (err e) = err (moderation (show_guardrails_error e))
    verdict config (ok r) =
        if r.flagged && config.block_on_moderation_failure then ok (blocked r) else ok allowed

    -- The moderation of some messages, if it is on.
    pub moderate : GuardrailsConfig → Bool → List ChatMessage → Result GuardrailsError CallResult
    unfolding check_moderation content_as_text
    moderate config on messages =
        if on
        then verdict config
            (check_moderation (join (32 ∷ []) (filter_map content_as_text messages)))
        else ok allowed

    module _ (checked : Bool) {Regex : Type 0} (find_iter : Regex → Text → List (ℕ × ℕ)) where
      pub record GuardrailsOrchestrator : Type 0 where
        pub pii_masker : Option (PiiMasker Regex)
        pub config : GuardrailsConfig

      -- `new`; the default patterns are a parameter, for they are regular expressions.
      pub new : PiiMasker Regex → GuardrailsConfig → GuardrailsOrchestrator
      new default_masker config = record {
        pii_masker = if config.pii_enabled then some default_masker else none;
        config = config;
      }

      -- The masker at work, if it is enabled.
      abbrev pub active : GuardrailsOrchestrator → Option (PiiMasker Regex)
      active g = if g.config.pii_enabled then g.pii_masker else none

      abbrev pub rewritten :
          (PiiMasker Regex → Text → Option (PiiMasker Regex × Text))
          → GuardrailsOrchestrator
          → Option (PiiMasker Regex)
          → List ChatMessage
          → Option (GuardrailsOrchestrator × List ChatMessage)
      rewritten f g none msgs = some (g, msgs)
      rewritten f g (some m) msgs = do
        (m', msgs') ← rewrite_messages f m msgs
        some (record g { pii_masker = some m' }, msgs')

      pub pre_call :
          GuardrailsOrchestrator
          → ChatCompletionRequest
          → String
          → Option
              (GuardrailsOrchestrator × ChatCompletionRequest × Result GuardrailsError CallResult)
      pre_call g request request_id = do
        (g', messages) ←
            rewritten (λ m t. mask checked find_iter m t request_id) g (active g) request.messages
        some (
          g',
          record request { messages = messages },
          moderate g.config g.config.moderation_pre messages,
        )

      abbrev pub unmasked :
          GuardrailsOrchestrator
          → ChatCompletionResponse
          → String
          → Option
              (GuardrailsOrchestrator × ChatCompletionResponse × Result GuardrailsError CallResult)
      unmasked g response request_id = do
        (g', choices) ← rewritten (λ m t. unmask m t request_id) g (active g) response.choices
        some (g', record response { choices = choices }, ok allowed)

      -- A response that is blocked, or that could not be judged, is left as it is.
      abbrev pub after_verdict :
          GuardrailsOrchestrator
          → ChatCompletionResponse
          → String
          → Result GuardrailsError CallResult
          → Option
              (GuardrailsOrchestrator × ChatCompletionResponse × Result GuardrailsError CallResult)
      after_verdict g response request_id (ok allowed) = unmasked g response request_id
      after_verdict g response request_id (ok (blocked r)) = some (g, response, ok (blocked r))
      after_verdict g response request_id (err e) = some (g, response, err e)

      pub post_call :
          GuardrailsOrchestrator
          → ChatCompletionResponse
          → String
          → Option
              (GuardrailsOrchestrator × ChatCompletionResponse × Result GuardrailsError CallResult)
      post_call g response request_id =
          after_verdict g response request_id
            (moderate g.config g.config.moderation_post response.choices)
