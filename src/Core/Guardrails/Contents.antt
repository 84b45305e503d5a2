-- ===== src/Core/Guardrails/Contents.antt =====
-- Masking and unmasking, seen as runs over the texts of the messages in their order.
use godwit.Base.{Option, none, some, List, [], ◌∷◌, ◌++◌, ◌≡◌, refl, sym}
use godwit.Core.Chat.{ChatContent, ChatMessage, as_text}
use godwit.Base.Maybe.{◌>>=◌, >>=-assoc, >>=-some}
use godwit.Core.PiiMasking.{Text, PiiMasker}
use godwit.Core.Guardrails.{rewrite_content, rewrite_contents, rewrite_message, rewrite_messages}

abbrev cons_text : Option Text → List Text → List Text
cons_text none ts = ts
cons_text (some t) ts = t ∷ ts

abbrev pub texts_in : List ChatContent → List Text
texts_in [] = []
texts_in (c ∷ cs) = cons_text (as_text c) (texts_in cs)

abbrev texts_in? : Option (List ChatContent) → List Text
texts_in? none = []
texts_in? (some cs) = texts_in cs

-- The texts of the contents of messages, in their order.
abbrev pub texts_of : List ChatMessage → List Text
texts_of [] = []
texts_of (msg ∷ msgs) = texts_in? msg.content ++ texts_of msgs

module _ {Regex : Type 0} (f : PiiMasker Regex → Text → Option (PiiMasker Regex × Text)) where
  abbrev pub run_texts : PiiMasker Regex → List Text → Option (PiiMasker Regex × List Text)
  run_texts m [] = some (m, [])
  run_texts m (t ∷ ts) = do (m', t') ← f m t; (m'', ts') ← run_texts m' ts; some (m'', t' ∷ ts')

  run_texts-append :
      (m : PiiMasker Regex) (ts us : List Text)
      → run_texts m (ts ++ us)
        ≡ (do (m', ts') ← run_texts m ts; (m'', us') ← run_texts m' us; some (m'', ts' ++ us'))
  run_texts-append m [] us = sym (>>=-some (run_texts m us))
  run_texts-append m (t ∷ ts) us =
      simp (λ (m' : PiiMasker Regex). run_texts-append m' ts us, >>=-assoc)

  -- The texts of what a rewriting leaves.
  abbrev pub texts_after :
      Option (PiiMasker Regex × List ChatMessage) → Option (PiiMasker Regex × List Text)
  texts_after o = o >>= λ (m, msgs). some (m, texts_of msgs)

  -- One content, by its text; `rest` rewrites the others.
  content_step :
      (m : PiiMasker Regex) (c : ChatContent) (o : Option Text) (ts : List Text)
      (rest : PiiMasker Regex → Option (PiiMasker Regex × List ChatContent))
      → as_text c ≡ o
      → ((m' : PiiMasker Regex)
          → (rest m' >>= λ (m'', cs'). some (m'', texts_in cs')) ≡ run_texts m' ts)
      → ((rewrite_content f m c o >>= λ (m', c'). rest m' >>= λ (m'', cs'). some (m'', c' ∷ cs'))
          >>= λ (m', cs'). some (m', texts_in cs'))
        ≡ run_texts m (cons_text o ts)
  content_step m c none ts rest e ih = simp (>>=-assoc, e) (ih m)
  content_step m c (some t) ts rest e ih =
      unfold as_text in simp (λ (m' : PiiMasker Regex). sym (ih m'), >>=-assoc)

  rewrite_contents_lem :
      (m : PiiMasker Regex) (cs : List ChatContent)
      → (rewrite_contents f m cs >>= λ (m', cs'). some (m', texts_in cs'))
        ≡ run_texts m (texts_in cs)
  unfolding rewrite_contents
  rewrite_contents_lem m [] = refl
  rewrite_contents_lem m (c ∷ cs) =
      content_step m c (as_text c) (texts_in cs) (λ m'. rewrite_contents f m' cs) refl
        (λ m'. rewrite_contents_lem m' cs)

  message_step :
      (m : PiiMasker Regex) (msg : ChatMessage) (o : Option (List ChatContent)) (ts : List Text)
      (rest : PiiMasker Regex → Option (PiiMasker Regex × List ChatMessage))
      → msg.content ≡ o
      → ((m' : PiiMasker Regex)
          → (rest m' >>= λ (m'', msgs). some (m'', texts_of msgs)) ≡ run_texts m' ts)
      → ((rewrite_message f m msg o >>= λ (m', msg').
            rest m' >>= λ (m'', msgs'). some (m'', msg' ∷ msgs'))
          >>= λ (m', msgs'). some (m', texts_of msgs'))
        ≡ run_texts m (texts_in? o ++ ts)
  message_step m msg none ts rest e ih = simp (>>=-assoc, e) (ih m)
  message_step m msg (some cs) ts rest e ih = simp (
    run_texts-append,
    sym (rewrite_contents_lem m cs),
    λ (m' : PiiMasker Regex). sym (ih m'),
    >>=-assoc,
  )

  -- Masking or unmasking the messages of a request or a response is a run over their texts in their
  -- order, one masker passed on from text to text; nothing else of the messages is a text.
  pub rewrite_messages_lem :
      (m : PiiMasker Regex) (msgs : List ChatMessage)
      → texts_after (rewrite_messages f m msgs) ≡ run_texts m (texts_of msgs)
  unfolding rewrite_messages
  rewrite_messages_lem m [] = refl
  rewrite_messages_lem m (msg ∷ msgs) =
      message_step m msg msg.content (texts_of msgs) (λ m'. rewrite_messages f m' msgs) refl
        (λ m'. rewrite_messages_lem m' msgs)
