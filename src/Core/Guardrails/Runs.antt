-- ===== src/Core/Guardrails/Runs.antt =====
-- Runs of the masker over several texts: what it remembers, and what it restores.
use mathlib.Core.Option.{some-injective}
use godwit.Base.{
  ℕ, Bool, String, string_key, Option, none, some, List, [], ◌∷◌, ◌++◌, ◌≡◌, refl, sym, ap, ◌∙◌,
  ==-refl,
}
use godwit.Base.Dict
use godwit.Base.Dict.{get-insert, get-remove}
use godwit.Core.Chat.{ChatMessage}
use godwit.Base.Maybe.{◌>>=◌, >>=-eq-some}
use godwit.Core.PiiMasking.{
  Text, Replacement, PiiMasker, mask, mask_patterns, unmask, unmask_found, unmask_loop,
}
use godwit.Core.Guardrails.{rewrite_messages}
use godwit.Core.Guardrails.Contents.{texts_of, run_texts, texts_after, rewrite_messages_lem}

module _ {Regex : Type 0} (f : PiiMasker Regex → Text → Option (PiiMasker Regex × Text)) where
  -- The last of the texts ends the run.
  run_texts-last :
      (m : PiiMasker Regex) (ts : List Text) (t : Text) {m' : PiiMasker Regex} {us : List Text}
      → run_texts f m (ts ++ (t ∷ [])) ≡ some (m', us)
      → (m1 : PiiMasker Regex) × (ts' : List Text) × (t' : Text) × (run_texts f m ts
          ≡ some (m1, ts'))
        × (f m1 t ≡ some (m', t'))
  run_texts-last m [] t h =
      let ((m1, t'), e, h') = >>=-eq-some (f m t) _ h in
      (
        m,
        [],
        t',
        refl,
        e ∙ ap (λ (p : PiiMasker Regex × List Text). some (p.0, t')) (some-injective _ _ h'),
      )
  run_texts-last m (s ∷ ts) t h =
      let ((m1, s'), e, h1) = >>=-eq-some (f m s) _ h in
      let ((m2, us), e2, h2) = >>=-eq-some (run_texts f m1 (ts ++ (t ∷ []))) _ h1 in
      let (m3, ts', t', e3, h3) = run_texts-last m1 ts t e2 in
      (
        m3,
        s' ∷ ts',
        t',
        rw (e, e3),
        h3 ∙ ap (λ (p : PiiMasker Regex × List Text). some (p.0, t')) (some-injective _ _ h2),
      )

module _ (checked : Bool) {Regex : Type 0} (find_iter : Regex → Text → List (ℕ × ℕ))
    (request_id : String) where
  abbrev pub mask_it : PiiMasker Regex → Text → Option (PiiMasker Regex × Text)
  mask_it m t = mask checked find_iter m t request_id

  abbrev pub unmask_it : PiiMasker Regex → Text → Option (PiiMasker Regex × Text)
  unmask_it m t = unmask m t request_id

  -- The masker remembers for the request what it replaced in the text.
  abbrev pub Remembers : PiiMasker Regex → PiiMasker Regex → Text → Type 0
  Remembers m m' t =
      (r : Text × List Replacement) × (mask_patterns checked find_iter t [] m.patterns ≡ some r)
      × (Dict.get request_id m'.mask_map ≡ some r.1)

  mask-Remembers :
      (m : PiiMasker Regex) (t : Text) {m' : PiiMasker Regex} {t' : Text}
      → mask_it m t ≡ some (m', t')
      → Remembers m m' t × (m'.patterns ≡ m.patterns)
  unfolding mask
  mask-Remembers m t {m'} h =
      let ((masked, reps), e, h') =
        >>=-eq-some (mask_patterns checked find_iter t [] m.patterns) _ h in
      let same = some-injective _ _ h' in
      (
        (
          (masked, reps),
          e,
          ap (λ p. Dict.get request_id p.0.mask_map) (sym same)
              ∙ get-insert request_id request_id reps m.mask_map
              ∙ (rw (==-refl request_id)),
        ),
        ap (λ p. p.0.patterns) (sym same),
      )

  run_texts-patterns :
      (m : PiiMasker Regex) (ts : List Text) {m' : PiiMasker Regex} {us : List Text}
      → run_texts mask_it m ts ≡ some (m', us)
      → m'.patterns ≡ m.patterns
  run_texts-patterns m [] h = ap (λ p. p.0.patterns) (sym (some-injective _ _ h))
  run_texts-patterns m (t ∷ ts) h =
      let ((m1, t1), e, h1) = >>=-eq-some (mask_it m t) _ h in
      let ((m2, us), e2, h2) = >>=-eq-some (run_texts mask_it m1 ts) _ h1 in
      ap (λ p. p.0.patterns) (sym (some-injective _ _ h2))
      ∙ run_texts-patterns m1 ts e2
      ∙ (mask-Remembers m t e).1

  -- After all texts are masked, only what was replaced in the last one is known.
  pub masked_messages-Remembers :
      (m : PiiMasker Regex) (msgs : List ChatMessage) (ts : List Text) (t : Text)
      {m' : PiiMasker Regex} {msgs' : List ChatMessage}
      → texts_of msgs ≡ ts ++ (t ∷ [])
      → rewrite_messages mask_it m msgs ≡ some (m', msgs')
      → Remembers m m' t
  masked_messages-Remembers m msgs ts t {m'} {msgs'} et h =
      let run : run_texts mask_it m (ts ++ (t ∷ [])) ≡ some (m', texts_of msgs') =
        ap (run_texts mask_it m) (sym et)
        ∙ sym (rewrite_messages_lem mask_it m msgs)
        ∙ ap (texts_after mask_it) h in
      let (m1, ts', t', e1, e2) = run_texts-last mask_it m ts t run in
      let (r, er, kept) = (mask-Remembers m1 t e2).0 in
      (
        r,
        ap (λ ps. mask_patterns checked find_iter t [] ps) (sym (run_texts-patterns m ts e1)) ∙ er,
        kept,
      )

  found-forgets :
      (m : PiiMasker Regex) (t : Text) (o : Option (List Replacement)) {m' : PiiMasker Regex}
      {t' : Text}
      → Dict.get request_id m.mask_map ≡ o
      → unmask_found m t request_id o ≡ some (m', t')
      → Dict.get request_id m'.mask_map ≡ none
  found-forgets m t none e h =
      ap (λ p. Dict.get request_id p.0.mask_map) (sym (some-injective _ _ h)) ∙ e
  found-forgets m t (some reps) e h =
      let (t1, _, h') = >>=-eq-some (unmask_loop t 0 reps) _ h in
      ap (λ p. Dict.get request_id p.0.mask_map) (sym (some-injective _ _ h'))
      ∙ get-remove request_id request_id m.mask_map
      ∙ (rw (==-refl request_id))

  unmask-forgets :
      (m : PiiMasker Regex) (t : Text) {m' : PiiMasker Regex} {t' : Text}
      → unmask_it m t ≡ some (m', t')
      → Dict.get request_id m'.mask_map ≡ none
  unfolding unmask
  unmask-forgets m t h = found-forgets m t (Dict.get request_id m.mask_map) refl h

  run_unmask-unknown :
      (m : PiiMasker Regex) (ts : List Text)
      → Dict.get request_id m.mask_map ≡ none
      → run_texts unmask_it m ts ≡ some (m, ts)
  unfolding unmask
  run_unmask-unknown m [] h = refl
  run_unmask-unknown m (t ∷ ts) h = rw (h, run_unmask-unknown m ts h)

  pub run_unmask-cons :
      (m : PiiMasker Regex) (t : Text) (ts : List Text) {m' : PiiMasker Regex} {us : List Text}
      → run_texts unmask_it m (t ∷ ts) ≡ some (m', us)
      → (t' : Text) × (us ≡ t' ∷ ts)
  run_unmask-cons m t ts h =
      let ((m1, t1), e, h1) = >>=-eq-some (unmask_it m t) _ h in
      let rest = run_unmask-unknown m1 ts (unmask-forgets m t e) in
      let h2 =
        ap (λ o. o >>= λ (p : PiiMasker Regex × List Text). some (p.0, t1 ∷ p.1)) (sym rest) ∙ h1 in
      (t1, ap (λ p. p.1) (sym (some-injective _ _ h2)))
