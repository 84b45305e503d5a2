-- ===== src/Core/Guardrails/Pictures.antt =====
-- What masking and unmasking do to pictures.
use mathlib.Core.Option.{some-injective}
use mathlib.Core.Path.{subst}
use godwit.Base.{
  false, string_key, Option, none, some, List, [], ◌∷◌, All, ◌≡◌, ◌⊎◌, inl, inr, refl, sym, ap, ◌∙◌,
}
use godwit.Core.Chat.{ChatContent, as_text, has_images}
use godwit.Base.Maybe.{>>=-eq-some}
use godwit.Core.PiiMasking.{Text, PiiMasker}
use godwit.Core.Guardrails.{rewrite_content, rewrite_contents}

-- A content without a picture, or without a text.
abbrev pub OneKind : ChatContent → Type 0
OneKind c = (has_images c ≡ false) ⊎ (as_text c ≡ none)

module _ {Regex : Type 0} (f : PiiMasker Regex → Text → Option (PiiMasker Regex × Text)) where
  content-OneKind :
      (m : PiiMasker Regex) (c : ChatContent) (o : Option Text) {m' : PiiMasker Regex}
      {c' : ChatContent}
      → as_text c ≡ o
      → rewrite_content f m c o ≡ some (m', c')
      → OneKind c'
  content-OneKind m c none e h = inr (ap (λ p. as_text p.1) (sym (some-injective _ _ h)) ∙ e)
  content-OneKind m c (some t) e h =
      let ((m1, t1), _, h1) = >>=-eq-some (f m t) _ h in
      unfold has_images in inl (ap (λ p. has_images p.1) (sym (some-injective _ _ h1)))

  -- Masking or unmasking leaves no content that has both a text and a picture: one that had both has
  -- lost its pictures.
  pub rewrite_contents-OneKind :
      (m : PiiMasker Regex) (cs : List ChatContent) {m' : PiiMasker Regex} {cs' : List ChatContent}
      → rewrite_contents f m cs ≡ some (m', cs')
      → All OneKind cs'
  unfolding rewrite_contents
  rewrite_contents-OneKind m [] {cs' = cs'} h =
      subst (λ l. All OneKind l) (ap (λ p. p.1) (some-injective _ _ h)) tt
  rewrite_contents-OneKind m (c ∷ cs) h =
      let ((m1, c1), e1, h1) = >>=-eq-some (rewrite_content f m c (as_text c)) _ h in
      let ((m2, cs2), e2, h2) = >>=-eq-some (rewrite_contents f m1 cs) _ h1 in
      subst (λ l. All OneKind l) (ap (λ p. p.1) (some-injective _ _ h2))
        (content-OneKind m c (as_text c) refl e1, rewrite_contents-OneKind m1 cs e2)
