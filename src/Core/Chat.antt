-- ===== src/Core/Chat.antt =====
-- The contents of messages, of crates/godwit-core/src/lib.rs, as far as the guardrails read and write
-- them. Texts are bytes, as in the masker. Of a request and of a response, only the model, the
-- messages and their contents are kept, and of a picture its address: the guardrails touch nothing
-- else.
use godwit.Base.{Bool, true, false, String, Option, none, some, List, [], ◌∷◌, ◌++◌}
use godwit.Core.PiiMasking.{Text}

pub data ChatContentPart : Type 0 where
  part_text image_url : Text → ChatContentPart

pub data ChatContent : Type 0 where
  text : Text → ChatContent
  parts : List ChatContentPart → ChatContent

pub record ChatMessage : Type 0 where
  pub role : String
  pub content : Option (List ChatContent)

pub record ChatCompletionRequest : Type 0 where
  pub model : String
  pub messages : List ChatMessage

-- Of a choice, its message.
pub record ChatCompletionResponse : Type 0 where
  pub model : String
  pub choices : List ChatMessage

-- The texts among the parts.
abbrev pub part_texts : List ChatContentPart → List Text
part_texts [] = []
part_texts (part_text t ∷ ps) = t ∷ part_texts ps
part_texts (image_url u ∷ ps) = part_texts ps

-- `join`
abbrev pub join : Text → List Text → Text
join sep [] = []
join sep (t ∷ []) = t
join sep (t ∷ u ∷ ts) = t ++ (sep ++ join sep (u ∷ ts))

abbrev pub some_texts : List Text → Option Text
some_texts [] = none
some_texts (t ∷ ts) = some (join [] (t ∷ ts))

unfoldable pub as_text : ChatContent → Option Text
as_text (text t) = some t
as_text (parts ps) = some_texts (part_texts ps)

abbrev any_image : List ChatContentPart → Bool
any_image [] = false
any_image (part_text t ∷ ps) = any_image ps
any_image (image_url u ∷ ps) = true

unfoldable pub has_images : ChatContent → Bool
has_images (text t) = false
has_images (parts ps) = any_image ps

-- `filter_map`
abbrev pub filter_map : {A B : Type 0} → (A → Option B) → List A → List B
filter_map f [] = []
filter_map f (x ∷ xs) = let rest = filter_map f xs in elim (f x) [ none ↦ rest | some y ↦ y ∷ rest ]

abbrev non_empty : Text → Option Text
non_empty [] = none
non_empty (b ∷ t) = some (b ∷ t)

abbrev contents_text : Option (List ChatContent) → Option Text
contents_text none = none
contents_text (some cs) = non_empty (join [] (filter_map as_text cs))

unfoldable pub content_as_text : ChatMessage → Option Text
content_as_text m = contents_text m.content
