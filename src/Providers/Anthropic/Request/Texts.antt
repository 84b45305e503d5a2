-- ===== src/Providers/Anthropic/Request/Texts.antt =====
-- What of a conversation reaches Anthropic.
use godwit.Base.{
  String, Option, none, some, List, [], ◌∷◌, ◌++◌, map, ◌==◌, string_key, if◌then◌else◌, ◌≡◌, refl,
  ap, Bool-cases, inl, inr, ◌∙◌,
}
use godwit.Core.PiiMasking.{Text}
use godwit.Core.Chat.{
  ChatContentPart, part_text, image_url, ChatContent, text, parts, ChatMessage, content_as_text,
}
use godwit.Providers.Anthropic.Request.{
  AnthropicContentBlock, text_block, image_block, AnthropicMessage, parse_image_url, block_of,
  blocks_of, from_chat_message, ChatRequest, sort_messages, with_system, from_chat_request, joined,
  contents,
}

-- A piece of a message: a text, or a picture by its media type and data.
pub data Piece : Type 0 where
  said : Text → Piece
  shown : Text × Text → Piece

abbrev pub piece_of_part : ChatContentPart → Piece
piece_of_part (part_text t) = said t
piece_of_part (image_url url) = shown (parse_image_url url)

abbrev pub pieces_of : List ChatContent → List Piece
pieces_of [] = []
pieces_of (text t ∷ cs) = said t ∷ pieces_of cs
pieces_of (parts ps ∷ cs) = map piece_of_part ps ++ pieces_of cs

abbrev pub pieces_of_message : ChatMessage → List Piece
pieces_of_message msg = pieces_of (contents msg.content)

abbrev pub piece_of_block : AnthropicContentBlock → Piece
piece_of_block (text_block t cache) = said t
piece_of_block (image_block media_type base64 cache) = shown (media_type, base64)

-- The roles and pieces of the messages that are not for the system.
abbrev pub spoken : List (ChatMessage × Option String) → List (String × List Piece)
spoken [] = []
spoken ((msg, cache) ∷ msgs) =
    let rest = spoken msgs in
    if msg.role == "system" then rest else (msg.role, pieces_of_message msg) ∷ rest

abbrev onto : Option Text → List Text → List Text
onto none ts = ts
onto (some t) ts = t ∷ ts

-- The texts of those that are.
abbrev pub instructions : List (ChatMessage × Option String) → List Text
instructions [] = []
instructions ((msg, cache) ∷ msgs) =
    let rest = instructions msgs in
    if msg.role == "system" then onto (content_as_text msg) rest else rest

pieces_of_parts :
    (cache : Option String) (ps : List ChatContentPart)
    → map piece_of_block (map (block_of cache) ps) ≡ map piece_of_part ps
pieces_of_parts cache [] = refl
pieces_of_parts cache (part_text t ∷ ps) = ap (λ l. said t ∷ l) (pieces_of_parts cache ps)
pieces_of_parts cache (image_url u ∷ ps) =
    ap (λ l. shown (parse_image_url u) ∷ l) (pieces_of_parts cache ps)

map-append : {A B : Type 0} (f : A → B) (xs ys : List A) → map f (xs ++ ys) ≡ map f xs ++ map f ys
map-append f [] ys = refl
map-append f (x ∷ xs) ys = ap (λ l. f x ∷ l) (map-append f xs ys)

pieces_of_blocks :
    (cache : Option String) (cs : List ChatContent)
    → map piece_of_block (blocks_of cache cs) ≡ pieces_of cs
pieces_of_blocks cache [] = refl
pieces_of_blocks cache (text t ∷ cs) = ap (λ l. said t ∷ l) (pieces_of_blocks cache cs)
pieces_of_blocks cache (parts ps ∷ cs) =
    map-append piece_of_block (map (block_of cache) ps) (blocks_of cache cs)
    ∙ rw (pieces_of_parts cache ps, pieces_of_blocks cache cs)

abbrev pub heard : AnthropicMessage → String × List Piece
heard m = (m.role, map piece_of_block m.content)

heard-from_chat_message :
    (msg : ChatMessage) (cache : Option String)
    → heard (from_chat_message msg cache) ≡ (msg.role, pieces_of_message msg)
unfolding from_chat_message
heard-from_chat_message msg cache =
    ap (λ l. (msg.role, l)) (pieces_of_blocks cache (contents msg.content))

with_system-both :
    (o : Option Text) (p : List Text × List AnthropicMessage)
    → ((with_system o p).0 ≡ onto o p.0) × ((with_system o p).1 ≡ p.1)
with_system-both none p = (refl, refl)
with_system-both (some t) p = (refl, refl)

sort_messages-messages :
    (msgs : List (ChatMessage × Option String)) → map heard (sort_messages msgs).1 ≡ spoken msgs
unfolding sort_messages
sort_messages-messages [] = refl
sort_messages-messages ((msg, cache) ∷ msgs) = elim (Bool-cases (msg.role == "system")) [
  | inl system ↦
      rw (system, (with_system-both (content_as_text msg) (sort_messages msgs)).1)
        (sort_messages-messages msgs)
  | inr other ↦ rw (other, heard-from_chat_message msg cache, sort_messages-messages msgs)
]

sort_messages-texts :
    (msgs : List (ChatMessage × Option String)) → (sort_messages msgs).0 ≡ instructions msgs
unfolding sort_messages
sort_messages-texts [] = refl
sort_messages-texts ((msg, cache) ∷ msgs) = elim (Bool-cases (msg.role == "system")) [
  | inl system ↦ rw (
    system,
    (with_system-both (content_as_text msg) (sort_messages msgs)).0,
    sort_messages-texts msgs,
  )
  | inr other ↦ rw other (sort_messages-texts msgs)
]

-- Anthropic is told the texts and pictures of every message that is not for the system, in their order
-- and with its role; and the texts of those for the system are joined, if there are any.
pub conversation_kept :
    {J F : Type 0} (request : ChatRequest J F) (model_id : String)
    → (map heard (from_chat_request request model_id).messages ≡ spoken request.messages)
      × ((from_chat_request request model_id).system ≡ joined (instructions request.messages))
unfolding from_chat_request
conversation_kept request model_id =
    (sort_messages-messages request.messages, ap joined (sort_messages-texts request.messages))
