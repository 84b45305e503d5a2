-- ===== src/Providers/Anthropic/Request/Tests.antt =====
-- A request with a picture.
use godwit.Base.{ℕ, true, none, some, [], ◌∷◌, map, ◌≡◌, refl}
use godwit.Core.Chat.{part_text, image_url, text, parts, ChatMessage, as_text, content_as_text}
use godwit.Providers.Anthropic.Request.{
  bytes, ChatRequest, one, from_chat_request, parse_image_url, starts_with, split_commas, contains,
  sort_messages, from_chat_message,
}
use godwit.Providers.Anthropic.Request.Pictures.{jpeg, data_url}
use godwit.Providers.Anthropic.Request.Texts.{heard, said, shown}

abbrev system : ChatMessage
system = record { role = "system"; content = some (text (bytes "brief") ∷ []) }

abbrev question : ChatMessage
question = record {
  role = "user";
  content =
      some (parts (part_text (bytes "what?") ∷ image_url (data_url jpeg (bytes "AAAA")) ∷ []) ∷ []);
}

abbrev request : ChatRequest ℕ ℕ
request = record {
  messages = (system, none) ∷ (question, some "ephemeral") ∷ [];
  stream = some true;
  temperature = none;
  max_tokens = none;
  top_p = none;
  top_k = none;
  repetition_penalty = none;
  stop = some (one "END");
  response_format = none;
}

told :
    map heard (from_chat_request request "claude").messages
    ≡ (("user", said (bytes "what?") ∷ shown (bytes "image/jpeg", bytes "AAAA") ∷ []) ∷ [])
unfolding from_chat_request sort_messages from_chat_message parse_image_url starts_with split_commas
    contains as_text content_as_text
told = refl

-- The address of a picture elsewhere is sent as if it were the data.
elsewhere : parse_image_url (bytes "https://a/b") ≡ (bytes "image/png", bytes "https://a/b")
unfolding parse_image_url starts_with
elsewhere = refl
