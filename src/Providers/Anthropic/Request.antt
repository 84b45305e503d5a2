-- ===== src/Providers/Anthropic/Request.antt =====
-- `AnthropicChatRequest` and `anthropic_response_to_chat_completion` of
-- crates/godwit-providers/src/anthropic.rs. Texts are bytes, as in Core/Chat, whose messages have no
-- `cache_control`: it stands beside the message. JSON values and 32-bit floats are parameters.
pub mod Pictures
pub mod Texts
mod Tests
use Prim.Native.Char.{code}
use godwit.Base.{
  ℕ, Bool, true, false, not, ◌&&◌, ◌||◌, String, Option, none, some, List, [], ◌∷◌, ◌++◌, map,
  nat_beq, ◌==◌, string_key, if◌then◌else◌,
}
use godwit.Base.Int.{ℤ, pos, ◌+ℤ◌, wrap_i32}
use godwit.Core.PiiMasking.{Text}
use godwit.Core.Chat.{
  ChatContentPart, part_text, image_url, ChatContent, text, parts, ChatMessage, content_as_text,
  filter_map, join,
}

-- The bytes of a literal.
abbrev pub bytes : String → Text
bytes String.[] = []
bytes (String.◌∷◌ c s) = code c ∷ bytes s

pub data AnthropicContentBlock : Type 0 where
  text_block : Text → Option String → AnthropicContentBlock
  -- media type and data; the source is always "base64"
  image_block : Text → Text → Option String → AnthropicContentBlock

pub record AnthropicMessage : Type 0 where
  pub role : String
  pub content : List AnthropicContentBlock

pub starts_with : Text → Text → Bool
starts_with t [] = true
starts_with [] (c ∷ p) = false
starts_with (d ∷ t) (c ∷ p) = nat_beq d c && starts_with t p

pub contains : Text → Text → Bool
unfolding starts_with
contains [] p = starts_with [] p
contains (c ∷ t) p = starts_with (c ∷ t) p || contains t p

abbrev pub onto_first : ℕ → List Text → List Text
onto_first c [] = (c ∷ []) ∷ []
onto_first c (t ∷ ts) = (c ∷ t) ∷ ts

-- `split(',')`
pub split_commas : Text → List Text
split_commas [] = [] ∷ []
split_commas (c ∷ t) =
    let rest = split_commas t in if nat_beq c 44 then [] ∷ rest else onto_first c rest

abbrev pub media_type_of : Text → Text
media_type_of header =
    if contains header (bytes "image/png")
    then bytes "image/png"
    else if contains header (bytes "image/jpeg") || contains header (bytes "image/jpg")
    then bytes "image/jpeg"
    else if contains header (bytes "image/gif")
    then bytes "image/gif"
    else if contains header (bytes "image/webp")
    then bytes "image/webp"
    else bytes "image/png"

abbrev pub header_and_data : Text → List Text → Text × Text
header_and_data url (header ∷ data_part ∷ []) = (media_type_of header, data_part)
header_and_data url _ = (bytes "image/png", url)

pub parse_image_url : Text → Text × Text
unfolding starts_with contains split_commas
parse_image_url url =
    if starts_with url (bytes "data:")
    then header_and_data url (split_commas url)
    else (bytes "image/png", url)

abbrev pub block_of : Option String → ChatContentPart → AnthropicContentBlock
block_of cache (part_text t) = text_block t cache
block_of cache (image_url url) =
    let (media_type, base64) = parse_image_url url in image_block media_type base64 cache

abbrev pub blocks_of : Option String → List ChatContent → List AnthropicContentBlock
blocks_of cache [] = []
blocks_of cache (text t ∷ cs) = text_block t cache ∷ blocks_of cache cs
blocks_of cache (parts ps ∷ cs) = map (block_of cache) ps ++ blocks_of cache cs

abbrev pub contents : Option (List ChatContent) → List ChatContent
contents none = []
contents (some cs) = cs

pub from_chat_message : ChatMessage → Option String → AnthropicMessage
unfolding parse_image_url
from_chat_message msg cache = record {
  role = msg.role;
  content = blocks_of cache (contents msg.content);
}

pub data ResponseFormat (J : Type 0) : Type 0 where
  text_format json_object : ResponseFormat J
  json_schema : String → Option J → ResponseFormat J

pub data Stop : Type 0 where
  one : String → Stop
  array : List String → Stop

-- What a request has beside its messages, each with its `cache_control`.
pub record ChatRequest (J F : Type 0) : Type 0 where
  pub messages : List (ChatMessage × Option String)
  pub stream : Option Bool
  pub temperature : Option F
  pub max_tokens : Option ℤ
  pub top_p : Option F
  pub top_k : Option ℤ
  pub repetition_penalty : Option F
  pub stop : Option Stop
  pub response_format : Option (ResponseFormat J)

-- A tool, with the name of its schema the same as its own.
pub record AnthropicTool (J : Type 0) : Type 0 where
  pub name : String
  pub description : Option String
  pub schema : Option J

-- Of `tool_choice`, the name of the tool: the other choices are never made.
pub record AnthropicChatRequest (J F : Type 0) : Type 0 where
  pub model : String
  pub max_tokens : ℤ
  pub temperature : Option F
  pub system : Option Text
  pub messages : List AnthropicMessage
  pub stream : Bool
  pub stop_sequences : Option (List String)
  pub top_p : Option F
  pub top_k : Option ℤ
  pub repetition_penalty : Option F
  pub tools : Option (List (AnthropicTool J))
  pub tool_choice : Option String

-- The loop over the messages: the texts for the system, and the other messages.
abbrev pub with_system :
    Option Text → List Text × List AnthropicMessage → List Text × List AnthropicMessage
with_system none (texts, ms) = (texts, ms)
with_system (some t) (texts, ms) = (t ∷ texts, ms)

pub sort_messages : List (ChatMessage × Option String) → List Text × List AnthropicMessage
unfolding from_chat_message content_as_text
sort_messages [] = ([], [])
sort_messages ((msg, cache) ∷ msgs) =
    let (texts, ms) = sort_messages msgs in
    if msg.role == "system"
    then with_system (content_as_text msg) (texts, ms)
    else (texts, from_chat_message msg cache ∷ ms)

abbrev pub joined : List Text → Option Text
joined [] = none
joined (t ∷ ts) = some (join (10 ∷ 10 ∷ []) (t ∷ ts))

abbrev is_true : Option Bool → Bool
is_true (some b) = b
is_true none = false

abbrev or_4096 : Option ℤ → ℤ
or_4096 none = pos 4096
or_4096 (some n) = n

abbrev sequences : Option Stop → Option (List String)
sequences none = none
sequences (some (one s)) = some (s ∷ [])
sequences (some (array ss)) = some ss

abbrev schema_tools : {J : Type 0} → Option (ResponseFormat J) → Option (List (AnthropicTool J))
schema_tools (some (json_schema n schema)) = some (
    record { name = n; description = some "Output must conform to this schema"; schema = schema }
    ∷ [])
schema_tools _ = none

abbrev schema_choice : {J : Type 0} → Option (ResponseFormat J) → Option String
schema_choice (some (json_schema n schema)) = some n
schema_choice _ = none

pub from_chat_request : {J F : Type 0} → ChatRequest J F → String → AnthropicChatRequest J F
unfolding sort_messages
from_chat_request request model_id =
    let (texts, ms) = sort_messages request.messages in
    record {
      model = model_id;
      max_tokens = or_4096 request.max_tokens;
      temperature = request.temperature;
      system = joined texts;
      messages = ms;
      stream = is_true request.stream;
      stop_sequences = sequences request.stop;
      top_p = request.top_p;
      top_k = request.top_k;
      repetition_penalty = request.repetition_penalty;
      tools = schema_tools request.response_format;
      tool_choice = schema_choice request.response_format;
    }

pub record AnthropicResponseContentBlock : Type 0 where
  pub block_type : String
  pub text : Option Text

pub record AnthropicMessageResponse : Type 0 where
  pub id : String
  pub model : String
  pub content : List AnthropicResponseContentBlock
  pub stop_reason : Option String
  pub input_tokens : ℤ
  pub output_tokens : ℤ

-- Of the completion, what is not a constant or the time; it has one choice.
pub record ChatCompletion : Type 0 where
  pub id : String
  pub model : String
  pub content : Text
  pub finish_reason : Option String
  pub prompt_tokens : ℤ
  pub completion_tokens : ℤ
  pub total_tokens : ℤ

abbrev pub text_of : AnthropicResponseContentBlock → Option Text
text_of block = if block.block_type == "text" then block.text else none

-- The sum of the tokens wraps, as in a build without overflow checks.
pub anthropic_response_to_chat_completion : AnthropicMessageResponse → ChatCompletion
anthropic_response_to_chat_completion r = record {
  id = r.id;
  model = r.model;
  content = join [] (filter_map text_of r.content);
  finish_reason = r.stop_reason;
  prompt_tokens = r.input_tokens;
  completion_tokens = r.output_tokens;
  total_tokens = wrap_i32 (r.input_tokens +ℤ r.output_tokens);
}
