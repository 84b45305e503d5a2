-- ===== src/Core/Capability.antt =====
-- `Capability` of crates/godwit-core/src/lib.rs.
use godwit.Base.{String, string_key, ◌==◌, Result, ok, err, ◌<>◌, if◌then◌else◌, ◌≡◌, refl}

pub data Capability : Type 0 where
  chat image_generation image_edit video_generation audio_tts audio_stt embedding : Capability

unfoldable pub as_str : Capability → String
as_str chat = "chat"
as_str image_generation = "image_generation"
as_str image_edit = "image_edit"
as_str video_generation = "video_generation"
as_str audio_tts = "audio_tts"
as_str audio_stt = "audio_stt"
as_str embedding = "embedding"

pub from_str : String → Result String Capability
from_str s =
    if s == "chat"
    then ok chat
    else if s == "image_generation"
    then ok image_generation
    else if s == "image_edit"
    then ok image_edit
    else if s == "video_generation"
    then ok video_generation
    else if s == "audio_tts"
    then ok audio_tts
    else if s == "audio_stt"
    then ok audio_stt
    else if s == "embedding"
    then ok embedding
    else err ("unknown capability: " <> s)

from_str-as_str : (c : Capability) → from_str (as_str c) ≡ ok c
unfolding from_str as_str
from_str-as_str chat = refl
from_str-as_str image_generation = refl
from_str-as_str image_edit = refl
from_str-as_str video_generation = refl
from_str-as_str audio_tts = refl
from_str-as_str audio_stt = refl
from_str-as_str embedding = refl
