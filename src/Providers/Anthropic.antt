-- ===== src/Providers/Anthropic.antt =====
-- crates/godwit-providers/src/anthropic.rs: a chat request and an answer in the dialect of Anthropic,
-- and its stream of events as the canonical one. Sending them is left out.
pub mod Request
pub mod Stream
