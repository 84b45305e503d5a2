-- ===== src/Providers.antt =====
-- The providers crate: crates/godwit-providers/src.
pub mod Adapter
pub mod PromptCache
pub mod Wire
pub mod Streaming
pub mod SseEgress
pub mod SseLines
pub mod Usage
pub mod Anthropic
