-- ===== src/Api.antt =====
-- The handlers of the API crate beside its limits and its resilience: crates/godwit-api/src.
pub mod AgenticLoop
pub mod Middleware
pub mod Responses
pub mod Budget
pub mod BatchParser
pub mod ToolCalls
pub mod BatchProcessor
pub mod ModelRouter
