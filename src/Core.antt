-- ===== src/Core.antt =====
-- crates/godwit-core/src: the errors of lib.rs, interfaces for JSON values and HTTP responses, the
-- guardrails with their masking of personal data, and the alerts on budgets.
pub mod Error
pub mod Json
pub mod Capability
pub mod PiiMasking
pub mod Chat
pub mod Guardrails
pub mod Alerting
