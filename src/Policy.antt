-- ===== src/Policy.antt =====
-- internal/policy/policy.go: performance policies and the verdicts of a report against one.
pub mod Document
pub mod Verdicts
pub mod Coverage
pub mod Judged
pub mod References
pub mod Resolved
pub mod Approval
