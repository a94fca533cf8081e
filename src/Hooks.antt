-- ===== src/Hooks.antt =====
-- The hooks (src/hooks): their data, the policy engine and the audit log.
pub mod Types
pub mod Policy
pub mod Audit
pub mod Json
pub mod Calls
pub mod PreToolUse
pub mod PostToolUse
pub mod Stop
pub mod Notification
