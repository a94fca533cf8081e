-- ===== src/Agents.antt =====
-- The agents: the data that passes between them (src/agents/types.ts) and the orchestrator that
-- hands work to them (src/agents/expert.ts).
pub mod Types
pub mod Handoffs
pub mod Dangerous
pub mod Quality
