-- ===== src/Skills.antt =====
-- The skills (src/skills): their definitions, the check of a manifest and the registry.
pub mod Types
pub mod Validator
pub mod Registry
pub mod Matching
pub mod Activation
