-- ===== src/Skills/Types.antt =====
-- The data of skills (src/skills/schema.ts).
use agent_p.Common.{String, Option, List}

pub data SkillPriority : Type 0 where
  low : SkillPriority
  medium : SkillPriority
  high : SkillPriority

pub data SkillActivation : Type 0 where
  auto : SkillActivation
  manual : SkillActivation

pub data ContextLoad : Type 0 where
  minimal : ContextLoad
  standard : ContextLoad
  full : ContextLoad

-- `allowed_agents` is `permissions.allowedAgents`.
pub record SkillDefinition : Type 0 where
  pub id : String
  pub name : String
  pub description : String
  pub domains : List String
  pub triggers : List String
  pub activation : SkillActivation
  pub priority : SkillPriority
  pub context_load : ContextLoad
  pub allowed_agents : Option (List String)

pub record SkillManifest : Type 0 where
  pub version : String
  pub skills : List SkillDefinition
