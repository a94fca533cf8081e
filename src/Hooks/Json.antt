-- ===== src/Hooks/Json.antt =====
-- JSON values, as the audit log walks them (src/hooks/audit.ts).
use agent_p.Common.{String}

mutual
  -- A number, a Boolean or null is given by its JSON text.
  pub data Json : Type 0 where
    plain : String → Json
    text : String → Json
    array : Elements → Json
    object : Members → Json

  pub data Elements : Type 0 where
    no_element : Elements
    element : Json → Elements → Elements

  -- The keys of an object with their values, all different.
  pub data Members : Type 0 where
    no_member : Members
    member : String → Json → Members → Members
