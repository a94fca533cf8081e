-- ===== src/Examples/Skills.antt =====
-- The theorems on skills at concrete inputs (src/skills), for texts that are normalized already.
use agent_p.Common.{◌≤◌, ◌≡◌, ◌↔◌, ◌⊎◌, String, none, some, Bool, true, [], ◌∷◌, All, length}
use agent_p.Skills.Types.{
  SkillPriority, SkillActivation, ContextLoad, SkillDefinition, SkillManifest,
}
use agent_p.Skills.Validator.{validate_skill_manifest}
use agent_p.Skills.Validator.Soundness.{SkillIsProper, Distinct, ids, validate_skill_manifest_iff}
use agent_p.Skills.Activation.{SuggestSkillsRequest, suggest_skills}
use agent_p.Skills.Activation.Suggested.{IsSuggested, BestFirst, suggest_skills-IsSuggested}

abbrev as_is : String → String
as_is s = s

abbrev testing : SkillDefinition
testing = record {
  id = "testing";
  name = "Testing";
  description = "Writes tests";
  domains = "quality" ∷ [];
  triggers = "test" ∷ "*.test.ts" ∷ [];
  activation = SkillActivation.auto;
  priority = SkillPriority.high;
  context_load = ContextLoad.minimal;
  allowed_agents = some ("tester" ∷ []);
}

abbrev manifest : SkillManifest
manifest = record { version = "1"; skills = testing ∷ [] }

validate_skill_manifest_iff_example :
    ((validate_skill_manifest as_is manifest).valid ≡ true)
    ↔ (All (SkillIsProper as_is) (testing ∷ []) × Distinct (ids as_is (testing ∷ [])))
validate_skill_manifest_iff_example = validate_skill_manifest_iff as_is manifest

abbrev asked : SuggestSkillsRequest
asked = record {
  query = "add a test";
  domains = none;
  file_paths = none;
  include_manual = none;
  limit = some 3;
  agent_id = some "tester";
}

abbrev in_order : String → String → Bool
in_order a b = true

suggest_skills-IsSuggested_example :
    All
      (IsSuggested as_is as_is as_is (testing ∷ []) asked)
      (suggest_skills as_is as_is as_is in_order (testing ∷ []) asked)
    × BestFirst (suggest_skills as_is as_is as_is in_order (testing ∷ []) asked)
    × ((length (suggest_skills as_is as_is as_is in_order (testing ∷ []) asked) ≤ 3)
        ⊎ (length (suggest_skills as_is as_is as_is in_order (testing ∷ []) asked) ≤ 1))
suggest_skills-IsSuggested_example =
    suggest_skills-IsSuggested as_is as_is as_is in_order (testing ∷ []) asked
