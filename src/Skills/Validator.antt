-- ===== src/Skills/Validator.antt =====
-- `validateSkillManifest` (src/skills/validator.ts). Trimming and lower-casing, `normalize`, is a
-- parameter.
pub mod Soundness
use Prim.Native.Char.{Char, code}
use Prim.Native.String.{◌++◌ as str_append}
use agent_p.Common.{
  ℕ, ◌+◌, String, Option, none, some, Bool, true, false, ◌||◌, List, [], ◌∷◌, ◌++◌, includes, ltb,
  nat_eqb, or_else, string_eq, if◌then◌else◌,
}
use agent_p.Skills.Types.{SkillDefinition, SkillManifest}

pub data IssueCode : Type 0 where
  duplicate_id : IssueCode
  invalid_trigger : IssueCode
  duplicate_trigger : IssueCode
  duplicate_allowed_agent : IssueCode
  invalid_allowed_agent : IssueCode

pub record SkillValidationIssue : Type 0 where
  pub code : IssueCode
  pub message : String
  pub skill_id : Option String
  pub trigger : Option String

pub record ValidationResult : Type 0 where
  pub valid : Bool
  pub errors : List SkillValidationIssue

unfoldable pub has_control_characters : String → Bool
has_control_characters String.[] = false
has_control_characters (String.◌∷◌ c s) =
    ltb (Prim.Native.Char.code c) 32 || has_control_characters s

-- `value.length`, in UTF-16 code units.
unfoldable pub utf16_length : String → ℕ
utf16_length String.[] = 0
utf16_length (String.◌∷◌ c s) =
    (if ltb (Prim.Native.Char.code c) 0x10000 then 1 else 2) + utf16_length s

-- The test on a normalized trigger or agent, with the greatest length.
unfoldable pub is_invalid : ℕ → String → Bool
unfolding utf16_length has_control_characters
is_invalid max value =
    nat_eqb (utf16_length value) 0 || ltb max (utf16_length value) || has_control_characters value

-- `set.add(value)` in the branch where the value is new.
unfoldable pub remember : List String → String → List String
unfolding includes
remember seen value = if includes seen value then seen else value ∷ seen

issue : IssueCode → String → SkillDefinition → Option String → List SkillValidationIssue
issue what message skill t =
    record { code = what; message = message; skill_id = some skill.id; trigger = t } ∷ []

issue_if : Bool → List SkillValidationIssue → List SkillValidationIssue
issue_if b i = if b then i else []

about : String → String → String → SkillDefinition → String
about start value rest skill = str_append start (str_append value (str_append rest skill.id))

module _ (normalize : String → String) where
  trigger_errors : SkillDefinition → List String → List String → List SkillValidationIssue
  unfolding issue issue_if about remember includes is_invalid
  trigger_errors skill seen [] = []
  trigger_errors skill seen (t ∷ ts) =
      issue_if (includes seen (normalize t)) (
        issue IssueCode.duplicate_trigger (about "Duplicate trigger '" t "' in skill " skill) skill
          (some t))
      ++ (issue_if (is_invalid 120 (normalize t)) (
            issue IssueCode.invalid_trigger (about "Invalid trigger '" t "' in skill " skill) skill
              (some t))
          ++ trigger_errors skill (remember seen (normalize t)) ts)

  agent_errors : SkillDefinition → List String → List String → List SkillValidationIssue
  unfolding issue issue_if about remember includes is_invalid
  agent_errors skill seen [] = []
  agent_errors skill seen (a ∷ as_) =
      issue_if (includes seen (normalize a)) (
        issue IssueCode.duplicate_allowed_agent
          (about "Duplicate allowed agent '" a "' in skill " skill) skill none)
      ++ (issue_if (is_invalid 64 (normalize a)) (
            issue IssueCode.invalid_allowed_agent
              (about "Invalid allowed agent '" a "' in skill " skill) skill none)
          ++ agent_errors skill (remember seen (normalize a)) as_)

  skill_errors : List String → List SkillDefinition → List SkillValidationIssue
  unfolding trigger_errors agent_errors issue issue_if remember includes
  skill_errors seen [] = []
  skill_errors seen (s ∷ ss) =
      issue_if (includes seen (normalize s.id))
        (issue IssueCode.duplicate_id (str_append "Duplicate skill id: " s.id) s none)
      ++ (trigger_errors s [] s.triggers
          ++ (agent_errors s [] (or_else s.allowed_agents [])
              ++ skill_errors (remember seen (normalize s.id)) ss))

  no_errors : List SkillValidationIssue → Bool
  no_errors [] = true
  no_errors (e ∷ es) = false

  unfoldable pub validate_skill_manifest : SkillManifest → ValidationResult
  unfolding skill_errors no_errors
  validate_skill_manifest manifest =
      let errors = skill_errors [] manifest.skills in
      record { valid = no_errors errors; errors = errors }
