-- ===== src/Skills/Registry.antt =====
-- `SkillRegistry` (src/skills/registry.ts): the skills by id, in the order in which they came.
pub mod Entries
use Prim.Native.String.{◌++◌ as str_append}
use agent_p.Common.{
  String, Option, Bool, List, [], ◌∷◌, ◌++◌, Result, ok, err, any, find, keep_if, includes, ◌==◌,
  string_eq, if◌then◌else◌,
}
use agent_p.Skills.Types.{SkillDefinition, SkillManifest}

has : List SkillDefinition → String → Bool
has skills id = any (λ (s : SkillDefinition). s.id == id) skills

unfoldable pub get : List SkillDefinition → String → Option SkillDefinition
unfolding find
get skills id = find (λ (s : SkillDefinition). s.id == id) skills

register : List SkillDefinition → SkillDefinition → Result (List SkillDefinition)
unfolding has
register skills skill =
    if has skills skill.id
    then err (str_append "Skill already registered: " skill.id)
    else ok (skills ++ skill ∷ [])

register_all : List SkillDefinition → List SkillDefinition → Result (List SkillDefinition)
unfolding register
register_all skills [] = ok skills
register_all skills (s ∷ ss) = elim (register skills s) [
  | ok more ↦ register_all more ss
  | err m ↦ err m
]

find_by_domain : List SkillDefinition → String → List SkillDefinition
unfolding keep_if includes
find_by_domain skills domain = keep_if (λ (s : SkillDefinition). includes s.domains domain) skills

from_manifest : SkillManifest → Result (List SkillDefinition)
unfolding register_all
from_manifest manifest = register_all [] manifest.skills
