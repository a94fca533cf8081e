-- ===== src/Skills/Registry/Entries.antt =====
-- Which skills a registry has (src/skills/registry.ts).
use mathlib.Core.List.{Memᴰ}
use agent_p.Common.{
  ◌≡◌, refl, sym, ap, ◌∙◌, String, some, false, List, [], ◌∷◌, ◌++◌, append_assoc, append-nil, ok,
  All, All-map, find, keep_if, keep_if_passes, includes, includes-mem, ◌==◌, ==_iff, Result-cases,
  string_eq, Bool-cases, inl, inr, if◌then◌else◌, arith,
}
use agent_p.Skills.Types.{SkillDefinition, SkillManifest}
use agent_p.Skills.Registry.{has, get, register, register_all, find_by_domain, from_manifest}

get-append :
    (skills : List SkillDefinition) (skill : SkillDefinition) (id : String)
    → has skills skill.id ≡ false
    → get (skills ++ skill ∷ []) id ≡ (if skill.id == id then some skill else get skills id)
unfolding get has find
get-append [] skill id h = refl
get-append (s ∷ ss) skill id h =
    let rest = get-append ss skill id (ground arith) in
    elim (Bool-cases (s.id == id)) [
      | inl e ↦ elim (Bool-cases (skill.id == id)) [
        | inl f ↦
            let first = (==_iff s.id id).0 e in
            let second = (==_iff skill.id id).0 f in
            let taken = (==_iff s.id skill.id).1 (first ∙ sym second) in ground arith
        | inr f ↦ simp (e, f) refl
      ]
      | inr e ↦ simp e rest
    ]

-- Registering a skill puts it under its id, which was free, and leaves the other ids alone.
register-get :
    (skills more : List SkillDefinition) (skill : SkillDefinition) (id : String)
    → register skills skill ≡ ok more
    → get more id ≡ (if skill.id == id then some skill else get skills id)
unfolding register
register-get skills more skill id h = elim (Bool-cases (has skills skill.id)) [
  | inl e ↦ let k = rw e at h in cc
  | inr e ↦
      let k = rw e at h in
      let same : skills ++ skill ∷ [] ≡ more = cc in rw (sym same) (get-append skills skill id e)
]

register-append :
    (skills more : List SkillDefinition) (skill : SkillDefinition)
    → register skills skill ≡ ok more
    → more ≡ skills ++ skill ∷ []
unfolding register
register-append skills more skill h = elim (Bool-cases (has skills skill.id)) [
  | inl e ↦ let k = rw e at h in cc
  | inr e ↦ let k = rw e at h in cc
]

register_all-append :
    (skills more ss : List SkillDefinition) → register_all skills ss ≡ ok more → more ≡ skills ++ ss
unfolding register_all
register_all-append skills more [] h =
    let same : skills ≡ more = cc in sym same ∙ sym (append-nil skills)
register_all-append skills more (s ∷ ss) h = elim (Result-cases (register skills s)) [
  | inl (next, e) ↦
      register_all-append next more ss (rw (e, register_all) at h)
      ∙ ap (λ (xs : List SkillDefinition). xs ++ ss) (register-append skills next s e)
      ∙ append_assoc skills (s ∷ []) ss
  | inr (m, e) ↦ let k = rw (e, register_all) at h in cc
]

-- A registry that is made from a manifest has its skills in their order.
from_manifest-skills :
    (manifest : SkillManifest) (skills : List SkillDefinition)
    → from_manifest manifest ≡ ok skills
    → skills ≡ manifest.skills
unfolding from_manifest
from_manifest-skills manifest skills h = register_all-append [] skills manifest.skills h

-- The skills that are found by a domain have it.
find_by_domain-domains :
    (skills : List SkillDefinition) (domain : String)
    → All (λ (s : SkillDefinition). Memᴰ domain s.domains) (find_by_domain skills domain)
unfolding find_by_domain
find_by_domain-domains skills domain =
    All-map (keep_if (λ (s : SkillDefinition). includes s.domains domain) skills)
      (λ s e. includes-mem s.domains domain e)
      (keep_if_passes (λ (s : SkillDefinition). includes s.domains domain) skills)
