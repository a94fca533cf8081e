-- ===== src/Skills/Activation.antt =====
-- `suggestSkills` and `loadSkill` (src/skills/activation.ts). The order of ids, `localeCompare`, is a
-- parameter.
pub mod Reasons
pub mod Suggested
use Prim.Native.String.{◌++◌ as str_append}
use agent_p.Common.{
  ℕ, ◌+◌, ◌*◌, String, Option, none, some, Bool, true, false, not, ◌&&◌, ◌||◌, List, [], ◌∷◌, ◌++◌,
  map, any, includes, keep_if, length, take, dedupe, ltb, leb, nat_eqb, ◌==◌, string_eq, or_else,
  Result, ok, err, if◌then◌else◌,
}
use agent_p.Skills.Types.{SkillPriority, SkillActivation, SkillDefinition}
use agent_p.Skills.Registry.{get}
use agent_p.Skills.Matching.{normalize_text, has_trigger_in_query, has_trigger_in_paths}

pub record SuggestSkillsRequest : Type 0 where
  pub query : String
  pub domains : Option (List String)
  pub file_paths : Option (List String)
  pub include_manual : Option Bool
  pub limit : Option ℕ
  pub agent_id : Option String

pub record SkillSuggestion : Type 0 where
  pub skill : SkillDefinition
  pub score : ℕ
  pub reasons : List String

pub record LoadSkillRequest : Type 0 where
  pub skill_id : String
  pub agent_id : Option String

priority_score : SkillPriority → ℕ
priority_score SkillPriority.low = 0
priority_score SkillPriority.medium = 1
priority_score SkillPriority.high = 2

abbrev pub is_manual : SkillActivation → Bool
is_manual SkillActivation.manual = true
is_manual SkillActivation.auto = false

join_texts : List String → String
join_texts [] = ""
join_texts (t ∷ []) = t
join_texts (t ∷ u ∷ ts) = str_append t (str_append ", " (join_texts (u ∷ ts)))

module _ (fold lower trim : String → String) where
  -- The agent against a list that is not empty; an empty id counts as none.
  listed_agent : List String → Option String → Bool
  unfolding normalize_text
  listed_agent allowed none = false
  listed_agent allowed (some agent) =
      not (agent == "")
      && any
          (λ (a : String). normalize_text fold lower trim a == normalize_text fold lower trim agent)
          allowed

  agents_allow : List String → Option String → Bool
  unfolding listed_agent
  agents_allow [] agent = true
  agents_allow (a ∷ as_) agent = listed_agent (a ∷ as_) agent

  is_allowed_for_agent : SkillDefinition → Option String → Bool
  unfolding agents_allow
  is_allowed_for_agent skill agent = agents_allow (or_else skill.allowed_agents []) agent

  -- What one trigger adds to the score, and the reason for it.
  trigger_hit : String → List String → String → List (ℕ × String)
  unfolding has_trigger_in_query has_trigger_in_paths
  trigger_hit query paths trigger =
      if has_trigger_in_query fold lower trim query trigger
      then (3, str_append "query matched trigger '" (str_append trigger "'")) ∷ []
      else if has_trigger_in_paths fold lower trim paths trigger
      then (4, str_append "file paths matched trigger '" (str_append trigger "'")) ∷ []
      else []

  trigger_hits : String → List String → List String → List (ℕ × String)
  unfolding trigger_hit
  trigger_hits query paths [] = []
  trigger_hits query paths (t ∷ ts) = trigger_hit query paths t ++ trigger_hits query paths ts

  matched_domains : SkillDefinition → SuggestSkillsRequest → List String
  unfolding normalize_text keep_if includes
  matched_domains skill request =
      let wanted = map (normalize_text fold lower trim) (or_else request.domains []) in
      keep_if (λ (d : String). includes wanted (normalize_text fold lower trim d)) skill.domains

  domain_hits : List String → List (ℕ × String)
  unfolding join_texts
  domain_hits [] = []
  domain_hits (d ∷ ds) =
      (length (d ∷ ds) * 2, str_append "domain matched (" (str_append (join_texts (d ∷ ds)) ")"))
      ∷ []

  total : List (ℕ × String) → ℕ
  total [] = 0
  total ((n, why) ∷ hits) = n + total hits

  why_of : List (ℕ × String) → List String
  why_of [] = []
  why_of ((n, why) ∷ hits) = why ∷ why_of hits

  suggestion_of : SkillDefinition → List (ℕ × String) → Option SkillSuggestion
  unfolding priority_score total why_of
  suggestion_of skill [] = none
  suggestion_of skill (hit ∷ hits) = some (record {
    skill = skill;
    score = priority_score skill.priority + total (hit ∷ hits);
    reasons = why_of (hit ∷ hits);
  })

  pub all_hits : SkillDefinition → SuggestSkillsRequest → List (ℕ × String)
  unfolding trigger_hits domain_hits matched_domains normalize_text dedupe
  all_hits skill request =
      trigger_hits (normalize_text fold lower trim request.query) (or_else request.file_paths [])
        (dedupe skill.triggers)
      ++ domain_hits (matched_domains skill request)

  build_suggestion : SkillDefinition → SuggestSkillsRequest → Option SkillSuggestion
  unfolding suggestion_of all_hits is_allowed_for_agent
  build_suggestion skill request =
      let made = suggestion_of skill (all_hits skill request) in
      if not (or_else request.include_manual false) && is_manual skill.activation
      then none
      else if not (is_allowed_for_agent skill request.agent_id)
      then none
      else made

  load_skill : List SkillDefinition → LoadSkillRequest → Result SkillDefinition
  unfolding get is_allowed_for_agent
  load_skill registry request = elim (get registry request.skill_id) [
    | none ↦ err (str_append "Skill not found: " request.skill_id)
    | some skill ↦
        if is_allowed_for_agent skill request.agent_id
        then ok skill
        else err (
            str_append "Skill '" (
              str_append request.skill_id (
                str_append "' is not allowed for agent '"
                  (str_append (or_else request.agent_id "unknown") "'"))))
  ]

  -- `comes_first a b` is `a.localeCompare(b) <= 0`.
  module _ (comes_first : String → String → Bool) where
    insert_suggestion : SkillSuggestion → List SkillSuggestion → List SkillSuggestion
    insert_suggestion x [] = x ∷ []
    insert_suggestion x (y ∷ ys) =
        let rest = insert_suggestion x ys in
        if ltb y.score x.score || (nat_eqb x.score y.score && comes_first x.skill.id y.skill.id)
        then x ∷ y ∷ ys
        else y ∷ rest

    sort_suggestions : List SkillSuggestion → List SkillSuggestion
    unfolding insert_suggestion
    sort_suggestions [] = []
    sort_suggestions (x ∷ xs) = insert_suggestion x (sort_suggestions xs)

    suggestions : List SkillDefinition → SuggestSkillsRequest → List SkillSuggestion
    unfolding build_suggestion
    suggestions [] request = []
    suggestions (s ∷ ss) request =
        let rest = suggestions ss request in
        elim (build_suggestion s request) [ some x ↦ x ∷ rest | none ↦ rest ]

    -- `Math.max(1, limit ?? 5)`, for whole numbers.
    suggestion_limit : SuggestSkillsRequest → ℕ
    suggestion_limit request = let n = or_else request.limit 5 in if leb 1 n then n else 1

    unfoldable pub suggest_skills :
        List SkillDefinition → SuggestSkillsRequest → List SkillSuggestion
    unfolding suggestions sort_suggestions suggestion_limit
    suggest_skills registry request =
        take (suggestion_limit request) (sort_suggestions (suggestions registry request))
