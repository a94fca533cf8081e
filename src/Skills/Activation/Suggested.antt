-- ===== src/Skills/Activation/Suggested.antt =====
-- What `suggestSkills` suggests (src/skills/activation.ts).
use mathlib.Core.List.{Memᴰ}
use agent_p.Common.{
  ℕ, zero, suc, ◌≤◌, ◌≡◌, ◌≢◌, refl, ◌⊎◌, inl, inr, String, Option, none, some, Option-cases, Bool,
  true, false, not, ◌&&◌, ◌||◌, List, [], ◌∷◌, All, All-map, All-take, All-self, any-mem, length,
  take, length-take, ltb, leb, nat_eqb, ◌==◌, ==_iff, string_eq, or_else, ok, Bool-cases, arith,
}
use agent_p.Skills.Types.{SkillDefinition}
use agent_p.Skills.Registry.{get}
use agent_p.Skills.Matching.{normalize_text}
use agent_p.Skills.Activation.Reasons.{Matches, all_hits-Matches}
use agent_p.Skills.Activation.{
  SuggestSkillsRequest, SkillSuggestion, LoadSkillRequest, load_skill, is_manual, listed_agent,
  agents_allow, is_allowed_for_agent, suggestion_of, why_of, all_hits, build_suggestion,
  insert_suggestion, sort_suggestions, suggestions, suggestion_limit, suggest_skills,
}

-- A higher score comes first.
abbrev pub BestFirst : List SkillSuggestion → Type 0
BestFirst [] = Unit
BestFirst (x ∷ xs) = All (λ (y : SkillSuggestion). y.score ≤ x.score) xs × BestFirst xs

module _ (fold lower trim : String → String) where
  -- The list names no agents, or the given agent is, normalized, one of them.
  abbrev pub Allowed : List String → Option String → Type 0
  Allowed allowed agent =
      (allowed ≡ [])
      ⊎ ((given : String) × (agent ≡ some given)
          × (given ≢ "")
          × ((a : String) × Memᴰ a allowed
              × (normalize_text fold lower trim a ≡ normalize_text fold lower trim given)))

  listed_agent-Allowed :
      (allowed : List String) (agent : Option String)
      → listed_agent fold lower trim allowed agent ≡ true
      → Allowed allowed agent
  unfolding listed_agent
  listed_agent-Allowed allowed none h = cc
  listed_agent-Allowed allowed (some given) h =
      let test =
        λ (a : String). normalize_text fold lower trim a == normalize_text fold lower trim given in
      let (a, m, e) = any-mem test allowed (ground arith) in
      inr (
        given,
        refl,
        (λ blank. let k = (==_iff given "").1 blank in ground arith),
        (
          a,
          m,
          (==_iff (normalize_text fold lower trim a) (normalize_text fold lower trim given)).0 e,
        ),
      )

  agents_allow-Allowed :
      (allowed : List String) (agent : Option String)
      → agents_allow fold lower trim allowed agent ≡ true
      → Allowed allowed agent
  unfolding agents_allow
  agents_allow-Allowed [] agent h = inl refl
  agents_allow-Allowed (a ∷ as_) agent h = listed_agent-Allowed (a ∷ as_) agent h

  -- A skill that may be suggested for the request, for some reason.
  pub record IsSuggested (registry : List SkillDefinition) (request : SuggestSkillsRequest)
      (x : SkillSuggestion) : Type 0 where
    pub registered : Memᴰ x.skill registry
    pub manual_if_asked :
        is_manual x.skill.activation ≡ true → or_else request.include_manual false ≡ true
    pub allowed : Allowed (or_else x.skill.allowed_agents []) request.agent_id
    pub has_reason : x.reasons ≢ []
    pub matches : Matches fold lower trim x.skill request

  suggestion_of-some :
      (skill : SkillDefinition) (hits : List (ℕ × String)) (x : SkillSuggestion)
      → suggestion_of fold lower trim skill hits ≡ some x
      → (x.skill ≡ skill) × (x.reasons ≢ []) × (hits ≢ [])
  unfolding suggestion_of why_of
  suggestion_of-some skill [] x h = cc
  suggestion_of-some skill ((n, why) ∷ hits) x h = (cc, (λ e. cc), λ e. cc)

  build_suggestion-IsSuggested :
      (registry : List SkillDefinition) (request : SuggestSkillsRequest) (skill : SkillDefinition)
      (x : SkillSuggestion)
      → Memᴰ skill registry
      → build_suggestion fold lower trim skill request ≡ some x
      → IsSuggested registry request x
  unfolding build_suggestion is_allowed_for_agent
  build_suggestion-IsSuggested registry request skill x m h =
      elim (Bool-cases (not (or_else request.include_manual false) && is_manual skill.activation)) [
        | inl hidden ↦ let k = simp hidden at h in cc
        | inr shown ↦
            elim (Bool-cases
              (agents_allow fold lower trim (or_else skill.allowed_agents []) request.agent_id)) [
                | inl ok_ ↦
                    let made =
                      suggestion_of-some skill (all_hits fold lower trim skill request) x
                        (simp (shown, ok_) at h) in
                    let asked : is_manual skill.activation ≡ true
                        → or_else request.include_manual false ≡ true =
                      λ t. ground arith in
                    let by =
                      agents_allow-Allowed (or_else skill.allowed_agents []) request.agent_id ok_ in
                    record {
                      registered = rw made.0 m;
                      manual_if_asked = rw made.0 asked;
                      allowed = rw made.0 by;
                      has_reason = made.1;
                      matches = rw made.0 (all_hits-Matches fold lower trim skill request made.2);
                    }
                | inr bad ↦ let k = simp (shown, bad) at h in cc
              ]
      ]

  -- A skill that is loaded is the one with the asked id, and allows the agent.
  load_skill-Allowed :
      (registry : List SkillDefinition) (request : LoadSkillRequest) (skill : SkillDefinition)
      → load_skill fold lower trim registry request ≡ ok skill
      → (get registry request.skill_id ≡ some skill)
        × Allowed (or_else skill.allowed_agents []) request.agent_id
  unfolding load_skill is_allowed_for_agent
  load_skill-Allowed registry request skill h =
      elim (Option-cases (get registry request.skill_id)) [
        | inr e ↦ let k = rw (e, load_skill) at h in cc
        | inl (s, e) ↦
            let k = rw (e, load_skill) at h in
            elim (Bool-cases
              (agents_allow fold lower trim (or_else s.allowed_agents []) request.agent_id)) [
                | inl t ↦
                    let same : s ≡ skill = let l = simp t at k in cc in
                    let by =
                      agents_allow-Allowed (or_else s.allowed_agents []) request.agent_id t in
                    (cc, rw same at by)
                | inr f ↦ let l = simp f at k in cc
              ]
      ]

  module _ (comes_first : String → String → Bool) where
    suggestions-IsSuggested :
        (registry : List SkillDefinition) (request : SuggestSkillsRequest)
        (ss : List SkillDefinition)
        → All (λ s. Memᴰ s registry) ss
        → All (IsSuggested registry request) (suggestions fold lower trim comes_first ss request)
    unfolding suggestions
    suggestions-IsSuggested registry request [] h = tt
    suggestions-IsSuggested registry request (s ∷ ss) (m, h) =
        let rest = suggestions-IsSuggested registry request ss h in
        elim (Option-cases (build_suggestion fold lower trim s request)) [
          | inl (x, e) ↦
              rw (e, suggestions) (build_suggestion-IsSuggested registry request s x m e, rest)
          | inr e ↦ rw (e, suggestions) rest
        ]

    module _ (P : SkillSuggestion → Type 0) where
      All-insert_suggestion :
          (x : SkillSuggestion) (xs : List SkillSuggestion)
          → P x
          → All P xs
          → All P (insert_suggestion fold lower trim comes_first x xs)
      unfolding insert_suggestion
      All-insert_suggestion x [] p h = (p, tt)
      All-insert_suggestion x (y ∷ ys) p (q, h) =
          elim (Bool-cases (
            ltb y.score x.score
            || (nat_eqb x.score y.score && comes_first x.skill.id y.skill.id))) [
              | inl e ↦ rw e (p, (q, h))
              | inr e ↦ rw e (q, All-insert_suggestion x ys p h)
            ]

      All-sort_suggestions :
          (xs : List SkillSuggestion)
          → All P xs
          → All P (sort_suggestions fold lower trim comes_first xs)
      unfolding sort_suggestions
      All-sort_suggestions [] h = tt
      All-sort_suggestions (x ∷ xs) (p, h) =
          All-insert_suggestion x (sort_suggestions fold lower trim comes_first xs) p
            (All-sort_suggestions xs h)

    insert_suggestion-BestFirst :
        (x : SkillSuggestion) (xs : List SkillSuggestion)
        → BestFirst xs
        → BestFirst (insert_suggestion fold lower trim comes_first x xs)
    unfolding insert_suggestion
    insert_suggestion-BestFirst x [] h = (tt, tt)
    insert_suggestion-BestFirst x (y ∷ ys) (above, h) =
        let alphabetic = comes_first x.skill.id y.skill.id in
        elim (Bool-cases
          (ltb y.score x.score || (nat_eqb x.score y.score && comes_first x.skill.id y.skill.id))) [
            | inl e ↦
                let le : y.score ≤ x.score = ground arith in
                rw e ((le, All-map ys (λ z k. omega arith) above), (above, h))
            | inr e ↦
                let le : x.score ≤ y.score = ground arith in
                rw e (
                  All-insert_suggestion (λ (z : SkillSuggestion). z.score ≤ y.score) x ys le above,
                  insert_suggestion-BestFirst x ys h,
                )
          ]

    sort_suggestions-BestFirst :
        (xs : List SkillSuggestion) → BestFirst (sort_suggestions fold lower trim comes_first xs)
    unfolding sort_suggestions
    sort_suggestions-BestFirst [] = tt
    sort_suggestions-BestFirst (x ∷ xs) =
        insert_suggestion-BestFirst x (sort_suggestions fold lower trim comes_first xs)
          (sort_suggestions-BestFirst xs)

    take-BestFirst : (n : ℕ) (xs : List SkillSuggestion) → BestFirst xs → BestFirst (take n xs)
    take-BestFirst zero xs h = tt
    take-BestFirst (suc n) [] h = tt
    take-BestFirst (suc n) (x ∷ xs) (above, h) =
        (All-take (λ (y : SkillSuggestion). y.score ≤ x.score) n xs above, take-BestFirst n xs h)

    -- The suggestions are at most as many as the request's limit, five if it has none, or at most one,
    -- and a higher score comes first. Each is for a registered skill, has a reason, and is for a
    -- manual skill only if the request includes these. Its skill has a trigger that stands in the
    -- request's query or in one of its paths, or a domain that is, normalized, one of the request's. Its skill names no agents, or the request's
    -- agent is given and is, normalized, one of those that the skill names.
    pub suggest_skills-IsSuggested :
        (registry : List SkillDefinition) (request : SuggestSkillsRequest)
        → All
            (IsSuggested registry request)
            (suggest_skills fold lower trim comes_first registry request)
          × BestFirst (suggest_skills fold lower trim comes_first registry request)
          × ((length (suggest_skills fold lower trim comes_first registry request)
                ≤ or_else request.limit 5)
              ⊎ (length (suggest_skills fold lower trim comes_first registry request) ≤ 1))
    unfolding suggest_skills suggestion_limit
    suggest_skills-IsSuggested registry request =
        let found = suggestions fold lower trim comes_first registry request in
        let sorted = sort_suggestions fold lower trim comes_first found in
        let n = suggestion_limit fold lower trim comes_first request in
        (
          All-take (IsSuggested registry request) n sorted (
              All-sort_suggestions (IsSuggested registry request) found
                (suggestions-IsSuggested registry request registry (All-self registry))),
          take-BestFirst n sorted (sort_suggestions-BestFirst found),
          elim (Bool-cases (leb 1 (or_else request.limit 5))) [
            | inl e ↦ inl (rw e (length-take (or_else request.limit 5) sorted))
            | inr e ↦ inr (rw e (length-take 1 sorted))
          ],
        )
