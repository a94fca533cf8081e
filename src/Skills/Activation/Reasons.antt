-- ===== src/Skills/Activation/Reasons.antt =====
-- What a suggestion's reasons stand for (src/skills/activation.ts).
use mathlib.Core.List.{Memᴰ}
use agent_p.Common.{
  ◌≡◌, ◌≢◌, refl, ◌⊎◌, inl, inr, String, true, List, [], ◌∷◌, ◌++◌, map, All, All-keep_if, All-self,
  keep_if, keep_if_passes, includes, includes-mem, dedupe_after, dedupe, or_else, Bool-cases,
  string_eq,
}
use agent_p.Skills.Types.{SkillDefinition}
use agent_p.Skills.Matching.{normalize_text, has_trigger_in_query, has_trigger_in_paths}
use agent_p.Skills.Matching.Words.{
  InQuery, InPaths, has_trigger_in_query-InQuery, has_trigger_in_paths-InPaths,
}
use agent_p.Skills.Activation.{
  SuggestSkillsRequest, trigger_hit, trigger_hits, matched_domains, domain_hits, all_hits,
}

mem-front :
    (x : String) (xs ys : List String) (t : String)
    → (Memᴰ t xs → Memᴰ t ys)
    → Memᴰ t (x ∷ xs)
    → Memᴰ t (x ∷ ys)
mem-front x xs ys t f (Memᴰ.head p) = Memᴰ.head p
mem-front x xs ys t f (Memᴰ.tail m) = Memᴰ.tail (f m)

-- What is left of a list by `dedupe` was in the list.
dedupe_after-mem : (seen xs : List String) (t : String) → Memᴰ t (dedupe_after seen xs) → Memᴰ t xs
unfolding dedupe_after
dedupe_after-mem seen [] t m = m
dedupe_after-mem seen (x ∷ xs) t m = elim (Bool-cases (includes seen x)) [
  | inl e ↦ Memᴰ.tail (dedupe_after-mem seen xs t (rw e at m))
  | inr e ↦
      mem-front x (dedupe_after (x ∷ seen) xs) xs t (λ k. dedupe_after-mem (x ∷ seen) xs t k)
        (rw e at m)
]

module _ (fold lower trim : String → String) where
  -- One of the triggers is in the query or in a path.
  abbrev HasTrigger : String → List String → List String → Type 0
  HasTrigger query paths triggers =
      (t : String) × Memᴰ t triggers
      × (InQuery fold lower trim query t ⊎ InPaths fold lower trim paths t)

  -- The skill has a trigger that is in the request's query or paths, or a domain that is, normalized,
  -- one of the request's.
  abbrev pub Matches : SkillDefinition → SuggestSkillsRequest → Type 0
  Matches skill request =
      ((t : String) × Memᴰ t skill.triggers
        × (InQuery fold lower trim (normalize_text fold lower trim request.query) t
            ⊎ InPaths fold lower trim (or_else request.file_paths []) t))
      ⊎ ((d : String) × Memᴰ d skill.domains
          × Memᴰ (normalize_text fold lower trim d)
              (map (normalize_text fold lower trim) (or_else request.domains [])))

  trigger_hits-HasTrigger :
      (query : String) (paths ts : List String)
      → trigger_hits fold lower trim query paths ts ≢ []
      → HasTrigger query paths ts
  unfolding trigger_hits trigger_hit
  trigger_hits-HasTrigger query paths [] h = absurd (h refl)
  trigger_hits-HasTrigger query paths (t ∷ ts) h =
      elim (Bool-cases (has_trigger_in_query fold lower trim query t)) [
        | inl e ↦ (t, Memᴰ.head refl, inl (has_trigger_in_query-InQuery fold lower trim query t e))
        | inr e ↦ elim (Bool-cases (has_trigger_in_paths fold lower trim paths t)) [
          | inl k ↦
              (t, Memᴰ.head refl, inr (has_trigger_in_paths-InPaths fold lower trim paths t k))
          | inr k ↦
              let (u, m, why) = trigger_hits-HasTrigger query paths ts (rw (e, k) at h) in
              (u, Memᴰ.tail m, why)
        ]
      ]

  domain_hits_filled :
      (ds : List String) → domain_hits fold lower trim ds ≢ [] → (d : String) × Memᴰ d ds
  unfolding domain_hits
  domain_hits_filled [] h = absurd (h refl)
  domain_hits_filled (d ∷ ds) h = (d, Memᴰ.head refl)

  All-mem : (P : String → Type 0) (xs : List String) (x : String) → All P xs → Memᴰ x xs → P x
  All-mem P (y ∷ xs) x (p, ps) (Memᴰ.head e) = rw e p
  All-mem P (y ∷ xs) x (p, ps) (Memᴰ.tail m) = All-mem P xs x ps m
  All-mem P [] x p m = elim m [ ]

  matched_domains-mem :
      (skill : SkillDefinition) (request : SuggestSkillsRequest) (d : String)
      → Memᴰ d (matched_domains fold lower trim skill request)
      → Memᴰ d skill.domains
        × Memᴰ
            (normalize_text fold lower trim d)
            (map (normalize_text fold lower trim) (or_else request.domains []))
  unfolding matched_domains
  matched_domains-mem skill request d m =
      let norm = normalize_text fold lower trim in
      let wanted = map norm (or_else request.domains []) in
      let test = λ (x : String). includes wanted (norm x) in
      let ds = keep_if test skill.domains in
      (
        All-mem (λ x. Memᴰ x skill.domains) ds d
            (All-keep_if (λ x. Memᴰ x skill.domains) test skill.domains (All-self skill.domains)) m,
        includes-mem wanted (norm d)
            (All-mem (λ x. test x ≡ true) ds d (keep_if_passes test skill.domains) m),
      )

  append_filled : {A : Type 0} (xs ys : List A) → xs ++ ys ≢ [] → (xs ≢ []) ⊎ (ys ≢ [])
  append_filled [] ys h = inr h
  append_filled (x ∷ xs) ys h = inl (λ e. cc)

  pub all_hits-Matches :
      (skill : SkillDefinition) (request : SuggestSkillsRequest)
      → all_hits fold lower trim skill request ≢ []
      → Matches skill request
  unfolding all_hits dedupe
  all_hits-Matches skill request h =
      let query = normalize_text fold lower trim request.query in
      let paths = or_else request.file_paths [] in
      let ds = matched_domains fold lower trim skill request in
      elim (append_filled (trigger_hits fold lower trim query paths (dedupe skill.triggers))
        (domain_hits fold lower trim ds) h) [
          | inl hit ↦
              let (t, m, why) = trigger_hits-HasTrigger query paths (dedupe skill.triggers) hit in
              inl (t, dedupe_after-mem [] skill.triggers t m, why)
          | inr hit ↦
              let (d, m) = domain_hits_filled ds hit in
              let (own, asked) = matched_domains-mem skill request d m in inr (d, own, asked)
        ]
