-- ===== src/Hooks/Policy/Blocking.antt =====
-- What `findPatternMatch` finds (src/hooks/policy.ts).
use mathlib.Core.List.{Memᴰ}
use agent_p.Common.{
  ◌≡◌, refl, ◌↔◌, inl, inr, String, none, some, Bool, true, false, List, [], ◌∷◌, Bool-cases,
  Option-cases, if◌then◌else◌,
}
use agent_p.Common.Text.{contains, Occurs, contains_iff}
use agent_p.Hooks.Policy.{find_pattern_match, is_found}

module _ (lower : String → String) where
  -- Some pattern of the list occurs in the text, whatever the case of their letters.
  abbrev pub Matched : String → List String → Type 0
  Matched text patterns = (p : String) × Memᴰ p patterns × Occurs (lower p) (lower text)

  pub find_pattern_match-Matched :
      (text : String) (patterns : List String) (p : String)
      → find_pattern_match lower text patterns ≡ some p
      → Matched text patterns
  unfolding find_pattern_match
  find_pattern_match-Matched text [] p h = cc
  find_pattern_match-Matched text (q ∷ qs) p h =
      elim (Bool-cases (contains (lower text) (lower q))) [
        | inl e ↦ (q, Memᴰ.head refl, (contains_iff (lower text) (lower q)).0 e)
        | inr e ↦
            let (r, m, o) = find_pattern_match-Matched text qs p (rw e at h) in (r, Memᴰ.tail m, o)
      ]

  pub find_pattern_match-none :
      (text : String) (patterns : List String)
      → find_pattern_match lower text patterns ≡ none
      → ¬ (Matched text patterns)
  unfolding find_pattern_match
  find_pattern_match-none text [] h (p, m, o) = elim m [ ]
  find_pattern_match-none text (q ∷ qs) h (p, Memᴰ.head e, o) =
      let o' : Occurs (lower q) (lower text) = rw e at o in
      let found = (contains_iff (lower text) (lower q)).1 o' in let k = rw found at h in cc
  find_pattern_match-none text (q ∷ qs) h (p, Memᴰ.tail m, o) =
      find_pattern_match-none text qs (not_first (contains (lower text) (lower q)) h) (p, m, o)
    where
      not_first :
          (b : Bool)
          → (if b then some q else find_pattern_match lower text qs) ≡ none
          → find_pattern_match lower text qs ≡ none
      not_first true e = cc
      not_first false e = e

  -- The search finds something exactly if some pattern occurs.
  pub is_found_iff :
      (text : String) (patterns : List String)
      → (is_found (find_pattern_match lower text patterns) ≡ true) ↔ Matched text patterns
  unfolding is_found
  is_found_iff text patterns = elim (Option-cases (find_pattern_match lower text patterns)) [
    | inl (p, e) ↦ (λ h. find_pattern_match-Matched text patterns p e, λ m. rw e refl)
    | inr e ↦
        (λ h. let k = rw e at h in cc, λ m. absurd (find_pattern_match-none text patterns e m))
  ]
