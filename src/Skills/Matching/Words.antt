-- ===== src/Skills/Matching/Words.antt =====
-- What is found when a trigger is found in a query or in a path (src/skills/activation.ts).
use Prim.Native.String.append
use mathlib.Core.List.{Memᴰ}
use text.Mathlib.Text.{starts_with}
use agent_p.Common.{
  ℕ, ◌≡◌, ◌≢◌, refl, sym, ap, ◌∙◌, ◌⊎◌, inl, inr, String, Bool, true, false, not, ◌&&◌, List, [],
  ◌∷◌, ◌++◌, any-mem, ◌==◌, ==_iff, string_eq, Bool-cases, arith,
}
use agent_p.Common.Text.{contains, Occurs, contains_iff}
use agent_p.Skills.Matching.{
  units, is_alphanumeric, ends_word, word_here, has_word, wildcard_match, ends_with, has_wildcard,
  normalize_text, normalize_path, has_trigger_in_query, path_test, has_trigger_in_paths,
}

-- No letter or digit follows.
abbrev AtEnd : List ℕ → Type 0
AtEnd [] = Unit
AtEnd (c ∷ s) = is_alphanumeric c ≡ false

-- What was read ends with no letter or digit; `free` says so of what was read before.
abbrev FreeAfter : Bool → List ℕ → Type 0
FreeAfter free [] = free ≡ true
FreeAfter free (c ∷ s) = FreeAfter (not (is_alphanumeric c)) s

-- The word stands in the text between characters that are no letters or digits, or at its ends.
pub record HasWord (free : Bool) (w s : List ℕ) : Type 0 where
  before : List ℕ
  after : List ℕ
  split : s ≡ before ++ (w ++ after)
  starts : FreeAfter free before
  ends : AtEnd after

ends_word-AtEnd : (s : List ℕ) → ends_word s ≡ true → AtEnd s
unfolding ends_word
ends_word-AtEnd [] h = tt
ends_word-AtEnd (c ∷ s) h = ground arith

word_here_split :
    (w s : List ℕ) → word_here w s ≡ true → (after : List ℕ) × (s ≡ w ++ after) × AtEnd after
unfolding word_here
word_here_split [] s h = (s, refl, ends_word-AtEnd s h)
word_here_split (c ∷ w) [] h = cc
word_here_split (c ∷ w) (d ∷ s) h =
    let here : word_here w s ≡ true = ground arith in
    let same : d ≡ c = ground arith in
    let (after, split, ends) = word_here_split w s here in (after, cc, ends)

has_word-HasWord : (free : Bool) (w s : List ℕ) → has_word free w s ≡ true → HasWord free w s
unfolding has_word
has_word-HasWord free w [] h =
    let here : word_here w [] ≡ true = ground arith in
    let (after, split, ends) = word_here_split w [] here in
    record { before = []; after = after; split = split; starts = ground arith; ends = ends }
has_word-HasWord free w (c ∷ s) h = elim (Bool-cases (free && word_here w (c ∷ s))) [
  | inl e ↦
      let here : word_here w (c ∷ s) ≡ true = ground arith in
      let (after, split, ends) = word_here_split w (c ∷ s) here in
      record { before = []; after = after; split = split; starts = ground arith; ends = ends }
  | inr e ↦
      let r = has_word-HasWord (not (is_alphanumeric c)) w s (rw e at h) in
      record {
        before = c ∷ r.before;
        after = r.after;
        split = ap (λ (t : List ℕ). c ∷ t) r.split;
        starts = r.starts;
        ends = r.ends;
      }
]

-- The text ends with `t`.
abbrev EndsWith : String → String → Type 0
EndsWith s t = (a : String) × (s ≡ Prim.Native.String.◌++◌ a t)

ends_with-EndsWith : (s t : String) → ends_with s t ≡ true → EndsWith s t
unfolding ends_with
ends_with-EndsWith String.[] t h = ("", sym ((==_iff t String.[]).0 h) ∙ sym (append.nil t))
ends_with-EndsWith (String.◌∷◌ c s) t h = elim (Bool-cases (String.◌∷◌ c s == t)) [
  | inl e ↦ ("", (==_iff (String.◌∷◌ c s) t).0 e ∙ sym (append.nil t))
  | inr e ↦
      let (a, same) = ends_with-EndsWith s t (rw e at h) in
      (String.◌∷◌ c a, ap (λ (u : String). String.◌∷◌ c u) same ∙ sym (append.cons c a t))
]

module _ (fold lower trim : String → String) where
  -- The trigger, normalized, is not empty, and stands in the query: as a word, or anywhere.
  abbrev pub InQuery : String → String → Type 0
  InQuery query trigger =
      (normalize_text fold lower trim trigger ≢ "")
      × (Occurs (normalize_text fold lower trim trigger) query
          ⊎ HasWord true (units (normalize_text fold lower trim trigger)) (units query))

  pub has_trigger_in_query-InQuery :
      (query trigger : String)
      → has_trigger_in_query fold lower trim query trigger ≡ true
      → InQuery query trigger
  unfolding has_trigger_in_query
  has_trigger_in_query-InQuery query trigger h =
      let wanted = normalize_text fold lower trim trigger in
      elim (Bool-cases (wanted == "")) [
        | inl e ↦ let k = rw e at h in cc
        | inr e ↦
            let filled : wanted ≢ "" = λ blank. let k = (==_iff wanted "").1 blank in cc in
            elim (Bool-cases (contains wanted " ")) [
              | inl spaced ↦ (filled, inl ((contains_iff query wanted).0 (rw (e, spaced) at h)))
              | inr single ↦ (
                filled,
                inr (has_word-HasWord true (units wanted) (units query) (rw (e, single) at h)),
              )
            ]
      ]

  -- A trigger with `*` or `?` is a pattern that the whole path has; another stands in the path, at its
  -- end if it begins with a point.
  abbrev pub InPath : String → String → Type 0
  InPath wanted path =
      ((has_wildcard wanted ≡ true) × (wildcard_match (units wanted) (units path) ≡ true))
      ⊎ (EndsWith path wanted ⊎ Occurs wanted path)

  path_test-InPath :
      (wanted path : String) → path_test fold lower trim wanted path ≡ true → InPath wanted path
  unfolding path_test
  path_test-InPath wanted path h = elim (Bool-cases (has_wildcard wanted)) [
    | inl e ↦ inl (e, rw e at h)
    | inr e ↦ elim (Bool-cases (starts_with wanted ".")) [
      | inl point ↦ inr (inl (ends_with-EndsWith path wanted (rw (e, point) at h)))
      | inr other ↦ inr (inr ((contains_iff path wanted).0 (rw (e, other) at h)))
    ]
  ]

  -- The trigger is in one of the paths, both normalized.
  abbrev pub InPaths : List String → String → Type 0
  InPaths paths trigger =
      (p : String) × Memᴰ p paths
      × InPath (normalize_path fold lower trim trigger) (normalize_path fold lower trim p)

  pub has_trigger_in_paths-InPaths :
      (paths : List String) (trigger : String)
      → has_trigger_in_paths fold lower trim paths trigger ≡ true
      → InPaths paths trigger
  unfolding has_trigger_in_paths
  has_trigger_in_paths-InPaths paths trigger h =
      let wanted = normalize_path fold lower trim trigger in
      let (p, m, e) =
        any-mem
          (λ (q : String). path_test fold lower trim wanted (normalize_path fold lower trim q))
          paths h in
      (p, m, path_test-InPath wanted (normalize_path fold lower trim p) e)
