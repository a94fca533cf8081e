-- ===== src/Skills/Validator/Soundness.antt =====
-- Which manifests are valid (src/skills/validator.ts).
use Prim.Native.Char.{code}
use agent_p.Common.{
  ℕ, ◌≤◌, ◌≡◌, ◌≢◌, refl, ◌↔◌, inl, inr, String, Option, Bool, true, false, List, [], ◌∷◌, ◌++◌,
  map, includes, All, All-map, All-both, ◌==◌, ==_iff, string_eq, or_else, Bool-cases, arith,
}
use agent_p.Skills.Types.{SkillDefinition, SkillManifest}
use agent_p.Skills.Validator.{
  SkillValidationIssue, IssueCode, has_control_characters, utf16_length, is_invalid, remember,
  issue, issue_if, trigger_errors, agent_errors, skill_errors, no_errors, validate_skill_manifest,
}

-- No two elements are the same.
abbrev pub Distinct : List String → Type 0
Distinct [] = Unit
Distinct (x ∷ xs) = All (λ y. y ≢ x) xs × Distinct xs

abbrev pub IsPrintable : String → Type 0
IsPrintable String.[] = Unit
IsPrintable (String.◌∷◌ c s) = (32 ≤ code c) × IsPrintable s

-- A normalized trigger or agent that is allowed.
abbrev pub IsProper : ℕ → String → Type 0
IsProper max value = (utf16_length value ≢ 0) × (utf16_length value ≤ max) × IsPrintable value

-- The normalized names are proper, and no two of them are the same.
abbrev pub AreProper : ℕ → List String → Type 0
AreProper max names = All (IsProper max) names × Distinct names

has_control_characters_iff : (s : String) → (has_control_characters s ≡ false) ↔ IsPrintable s
unfolding has_control_characters
has_control_characters_iff String.[] = (λ h. tt, λ h. refl)
has_control_characters_iff (String.◌∷◌ c s) =
    let rest = has_control_characters_iff s in
    (
      λ h. (ground arith, rest.0 (ground arith)),
      λ h. let k = rest.1 h.1 in let le = h.0 in ground arith,
    )

is_invalid_iff : (max : ℕ) (value : String) → (is_invalid max value ≡ false) ↔ IsProper max value
unfolding is_invalid
is_invalid_iff max value =
    let printable = has_control_characters_iff value in
    (
      λ h. (ground arith, ground arith, printable.0 (ground arith)),
      λ h. let k = printable.1 h.2 in let ne = h.0 in let le = h.1 in ground arith,
    )

-- No element of the list is met when it has been seen already.
abbrev Fresh : List String → List String → Type 0
Fresh seen [] = Unit
Fresh seen (x ∷ xs) = (includes seen x ≡ false) × Fresh (remember seen x) xs

unseen_one :
    (seen : List String) (x y : String)
    → (includes (x ∷ seen) y ≡ false) ↔ ((y ≢ x) × (includes seen y ≡ false))
unfolding includes
unseen_one seen x y = elim (Bool-cases (y == x)) [
  | inl e ↦ (λ h. let k = rw e at h in cc, λ h. absurd (h.0 ((==_iff y x).0 e)))
  | inr e ↦ (λ h. ((λ same. let k = (==_iff y x).1 same in cc), rw e at h), λ h. rw e (h.1))
]

unseen_both :
    (seen : List String) (x : String) (xs : List String)
    → All (λ y. includes (x ∷ seen) y ≡ false) xs
      ↔ (All (λ y. y ≢ x) xs × All (λ y. includes seen y ≡ false) xs)
unseen_both seen x xs = (
  λ h. (
    All-map xs (λ y k. ((unseen_one seen x y).0 k).0) h,
    All-map xs (λ y k. ((unseen_one seen x y).0 k).1) h,
  ),
  λ h.
      All-map xs (λ y k. (unseen_one seen x y).1 k)
        (All-both (λ y. y ≢ x) (λ y. includes seen y ≡ false) xs h.0 h.1),
)

Fresh-Distinct :
    (seen xs : List String) → Fresh seen xs ↔ (All (λ y. includes seen y ≡ false) xs × Distinct xs)
unfolding remember
Fresh-Distinct seen [] = (λ h. (tt, tt), λ h. tt)
Fresh-Distinct seen (x ∷ xs) =
    let rest = Fresh-Distinct (x ∷ seen) xs in
    let both = unseen_both seen x xs in
    (
      λ h.
          let k = rest.0 (rw h.0 at h.1) in
          let (other, old) = both.0 k.0 in ((h.0, old), (other, k.1)),
      λ h. (h.0.0, rw h.0.0 (rest.1 (both.1 (h.1.0, h.0.1), h.1.1))),
    )

append-nil_iff : (xs ys : List SkillValidationIssue) → (xs ++ ys ≡ []) ↔ ((xs ≡ []) × (ys ≡ []))
append-nil_iff [] ys = (λ h. (refl, h), λ h. h.1)
append-nil_iff (x ∷ xs) ys = (λ h. cc, λ h. let k = h.0 in cc)

issue_if-nil :
    (b : Bool) (what : IssueCode) (m : String) (s : SkillDefinition) (t : Option String)
    → (issue_if b (issue what m s t) ≡ []) ↔ (b ≡ false)
unfolding issue_if issue
issue_if-nil true what m s t = (λ h. cc, λ h. cc)
issue_if-nil false what m s t = (λ h. refl, λ h. refl)

-- Two tests for each name, and the rest of the names.
names_step :
    (seen : List String) (max : ℕ) (x : String) (xs : List String)
    {a b r : List SkillValidationIssue}
    → (a ≡ []) ↔ (includes seen x ≡ false)
    → (b ≡ []) ↔ (is_invalid max x ≡ false)
    → (r ≡ []) ↔ (All (IsProper max) xs × Fresh (remember seen x) xs)
    → (a ++ (b ++ r) ≡ []) ↔ (All (IsProper max) (x ∷ xs) × Fresh seen (x ∷ xs))
names_step seen max x xs {a} {b} {r} p q rest =
    let both = append-nil_iff a (b ++ r) in
    let later = append-nil_iff b r in
    let proper = is_invalid_iff max x in
    (
      λ h.
          let k = both.0 h in
          let l = later.0 k.1 in
          let (ps, fs) = rest.0 l.1 in ((proper.0 (q.0 l.0), ps), (p.0 k.0, fs)),
      λ h.
          let ((is_proper, ps), (unseen, fs)) = h in
          both.1 (p.1 unseen, later.1 (q.1 (proper.1 is_proper), rest.1 (ps, fs))),
    )

All-unseen : (xs : List String) → All (λ y. includes [] y ≡ false) xs
unfolding includes
All-unseen [] = tt
All-unseen (x ∷ xs) = (refl, All-unseen xs)

Fresh-AreProper :
    (max : ℕ) (xs : List String) → (All (IsProper max) xs × Fresh [] xs) ↔ AreProper max xs
Fresh-AreProper max xs =
    let fresh = Fresh-Distinct [] xs in
    (λ h. (h.0, (fresh.0 h.1).1), λ h. (h.0, fresh.1 (All-unseen xs, h.1)))

module _ (normalize : String → String) where
  trigger_errors-nil :
      (s : SkillDefinition) (seen ts : List String)
      → (trigger_errors normalize s seen ts ≡ [])
        ↔ (All (IsProper 120) (map normalize ts) × Fresh seen (map normalize ts))
  unfolding trigger_errors
  trigger_errors-nil s seen [] = (λ h. (tt, tt), λ h. refl)
  trigger_errors-nil s seen (t ∷ ts) =
      names_step seen 120 (normalize t) (map normalize ts) (issue_if-nil _ _ _ s _)
        (issue_if-nil _ _ _ s _) (trigger_errors-nil s (remember seen (normalize t)) ts)

  agent_errors-nil :
      (s : SkillDefinition) (seen as_ : List String)
      → (agent_errors normalize s seen as_ ≡ [])
        ↔ (All (IsProper 64) (map normalize as_) × Fresh seen (map normalize as_))
  unfolding agent_errors
  agent_errors-nil s seen [] = (λ h. (tt, tt), λ h. refl)
  agent_errors-nil s seen (t ∷ ts) =
      names_step seen 64 (normalize t) (map normalize ts) (issue_if-nil _ _ _ s _)
        (issue_if-nil _ _ _ s _) (agent_errors-nil s (remember seen (normalize t)) ts)

  -- The triggers and the allowed agents of a skill are proper.
  abbrev pub SkillIsProper : SkillDefinition → Type 0
  SkillIsProper s =
      AreProper 120 (map normalize s.triggers)
      × AreProper 64 (map normalize (or_else s.allowed_agents []))

  abbrev pub ids : List SkillDefinition → List String
  ids ss = map (λ (s : SkillDefinition). normalize s.id) ss

  skill_errors-nil :
      (seen : List String) (ss : List SkillDefinition)
      → (skill_errors normalize seen ss ≡ []) ↔ (All SkillIsProper ss × Fresh seen (ids ss))
  unfolding skill_errors
  skill_errors-nil seen [] = (λ h. (tt, tt), λ h. refl)
  skill_errors-nil seen (s ∷ ss) =
      let agents = map normalize (or_else s.allowed_agents []) in
      let triggers = map normalize s.triggers in
      let of_id = append-nil_iff (issue_if (includes seen (normalize s.id)) _) _ in
      let of_triggers = append-nil_iff (trigger_errors normalize s [] s.triggers) _ in
      let of_agents =
        append-nil_iff (agent_errors normalize s [] (or_else s.allowed_agents [])) _ in
      let id_new = issue_if-nil (includes seen (normalize s.id)) _ _ s _ in
      let ts = trigger_errors-nil s [] s.triggers in
      let as_ = agent_errors-nil s [] (or_else s.allowed_agents []) in
      let rest = skill_errors-nil (remember seen (normalize s.id)) ss in
      (
        λ h.
            let k = of_id.0 h in
            let l = of_triggers.0 k.1 in
            let m = of_agents.0 l.1 in
            let (proper, fresh) = rest.0 m.1 in
            (
              (
                (
                  (Fresh-AreProper 120 triggers).0 (ts.0 l.0),
                  (Fresh-AreProper 64 agents).0 (as_.0 m.0),
                ),
                proper,
              ),
              (id_new.0 k.0, fresh),
            ),
        λ h.
            let (((t, a), proper), (new, fresh)) = h in
            of_id.1 (
              id_new.1 new,
              of_triggers.1 (
                ts.1 ((Fresh-AreProper 120 triggers).1 t),
                of_agents.1 (as_.1 ((Fresh-AreProper 64 agents).1 a), rest.1 (proper, fresh)),
              ),
            ),
      )

  no_errors_iff : (es : List SkillValidationIssue) → (no_errors normalize es ≡ true) ↔ (es ≡ [])
  unfolding no_errors
  no_errors_iff [] = (λ h. refl, λ h. refl)
  no_errors_iff (e ∷ es) = (λ h. cc, λ h. cc)

  -- A manifest is valid exactly if no two skills have the same normalized id, and in every skill the
  -- normalized triggers, at most 120 code units long, and allowed agents, at most 64 long, are not
  -- empty, have no control characters and are all different.
  pub validate_skill_manifest_iff :
      (manifest : SkillManifest)
      → ((validate_skill_manifest normalize manifest).valid ≡ true)
        ↔ (All SkillIsProper manifest.skills × Distinct (ids manifest.skills))
  unfolding validate_skill_manifest
  validate_skill_manifest_iff manifest =
      let none_found = no_errors_iff (skill_errors normalize [] manifest.skills) in
      let proper = skill_errors-nil [] manifest.skills in
      let fresh = Fresh-Distinct [] (ids manifest.skills) in
      (
        λ h. let k = proper.0 (none_found.0 h) in (k.0, (fresh.0 k.1).1),
        λ h. none_found.1 (proper.1 (h.0, fresh.1 (All-unseen (ids manifest.skills), h.1))),
      )
