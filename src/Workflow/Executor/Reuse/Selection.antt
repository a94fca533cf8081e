-- ===== src/Workflow/Executor/Reuse/Selection.antt =====
-- What a reindex keeps of the results, and what a run takes over from another session.
use mathlib.Core.List.{Memᴰ}
use agent_p.Common.{
  refl, sym, ==_iff, ◌==◌, All-self, if_both, ℕ, ◌≡◌, Option, none, some, Bool, true, ◌&&◌, List,
  [], ◌∷◌, ltb, nat_eq, string_eq, keep_if, find, includes, if◌then◌else◌, All, arith, Bool-cases,
  inl, inr,
}
use agent_p.Workflow.Types.{
  Plan, PhasePlan, PhaseResult, PhaseStatus, Stage, stage_eq, RuntimeMetadata,
}
use agent_p.Workflow.Results.{result_at, is_completed}
use agent_p.Workflow.Executor.Reuse.{
  apply_from, apply_reindex_policy, select_cross_session_planning_phases, design_orders,
}

find_below :
    (start n : ℕ) (rs : List PhaseResult)
    → result_at n (keep_if (λ r. ltb r.order start) rs)
      ≡ (if ltb n start then result_at n rs else none)
unfolding keep_if find
find_below start n [] = ground arith
find_below start n (r ∷ rs) = ground (arith, find_below start n rs)

-- Where a reindex is asked for from the order `start` on, the results that are kept are those of the
-- orders below it, unchanged; at `start` and above there is none, so that these phases run again.
apply_reindex_policy-result_at :
    (rs : List PhaseResult) (m : RuntimeMetadata) {start : ℕ}
    → m.reindex.requested ≡ true
    → m.reindex.start_phase_order ≡ some start
    → (n : ℕ)
    → result_at n (apply_reindex_policy rs m).0 ≡ (if ltb n start then result_at n rs else none)
unfolding apply_reindex_policy
apply_reindex_policy-result_at rs m {start} asked from n = rw (asked, from) (find_below start n rs)

-- A completed result at the order of a phase that the plan has in its design stage.
abbrev pub IsPlanningResult : Plan → PhaseResult → Type 0
IsPlanningResult plan r =
    (r.status ≡ PhaseStatus.completed)
    × ((p : PhasePlan) × Memᴰ p plan.phases × (p.stage ≡ Stage.design) × (p.order ≡ r.order))

design_orders_sound :
    (all : List PhasePlan) (n : ℕ) (ps : List PhasePlan)
    → All (λ p. Memᴰ p all) ps
    → includes (design_orders ps) n ≡ true
    → (p : PhasePlan) × Memᴰ p all × (p.stage ≡ Stage.design) × (p.order ≡ n)
unfolding design_orders includes
design_orders_sound all n [] h e = cc
design_orders_sound all n (p ∷ ps) (m, h) e = elim (Bool-cases (p.stage == Stage.design)) [
  | inr f ↦ design_orders_sound all n ps h (rw f at e)
  | inl t ↦ elim (Bool-cases (n == p.order)) [
    | inl same ↦ (p, m, (==_iff p.stage Stage.design).0 t, sym ((==_iff n p.order).0 same))
    | inr other ↦ design_orders_sound all n ps h (rw (t, other) at e)
  ]
]

is_completed_of : (s : PhaseStatus) → is_completed s ≡ true → s ≡ PhaseStatus.completed
is_completed_of PhaseStatus.completed e = refl
is_completed_of PhaseStatus.failed e = cc

All-keep_if :
    {A : Type 0} (P : A → Type 0) (p : A → Bool) (xs : List A)
    → ((x : A) → p x ≡ true → P x)
    → All P (keep_if p xs)
unfolding keep_if
All-keep_if P p [] f = tt
All-keep_if P p (x ∷ xs) f = elim (Bool-cases (p x)) [
  | inl e ↦ rw e (f x e, All-keep_if P p xs f)
  | inr e ↦ rw e (All-keep_if P p xs f)
]

All-kept :
    {A : Type 0} (P : A → Type 0) (p : A → Bool) (xs : List A) → All P xs → All P (keep_if p xs)
unfolding keep_if
All-kept P p [] h = tt
All-kept P p (x ∷ xs) (h, hs) = elim (Bool-cases (p x)) [
  | inl e ↦ rw e (h, All-kept P p xs hs)
  | inr e ↦ rw e (All-kept P p xs hs)
]

pub select-IsPlanningResult :
    (plan : Plan) (rs : List PhaseResult)
    → All (IsPlanningResult plan) (select_cross_session_planning_phases plan rs)
unfolding select_cross_session_planning_phases
select-IsPlanningResult plan rs =
    All-keep_if (IsPlanningResult plan)
      (λ r. is_completed r.status && includes (design_orders plan.phases) r.order) rs
      (λ r h.
        let (done, listed) : (is_completed r.status ≡ true)
            × (includes (design_orders plan.phases) r.order ≡ true) =
          ground arith in
        (
          is_completed_of r.status done,
          design_orders_sound plan.phases r.order plan.phases (All-self plan.phases) listed,
        ))

apply_from-All :
    (P : PhaseResult → Type 0) (rs : List PhaseResult) (m : RuntimeMetadata) (start : Option ℕ)
    → All P rs
    → All P (apply_from start rs m).0
unfolding apply_from
apply_from-All P rs m none h = h
apply_from-All P rs m (some start) h = All-kept P (λ r. ltb r.order start) rs h

pub apply_reindex_policy-All :
    (P : PhaseResult → Type 0) (rs : List PhaseResult) (m : RuntimeMetadata)
    → All P rs
    → All P (apply_reindex_policy rs m).0
unfolding apply_reindex_policy
apply_reindex_policy-All P rs m h =
    if_both (λ (r : List PhaseResult × RuntimeMetadata). All P r.0) m.reindex.requested _ _
      (apply_from-All P rs m m.reindex.start_phase_order h) h
