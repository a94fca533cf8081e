-- ===== src/Workflow/Results/Progress.antt =====
-- How far the results of a plan have come: `nextPhaseOrderFromPlan` and `checkpointStatusFor`.
use agent_p.Common.{
  ℕ, ◌+◌, ◌≤◌, ◌≡◌, refl, ap, ◌∙◌, ◌⊎◌, inl, inr, some, true, false, List, [], ◌∷◌, ◌++◌, nat_eqb,
  arith, All, All-map, All-both, All-middle, length, includes, keep_if, Bool-cases, nat_eq,
}
use agent_p.Common.Sorted.{at_key_self}
use agent_p.Workflow.Types.{PhasePlan, Plan, PhaseResult, CheckpointStatus}
use agent_p.Workflow.Results.{
  order_of, is_completed, completed_result, result_at, first_open, next_phase_order_from_plan,
  compute_failures, checkpoint_status_for,
}
use agent_p.Workflow.Results.Ordering.{InOrder}

abbrev pub IsDone : List PhaseResult → PhasePlan → Type 0
IsDone rs p = completed_result (result_at p.order rs) ≡ true

-- The phase `p` of the plan is the first with no completed result.
pub record IsFirstOpen (ps : List PhasePlan) (rs : List PhaseResult) (p : PhasePlan) : Type 0 where
  pub done : List PhasePlan
  pub later : List PhasePlan
  pub split : ps ≡ done ++ p ∷ later
  pub all_done : All (IsDone rs) done
  pub open_here : completed_result (result_at p.order rs) ≡ false

first_open_cases :
    (end : ℕ) (ps : List PhasePlan) (rs : List PhaseResult)
    → (All (IsDone rs) ps × (first_open end ps rs ≡ end))
      ⊎ ((p : PhasePlan) × IsFirstOpen ps rs p × (first_open end ps rs ≡ p.order))
unfolding first_open
first_open_cases end [] rs = inl (tt, refl)
first_open_cases end (p ∷ ps) rs = elim (Bool-cases (completed_result (result_at p.order rs))) [
  | inl done ↦ elim (first_open_cases end ps rs) [
    | inl (all, e) ↦ inl ((done, all), rw done e)
    | inr (q, f, e) ↦ inr (
      q,
      record {
        done = p ∷ f.done;
        later = f.later;
        split = ap (λ l. p ∷ l) f.split;
        all_done = (done, f.all_done);
        open_here = f.open_here;
      },
      rw done e,
    )
  ]
  | inr here ↦
      inr (
        p,
        record { done = []; later = ps; split = refl; all_done = tt; open_here = here },
        rw here,
      )
]

-- The next phase order is the order of the first phase of the plan with no completed result, all
-- phases before it having one; it is one past the number of phases if all are completed.
pub next_phase_order_from_plan_cases :
    (plan : Plan) (rs : List PhaseResult)
    → (All (IsDone rs) plan.phases × (next_phase_order_from_plan plan rs ≡ length plan.phases + 1))
      ⊎ ((p : PhasePlan) × IsFirstOpen plan.phases rs p
          × (next_phase_order_from_plan plan rs ≡ p.order))
unfolding next_phase_order_from_plan
next_phase_order_from_plan_cases plan rs = first_open_cases (length plan.phases + 1) plan.phases rs

first_open_behind :
    (end : ℕ) (done : List PhasePlan) (p : PhasePlan) (later : List PhasePlan)
    (rs : List PhaseResult)
    → All (IsDone rs) done
    → completed_result (result_at p.order rs) ≡ false
    → first_open end (done ++ p ∷ later) rs ≡ p.order
unfolding first_open
first_open_behind end [] p later rs d f = rw f
first_open_behind end (q ∷ qs) p later rs (d, ds) f =
    rw d (first_open_behind end qs p later rs ds f)

pub next_phase_order-behind :
    (plan : Plan) (rs : List PhaseResult) (done : List PhasePlan) (p : PhasePlan)
    (later : List PhasePlan)
    → plan.phases ≡ done ++ p ∷ later
    → All (IsDone rs) done
    → completed_result (result_at p.order rs) ≡ false
    → next_phase_order_from_plan plan rs ≡ p.order
unfolding next_phase_order_from_plan
next_phase_order-behind plan rs done p later split d f =
    ap (λ ps. first_open (length plan.phases + 1) ps rs) split
    ∙ first_open_behind (length plan.phases + 1) done p later rs d f

abbrev pub orders : List PhasePlan → List ℕ
orders [] = []
orders (p ∷ ps) = p.order ∷ orders ps

-- The orders of the plan are at most its length, as those of the engine's plans are.
abbrev pub HasSmallOrders : Plan → Type 0
HasSmallOrders plan = All (λ p. p.order ≤ length plan.phases) plan.phases

-- Each result stands for a phase of the plan.
abbrev pub BelongsTo : Plan → List PhaseResult → Type 0
BelongsTo plan = All (λ r. includes (orders plan.phases) r.order ≡ true)

done_at :
    (ps : List PhasePlan) (rs : List PhaseResult) (n : ℕ)
    → All (IsDone rs) ps
    → includes (orders ps) n ≡ true
    → completed_result (result_at n rs) ≡ true
unfolding includes
done_at [] rs n h m = cc
done_at (p ∷ ps) rs n (d, h) m = elim (Bool-cases (nat_eqb n p.order)) [
  | inl same ↦ let e : n ≡ p.order = ground arith in rw e d
  | inr other ↦ done_at ps rs n h (ground arith)
]

no_failure :
    (rs : List PhaseResult) → All (λ r. is_completed r.status ≡ true) rs → compute_failures rs ≡ []
unfolding compute_failures keep_if
no_failure [] h = refl
no_failure (r ∷ rs) h = ground (arith, no_failure rs h.1)

pub compute_failures_finished :
    (plan : Plan) (rs : List PhaseResult)
    → InOrder rs
    → BelongsTo plan rs
    → All (IsDone rs) plan.phases
    → compute_failures rs ≡ []
compute_failures_finished plan rs sorted belongs done = no_failure rs (
    All-map rs (λ r k. rw k.0 at (done_at plan.phases rs r.order done k.1))
      (All-both (λ r. result_at r.order rs ≡ some r)
        (λ r. includes (orders plan.phases) r.order ≡ true) rs (at_key_self order_of rs sorted)
        belongs))

-- For results of a plan with small orders, at most one for each phase, the checkpoint is completed
-- if every phase has a completed result, and then no result is a failure; otherwise it is in
-- progress at the first open phase. The status failed is never given to such results.
pub checkpoint_status_for_cases :
    (plan : Plan) (rs : List PhaseResult)
    → HasSmallOrders plan
    → InOrder rs
    → BelongsTo plan rs
    → ((checkpoint_status_for plan rs ≡ CheckpointStatus.completed)
        × All (IsDone rs) plan.phases
        × (compute_failures rs ≡ []))
      ⊎ ((checkpoint_status_for plan rs ≡ CheckpointStatus.in_progress)
          × ((p : PhasePlan) × IsFirstOpen plan.phases rs p))
unfolding checkpoint_status_for
checkpoint_status_for_cases plan rs small sorted belongs =
    elim (next_phase_order_from_plan_cases plan rs) [
      | inl (done, e) ↦
          let clean = compute_failures_finished plan rs sorted belongs done in
          inl (ground arith, done, clean)
      | inr (p, f, e) ↦
          let fits =
            All-middle (λ (q : PhasePlan). q.order ≤ length plan.phases) f.done p f.later
              (rw (← f.split) small) in
          inr (ground arith, (p, f))
    ]
