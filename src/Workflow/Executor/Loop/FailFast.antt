-- ===== src/Workflow/Executor/Loop/FailFast.antt =====
-- The loop without `continueOnFailure` goes through the phases in order and leaves at the first
-- failure.
use agent_p.Common.{◌≡◌, refl, inl, inr, true, false, List, [], ◌∷◌, nat_eq, All, arith}
use agent_p.Common.Sorted.{Increasing-tail}
use agent_p.Workflow.Types.{PhasePlan}
use agent_p.Workflow.Results.{result_at, completed_result}
use agent_p.Workflow.Results.Ordering.{InOrder}
use agent_p.Workflow.Results.Progress.{IsDone}
use agent_p.Workflow.Executor.Env.{Env}
use agent_p.Workflow.Executor.State.{Job, Run, next, stop}
use agent_p.Workflow.Executor.Loop.{run_phase, run_phases}
use agent_p.Workflow.Executor.Loop.Rounds.{Leaves, run_phase-Leaves}
use agent_p.Workflow.Executor.Loop.PlanOrder.{
  InPlanOrder, SameOutside, Outcome-cases, later_excludes, SameOutside-cons, next_injective,
  stop_injective, StopsAt, StopsAt-here, StopsAt-cons, not_head,
}

module _ {World : Type 0} (env : Env World) (job : Job) where
  pub run_phases_next :
      (ps : List PhasePlan) (s t : Run World)
      → job.continue_on_failure ≡ false
      → InPlanOrder ps
      → InOrder s.results
      → run_phases env job ps s ≡ next t
      → All (IsDone t.results) ps × InOrder t.results × SameOutside ps s.results t.results
  unfolding run_phases
  run_phases_next [] s t fast inc sorted h = rw (← next_injective s t h) (tt, sorted, λ k out. refl)
  run_phases_next (p ∷ ps) s t fast inc sorted h = elim (Outcome-cases (run_phase env job p s)) [
    | inl (u, e) ↦
        let left : Leaves job p s.results (next u) =
          rw e at (run_phase-Leaves env job p s sorted) in
        let (done, kept, same) =
          run_phases_next ps u t fast (Increasing-tail (λ (q : PhasePlan). q.order) p ps inc)
            left.0.in_order (rw (e, run_phases) at h) in
        let here : completed_result (result_at p.order u.results) ≡ true = ground arith in
        (
          (rw (same p.order (later_excludes p ps inc)) here, done),
          kept,
          SameOutside-cons p ps s.results u.results t.results left.0 same,
        )
    | inr (inl (u, e)) ↦ ground arith
    | inr (inr (m, u, e)) ↦ ground arith
  ]

  -- Without `continueOnFailure`, if the loop comes to the end of the phases, whose orders rise, then
  -- each of them has a completed result, and the results stand in order, one for a phase at most.
  pub run_phases-completes :
      (ps : List PhasePlan) (s t : Run World)
      → job.continue_on_failure ≡ false
      → InPlanOrder ps
      → InOrder s.results
      → run_phases env job ps s ≡ next t
      → All (IsDone t.results) ps × InOrder t.results
  run_phases-completes ps s t fast inc sorted h =
      let (done, kept, _) = run_phases_next ps s t fast inc sorted h in (done, kept)

  pub run_phases_stop :
      (ps : List PhasePlan) (s t : Run World)
      → job.continue_on_failure ≡ false
      → InPlanOrder ps
      → InOrder s.results
      → run_phases env job ps s ≡ stop t
      → StopsAt ps s.results t.results × SameOutside ps s.results t.results
  unfolding run_phases
  run_phases_stop [] s t fast inc sorted h = ground arith
  run_phases_stop (p ∷ ps) s t fast inc sorted h = elim (Outcome-cases (run_phase env job p s)) [
    | inl (u, e) ↦
        let left : Leaves job p s.results (next u) =
          rw e at (run_phase-Leaves env job p s sorted) in
        let (at, same) =
          run_phases_stop ps u t fast (Increasing-tail (λ (q : PhasePlan). q.order) p ps inc)
            left.0.in_order (rw (e, run_phases) at h) in
        let here : completed_result (result_at p.order u.results) ≡ true = ground arith in
        (
          StopsAt-cons p ps s.results u.results t.results left.0 inc
              (rw (same p.order (later_excludes p ps inc)) here) at,
          SameOutside-cons p ps s.results u.results t.results left.0 same,
        )
    | inr (inl (u, e)) ↦
        let left : Leaves job p s.results (stop u) =
          rw e at (run_phase-Leaves env job p s sorted) in
        let same : u ≡ t = stop_injective u t (rw (e, run_phases) at h) in
        rw (← same) (
          StopsAt-here p ps s.results u.results left.0 inc left.1.0,
          λ k out. left.0.others k (not_head p ps k out),
        )
    | inr (inr (m, u, e)) ↦ ground arith
  ]

  -- Without `continueOnFailure`, if the loop over phases whose orders rise is left early, then it is
  -- left at the first failure: every phase before it has a completed result, the phase itself has a
  -- result that is not completed, and the results of the phases behind it are as they were.
  pub run_phases-StopsAt :
      (ps : List PhasePlan) (s t : Run World)
      → job.continue_on_failure ≡ false
      → InPlanOrder ps
      → InOrder s.results
      → run_phases env job ps s ≡ stop t
      → StopsAt ps s.results t.results
  run_phases-StopsAt ps s t fast inc sorted h = (run_phases_stop ps s t fast inc sorted h).0
