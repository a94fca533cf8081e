-- ===== src/Workflow/Executor/Execute/Fresh.antt =====
-- A run that starts with no results, over a store that always saves.
use agent_p.Common.{
  ℕ, ◌≡◌, ◌≢◌, refl, ◌⊎◌, inl, inr, some, Bool, true, false, List, [], ◌∷◌, Result, ok, err, All,
  All-map, includes, nat_eq, keep_if, find, arith,
}
use agent_p.Common.Sorted.{at_key_self, sort_by, sort_by_of_Increasing}
use agent_p.Workflow.Types.{
  PhasePlan, PhaseResult, PhaseStatus, RuntimeContext, RuntimeMetadata, ExecutionResult,
}
use agent_p.Workflow.Results.{order_of, result_at, completed_result, is_completed, compute_failures}
use agent_p.Workflow.Results.Ordering.{InOrder}
use agent_p.Workflow.Results.Progress.{
  IsDone, orders, compute_failures_finished, BelongsTo, next_phase_order-behind,
}
use agent_p.Workflow.Executor.Env.{Env}
use agent_p.Workflow.Executor.State.{Job, Run, save_checkpoint}
use agent_p.Workflow.Executor.Loop.{run_phases}
use agent_p.Workflow.Executor.Loop.PlanOrder.{InPlanOrder, StopsAt, SameOutside}
use agent_p.Workflow.Executor.Loop.FailFast.{run_phases_next, run_phases-StopsAt}
use agent_p.Workflow.Executor.Loop.Attempts.{SavesAlways}
use agent_p.Workflow.Executor.Loop.Counting.{run_phases_returns}
use agent_p.Workflow.Executor.Execute.{
  first_phase, status_of, first_run, execution_result, after_last_save, finish_run,
  execute_internal,
}

-- Every phase of the plan has a completed result, and the result says so.
pub record Succeeded (job : Job) (r : ExecutionResult) : Type 0 where
  pub status : r.status ≡ PhaseStatus.completed
  pub done : All (IsDone r.phases) job.plan.phases
  pub no_failures : r.failures ≡ []

-- The run was left at its first failure, the result says so, and it names that phase as the one to
-- go on from.
pub record FailedAt (job : Job) (r : ExecutionResult) : Type 0 where
  pub status : r.status ≡ PhaseStatus.failed
  pub left : StopsAt job.plan.phases [] r.phases
  pub resume_at : r.resume.next_phase_order ≡ left.failed.order

results-BelongsTo :
    (job : Job) (rs : List PhaseResult)
    → InOrder rs
    → SameOutside job.plan.phases [] rs
    → BelongsTo job.plan rs
unfolding find
results-BelongsTo job rs sorted same =
    All-map rs (λ r found. belongs r found (includes (orders job.plan.phases) r.order) refl)
      (at_key_self order_of rs sorted)
  where
    belongs :
        (r : PhaseResult)
        → result_at r.order rs ≡ some r
        → (b : Bool) → includes (orders job.plan.phases) r.order ≡ b
        → includes (orders job.plan.phases) r.order ≡ true
    belongs r found true e = e
    belongs r found false e = cc (same r.order e, found)

-- A result that is found and is not completed is a failure.
failure_of :
    (n : ℕ) (rs : List PhaseResult) (r : PhaseResult)
    → result_at n rs ≡ some r
    → is_completed r.status ≡ false
    → compute_failures rs ≢ []
unfolding compute_failures keep_if find
failure_of n [] r found f = cc
failure_of n (q ∷ qs) r found f = ground (arith, failure_of n qs r)

none_open : (ps : List PhasePlan) → All (λ q. completed_result (result_at q.order []) ≡ false) ps
unfolding find
none_open [] = tt
none_open (p ∷ ps) = (refl, none_open ps)

failed_status : (rs : List PhaseResult) → rs ≢ [] → status_of (first_phase rs) ≡ PhaseStatus.failed
unfolding status_of first_phase
failed_status [] h = absurd (h refl)
failed_status (r ∷ rs) h = refl

module _ {World : Type 0} (env : Env World) (job : Job) (resumed : Bool) where
  execution_result-Succeeded :
      (t : Run World)
      → All (IsDone t.results) job.plan.phases
      → InOrder t.results
      → SameOutside job.plan.phases [] t.results
      → Succeeded job (execution_result job resumed t.results t.runtime)
  unfolding execution_result
  execution_result-Succeeded t done sorted same =
      let clean =
        compute_failures_finished job.plan t.results sorted
          (results-BelongsTo job t.results sorted same) done in
      record { status = rw clean; done = done; no_failures = clean }

  execution_result-FailedAt :
      (t : Run World)
      → StopsAt job.plan.phases [] t.results
      → FailedAt job (execution_result job resumed t.results t.runtime)
  unfolding execution_result
  execution_result-FailedAt t at = record {
    status =
        failed_status (compute_failures t.results)
          (failure_of at.failed.order t.results at.result at.found at.not_done);
    left = at;
    resume_at =
        next_phase_order-behind job.plan t.results at.done at.failed at.later at.split at.all_done
          (rw at.found at.not_done);
  }

  last_save :
      (t : Run World) (saved : Result (Unit {0}) × World)
      → saved.0 ≡ ok tt
      → (w : World) × (after_last_save env job resumed t saved
          ≡ (ok (execution_result job resumed t.results t.runtime), w))
  unfolding after_last_save
  last_save t (ok u, w) e = (w, refl)
  last_save t (err m, w) e = cc

  finish_run_ok :
      (t : Run World)
      → SavesAlways env
      → (w : World) × (after_last_save env job resumed t (save_checkpoint env job t)
          ≡ (ok (execution_result job resumed t.results t.runtime), w))
  finish_run_ok t saves = last_save t (save_checkpoint env job t) (saves job t)

  loop_returns :
      (ps : List PhasePlan) (s : Run World)
      → ps ≡ job.plan.phases
      → SavesAlways env
      → job.continue_on_failure ≡ false
      → InPlanOrder job.plan.phases
      → s.results ≡ []
      → (r : ExecutionResult) × (w' : World) × (finish_run env job resumed (run_phases env job ps s)
          ≡ (ok r, w'))
        × (Succeeded job r ⊎ FailedAt job r)
  unfolding finish_run
  loop_returns ps s sorted saves fast inc fresh =
      let empty : InOrder s.results = rw fresh tt in
      elim (run_phases_returns env job job.plan.phases s saves inc empty
        (rw fresh (none_open job.plan.phases))) [
          | inl (t, e) ↦
              let (done, kept, same) =
                run_phases_next env job job.plan.phases s t fast inc empty e in
              let (w', last) = finish_run_ok t saves in
              (
                _,
                w',
                rw (sorted, e) last,
                inl (execution_result-Succeeded t done kept (rw fresh at same)),
              )
          | inr (t, e) ↦
              let at = run_phases-StopsAt env job job.plan.phases s t fast inc empty e in
              let (w', last) = finish_run_ok t saves in
              (_, w', rw (sorted, e) last, inr (execution_result-FailedAt t (rw fresh at at)))
        ]

  -- Over a store that always saves, for a plan whose orders rise and without `continueOnFailure`, a
  -- run that starts with no results always returns a result, and there are two cases. It is
  -- completed: every phase of the plan has a completed result and there is no failure. Or it is
  -- failed: every phase before some phase of the plan is completed, that phase has a result that is
  -- not completed and is the one to go on from, and the phases behind it have no result.
  pub execute_internal-returns :
      (c : RuntimeContext) (m : RuntimeMetadata) (w : World)
      → SavesAlways env
      → job.continue_on_failure ≡ false
      → InPlanOrder job.plan.phases
      → (r : ExecutionResult) × (w' : World) × (execute_internal env job resumed
            (record { results = []; context = c; runtime = m })
            w
          ≡ (ok r, w'))
        × (Succeeded job r ⊎ FailedAt job r)
  unfolding execute_internal
  execute_internal-returns c m w saves fast inc =
      loop_returns (sort_by (λ (p : PhasePlan). p.order) job.plan.phases)
        (first_run (record { results = []; context = c; runtime = m }) w)
        (sort_by_of_Increasing (λ (p : PhasePlan). p.order) job.plan.phases inc) saves fast inc refl
