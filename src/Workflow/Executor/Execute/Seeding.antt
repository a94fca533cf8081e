-- ===== src/Workflow/Executor/Execute/Seeding.antt =====
-- What a run takes over from a checkpoint.
use agent_p.Common.{
  ◌≡◌, Bool, true, false, List, map, Result, ok, err, ◌==◌, string_eq, All, if◌then◌else◌,
}
use agent_p.Workflow.Types.{Plan, PhaseResult, RuntimeMetadata, RuntimeContext, Checkpoint}
use agent_p.Workflow.Results.{normalize_phase_result, sort_by_order}
use agent_p.Workflow.Executor.Env.{Env}
use agent_p.Workflow.Executor.Context.{rebuild_context_from_phase_artifacts}
use agent_p.Workflow.Executor.Reuse.{apply_reindex_policy, select_cross_session_planning_phases}
use agent_p.Workflow.Executor.Reuse.Selection.{
  IsPlanningResult, select-IsPlanningResult, apply_reindex_policy-All,
}
use agent_p.Workflow.Executor.Execute.{Start, started, merge_context, seed_run}

module _ {World : Type 0} (env : Env World) where
  started-results :
      (P : PhaseResult → Type 0) (rs : List PhaseResult) (m : RuntimeMetadata)
      (c : Result RuntimeContext) (t : Start)
      → All P rs
      → started env rs m c ≡ ok t
      → All P t.results
  unfolding started
  started-results P rs m (ok c) t h e =
      let same : t ≡ (record { results = rs; context = c; runtime = m }) = cc in rw same h
  started-results P rs m (err x) t h e = cc

  seeded_results :
      (same : Bool) (plan : Plan) (s t : Start) (c : Checkpoint) (rs : List PhaseResult)
      (f : List PhaseResult → Result RuntimeContext)
      → same ≡ false
      → (let (results, runtime) =
            apply_reindex_policy
              (if same then rs else select_cross_session_planning_phases plan rs)
              s.runtime in
          started env results runtime (f results))
        ≡ ok t
      → All (IsPlanningResult plan) t.results
  seeded_results true plan s t c rs f other h = cc
  seeded_results false plan s t c rs f other h =
      let kept = apply_reindex_policy (select_cross_session_planning_phases plan rs) s.runtime in
      started-results (IsPlanningResult plan) kept.0 kept.1 (f kept.0) t
        (apply_reindex_policy-All (IsPlanningResult plan)
          (select_cross_session_planning_phases plan rs) s.runtime
          (select-IsPlanningResult plan rs))
        h

  -- From a checkpoint of another session a run takes over only completed results of phases that are
  -- of the design stage in its own plan.
  pub seed_run-IsPlanningResult :
      (plan : Plan) (s t : Start) (c : Checkpoint)
      → (c.session_id == plan.session_id) ≡ false
      → seed_run env plan s c ≡ ok t
      → All (IsPlanningResult plan) t.results
  unfolding seed_run
  seed_run-IsPlanningResult plan s t c other h =
      seeded_results (c.session_id == plan.session_id) plan s t c
        (map normalize_phase_result (sort_by_order c.phases))
        (λ results. merge_context env s.context (
          if c.session_id == plan.session_id
          then ok c.context
          else rebuild_context_from_phase_artifacts plan results s.context))
        other h
