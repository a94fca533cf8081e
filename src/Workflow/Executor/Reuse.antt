-- ===== src/Workflow/Executor/Reuse.antt =====
-- Which checkpoint a run starts from and what it keeps of it: `isReusableCheckpoint`,
-- `resolveReusableCheckpoint`, `selectCrossSessionPlanningPhases` and `applyReindexPolicy`
-- (src/workflow/executor.ts).
pub mod Matching
pub mod Selection
use agent_p.Common.{
  ℕ, String, Option, none, some, Bool, true, false, not, ◌&&◌, ◌||◌, List, [], ◌∷◌, Result, ok, err,
  leb, ltb, nat_eqb, ◌==◌, string_eq, nat_eq, keep_if, includes, length, if◌then◌else◌,
}
use agent_p.Agents.Types.{role_eq}
use agent_p.Workflow.Types.{
  Stage, Phase, PhasePlan, Plan, PhaseResult, RuntimeMetadata, Checkpoint, mode_eq, effective_eq,
  analysis_eq, stage_eq, phase_eq,
}
use agent_p.Workflow.Results.{has_hint_drift, is_completed}
use agent_p.Workflow.Executor.Env.{Env, Store}

same_phase : PhasePlan → PhasePlan → Bool
same_phase p q =
    p.order == q.order && p.stage == q.stage && p.phase == q.phase && p.agent == q.agent

-- `every` over the first list, with the second read at the same index.
every_phase : List PhasePlan → List PhasePlan → Bool
unfolding same_phase
every_phase [] qs = true
every_phase (p ∷ ps) [] = false
every_phase (p ∷ ps) (q ∷ qs) = same_phase p q && every_phase ps qs

every_skipped : List Phase → List Phase → Bool
every_skipped [] qs = true
every_skipped (p ∷ ps) [] = false
every_skipped (p ∷ ps) (q ∷ qs) = p == q && every_skipped ps qs

unfoldable pub is_reusable_checkpoint : Checkpoint → Plan → List String → List String → Bool
unfolding every_phase every_skipped
is_reusable_checkpoint c plan file_paths domains =
    let same_phase_shape =
      nat_eqb (length c.plan.phases) (length plan.phases)
      && every_phase c.plan.phases plan.phases in
    let same_skipped_phases =
      nat_eqb (length c.plan.skipped_phases) (length plan.skipped_phases)
      && every_skipped c.plan.skipped_phases plan.skipped_phases in
    let same_complexity =
      nat_eqb c.plan.complexity.file_count plan.complexity.file_count
      && nat_eqb c.plan.complexity.pattern_count plan.complexity.pattern_count in
    c.plan.query == plan.query
    && c.plan.workflow_mode == plan.workflow_mode
    && c.plan.effective_workflow_mode == plan.effective_workflow_mode
    && c.plan.analysis_mode == plan.analysis_mode
    && same_complexity
    && same_phase_shape
    && same_skipped_phases
    && not (has_hint_drift file_paths c.context.file_paths)
    && not (has_hint_drift domains c.context.domains)

reusable : Option Checkpoint → Plan → List String → List String → Option Checkpoint
unfolding is_reusable_checkpoint
reusable none plan file_paths domains = none
reusable (some c) plan file_paths domains =
    if is_reusable_checkpoint c plan file_paths domains then some c else none

module _ {World : Type 0} where
  reusable_result :
      Plan
      → List String
      → List String
      → Result (Option Checkpoint) × World
      → Result (Option Checkpoint) × World
  unfolding reusable
  reusable_result plan file_paths domains (ok c, w) = (ok (reusable c plan file_paths domains), w)
  reusable_result plan file_paths domains (err m, w) = (err m, w)

  cross_session :
      Option (Plan → World → Result (Option Checkpoint) × World)
      → Plan
      → World
      → Result (Option Checkpoint) × World
  cross_session none plan w = (ok none, w)
  cross_session (some load) plan w = load plan w

  -- The checkpoint of another session, where the session's own one does not serve.
  or_cross_session :
      Store World
      → Plan
      → List String
      → List String
      → Result (Option Checkpoint) × World
      → Result (Option Checkpoint) × World
  unfolding reusable_result cross_session
  or_cross_session store plan file_paths domains (ok (some c), w) = (ok (some c), w)
  or_cross_session store plan file_paths domains (err m, w) = (err m, w)
  or_cross_session store plan file_paths domains (ok none, w) =
      reusable_result plan file_paths domains (cross_session store.load_reusable plan w)

  unfoldable pub resolve_reusable_checkpoint :
      Store World → Plan → List String → List String → World → Result (Option Checkpoint) × World
  unfolding or_cross_session reusable_result
  resolve_reusable_checkpoint store plan file_paths domains w =
      or_cross_session store plan file_paths domains
        (reusable_result plan file_paths domains (store.load plan.session_id w))

unfoldable pub design_orders : List PhasePlan → List ℕ
design_orders [] = []
design_orders (p ∷ ps) =
    let rest = design_orders ps in if p.stage == Stage.design then p.order ∷ rest else rest

unfoldable pub select_cross_session_planning_phases : Plan → List PhaseResult → List PhaseResult
unfolding design_orders
select_cross_session_planning_phases plan =
    keep_if (λ r. is_completed r.status && includes (design_orders plan.phases) r.order)

apply_from : Option ℕ → List PhaseResult → RuntimeMetadata → List PhaseResult × RuntimeMetadata
apply_from none rs m = (rs, m)
apply_from (some start) rs m =
    let filtered = keep_if (λ r. ltb r.order start) rs in
    (
      filtered,
      record m {
        reindex = record m.reindex {
          applied = ltb (length filtered) (length rs) || m.reindex.applied;
        };
      },
    )

-- The results that a reindex keeps, and the runtime with `applied` set if it dropped any.
unfoldable pub apply_reindex_policy :
    List PhaseResult → RuntimeMetadata → List PhaseResult × RuntimeMetadata
unfolding apply_from
apply_reindex_policy rs m =
    if m.reindex.requested then apply_from m.reindex.start_phase_order rs m else (rs, m)
