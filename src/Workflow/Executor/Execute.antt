-- ===== src/Workflow/Executor/Execute.antt =====
-- `execute`, `resumeFromCheckpoint` and the frame of `executeInternal` (src/workflow/executor.ts).
pub mod Fresh
pub mod Seeding
use agent_p.Common.{
  ℕ, String, Option, none, some, Bool, true, false, ◌&&◌, List, [], ◌∷◌, ◌++◌, map, Result, ok, err,
  or_else, dedupe, string_eq, ◌==◌, if◌then◌else◌,
}
use Prim.Native.String.{◌++◌ as str_append}
use agent_p.Common.Sorted.{sort_by}
use agent_p.Agents.Types.{TrustInput}
use agent_p.Workflow.Types.{
  Phase, PhasePlan, Plan, PhaseResult, PhaseStatus, RuntimeContext, RuntimeMetadata, Checkpoint,
  ExecutionRequest, ExecutionResult,
}
use agent_p.Workflow.Results.{
  compute_completed_phases, compute_failures, normalize_phase_result, sort_by_order,
  default_runtime_metadata, next_phase_order_from_plan, checkpoint_status_for,
}
use agent_p.Workflow.Executor.Env.{Env, Store}
use agent_p.Workflow.Executor.Context.{rebuild_context_from_phase_artifacts}
use agent_p.Workflow.Executor.State.{Job, Run, Outcome, next, stop, thrown, save_checkpoint}
use agent_p.Workflow.Executor.Loop.{run_phases}
use agent_p.Workflow.Executor.Reuse.{
  resolve_reusable_checkpoint, select_cross_session_planning_phases, apply_reindex_policy,
}

first_phase : List PhaseResult → Option Phase
first_phase [] = none
first_phase (r ∷ rs) = some r.phase

status_of : Option Phase → PhaseStatus
status_of none = PhaseStatus.completed
status_of (some p) = PhaseStatus.failed

-- What `executeInternal` returns, from the results and the runtime after the loop.
unfoldable pub execution_result : Job → Bool → List PhaseResult → RuntimeMetadata → ExecutionResult
unfolding first_phase status_of
execution_result job resumed rs runtime =
    let failures = compute_failures rs in
    let failed_phase = first_phase failures in
    record {
      session_id = job.plan.session_id;
      query = job.plan.query;
      workflow_mode = job.plan.workflow_mode;
      effective_workflow_mode = job.plan.effective_workflow_mode;
      analysis_mode = job.plan.analysis_mode;
      status = status_of failed_phase;
      phases = rs;
      completed_phases = compute_completed_phases rs;
      failures = failures;
      failed_phase = failed_phase;
      resume = record {
        resumed = resumed;
        session_id = job.plan.session_id;
        next_phase_order = next_phase_order_from_plan job.plan rs;
        checkpoint_status = checkpoint_status_for job.plan rs;
      };
      runtime = runtime;
    }

-- What a run starts from.
pub record Start : Type 0 where
  pub results : List PhaseResult
  pub context : RuntimeContext
  pub runtime : RuntimeMetadata

-- The variables of the loop at its start.
pub first_run : {World : Type 0} → Start → World → Run World
first_run s w = record {
  results = s.results;
  context = record s.context {
    file_paths = dedupe s.context.file_paths;
    domains = dedupe s.context.domains;
  };
  runtime = s.runtime;
  world = w;
}

module _ {World : Type 0} (env : Env World) where
  unfoldable pub after_last_save :
      Job → Bool → Run World → Result (Unit {0}) × World → Result ExecutionResult × World
  unfolding execution_result
  after_last_save job resumed s (ok _, w) =
      (ok (execution_result job resumed s.results s.runtime), w)
  after_last_save job resumed s (err m, w) = (err m, w)

  -- After the loop the checkpoint is saved once more.
  unfoldable pub finish_run : Job → Bool → Outcome World → Result ExecutionResult × World
  unfolding after_last_save save_checkpoint
  finish_run job resumed (next s) = after_last_save job resumed s (save_checkpoint env job s)
  finish_run job resumed (stop s) = after_last_save job resumed s (save_checkpoint env job s)
  finish_run job resumed (thrown m s) = (err m, s.world)

  unfoldable pub execute_internal : Job → Bool → Start → World → Result ExecutionResult × World
  unfolding finish_run run_phases first_run
  execute_internal job resumed s w =
      finish_run job resumed
        (run_phases env job (sort_by (λ (p : PhasePlan). p.order) job.plan.phases) (first_run s w))

  unfoldable pub resume_loaded :
      ExecutionRequest
      → String
      → Result (Option Checkpoint) × World
      → Result ExecutionResult × World
  unfolding execute_internal apply_reindex_policy
  resume_loaded r session (err m, w) = (err m, w)
  resume_loaded r session (ok none, w) =
      (err (str_append "No workflow checkpoint found for session '" (str_append session "'")), w)
  resume_loaded r session (ok (some c), w) =
      let fresh =
        default_runtime_metadata (or_else r.use_cache true) (or_else r.reindex false) c.plan in
      let (results, runtime) =
        apply_reindex_policy (map normalize_phase_result (sort_by_order c.phases)) fresh in
      execute_internal
        (record {
          plan = c.plan;
          continue_on_failure = or_else r.continue_on_failure c.continue_on_failure;
          trust_input = r.verifier_trust_input;
        })
        true (record { results = results; context = c.context; runtime = runtime }) w

  unfoldable pub resume_from_checkpoint :
      Option (Store World) → ExecutionRequest → String → World → Result ExecutionResult × World
  unfolding resume_loaded
  resume_from_checkpoint none r session w = (err "Workflow checkpoint store is not configured", w)
  resume_from_checkpoint (some store) r session w = resume_loaded r session (store.load session w)

  merge_context : RuntimeContext → Result RuntimeContext → Result RuntimeContext
  merge_context asked (ok seeded) = ok (record seeded {
    file_paths = dedupe (seeded.file_paths ++ asked.file_paths);
    domains = dedupe (seeded.domains ++ asked.domains);
  })
  merge_context asked (err m) = err m

  started : List PhaseResult → RuntimeMetadata → Result RuntimeContext → Result Start
  started results runtime (ok c) = ok (record { results = results; context = c; runtime = runtime })
  started results runtime (err m) = err m

  -- What a run takes over from the checkpoint `c`.
  unfoldable pub seed_run : Plan → Start → Checkpoint → Result Start
  unfolding merge_context started apply_reindex_policy select_cross_session_planning_phases
  seed_run plan s c =
      let normalized = map normalize_phase_result (sort_by_order c.phases) in
      let same_session = c.session_id == plan.session_id in
      let eligible =
        if same_session then normalized else select_cross_session_planning_phases plan normalized in
      let (results, runtime) = apply_reindex_policy eligible s.runtime in
      let seeded =
        if same_session
        then ok c.context
        else rebuild_context_from_phase_artifacts plan results s.context in
      started results runtime (merge_context s.context seeded)

  seed_found : Plan → Start → Result (Option Checkpoint) × World → Result Start × World
  unfolding seed_run
  seed_found plan s (ok none, w) = (ok s, w)
  seed_found plan s (ok (some c), w) = (seed_run plan s c, w)
  seed_found plan s (err m, w) = (err m, w)

  seed_from : Option (Store World) → Bool → Plan → Start → World → Result Start × World
  unfolding seed_found resolve_reusable_checkpoint
  seed_from none use_cache plan s w = (ok s, w)
  seed_from (some store) use_cache plan s w =
      if use_cache
      then seed_found plan s
          (resolve_reusable_checkpoint store plan s.context.file_paths s.context.domains w)
      else (ok s, w)

  run_seeded : Job → Result Start × World → Result ExecutionResult × World
  unfolding execute_internal
  run_seeded job (ok s, w) = execute_internal job false s w
  run_seeded job (err m, w) = (err m, w)

  execute_plan : ExecutionRequest → Option Plan → World → Result ExecutionResult × World
  unfolding run_seeded seed_from
  execute_plan r none w = (err "Workflow execution requires a plan for non-resume runs", w)
  execute_plan r (some plan) w =
      let use_cache = or_else r.use_cache true in
      run_seeded
        (record {
          plan = plan;
          continue_on_failure = or_else r.continue_on_failure false;
          trust_input = r.verifier_trust_input;
        })
        (seed_from env.store use_cache plan
          (record {
            results = [];
            context = record {
              file_paths = dedupe (or_else r.file_paths []);
              domains = dedupe (or_else r.domains []);
              analysis = none;
              parent_handoff_id = none;
            };
            runtime = default_runtime_metadata use_cache (or_else r.reindex false) plan;
          })
          w)

  execute_request : ExecutionRequest → Option String → World → Result ExecutionResult × World
  unfolding execute_plan resume_from_checkpoint
  execute_request r (some session) w = resume_from_checkpoint env.store r session w
  execute_request r none w = execute_plan r r.plan w

  unfoldable pub execute : ExecutionRequest → World → Result ExecutionResult × World
  unfolding execute_request
  execute r w = execute_request r r.resume_session_id w
