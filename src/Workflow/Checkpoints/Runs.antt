-- ===== src/Workflow/Checkpoints/Runs.antt =====
-- What a run of the executor leaves in a store on files.
use agent_p.Common.{ℕ, ◌≡◌, some, Bool, true, false, List, map, or_else, Result, string_eq}
use agent_p.Workflow.Types.{
  Plan, PhaseResult, RuntimeContext, Checkpoint, ExecutionRequest, ExecutionResult,
}
use agent_p.Workflow.Executor.Reuse.{apply_reindex_policy}
use agent_p.Workflow.Results.{normalize_phase_result, sort_by_order, default_runtime_metadata}
use agent_p.Workflow.Executor.Env.{Env}
use agent_p.Workflow.Executor.State.{Job}
use agent_p.Workflow.Executor.Execute.{execute_internal}
use agent_p.Workflow.Checkpoints.{Disk, load}
use agent_p.Workflow.Checkpoints.Schema.{trim_plan, trim_result}

module _ {World Text : Type 0} (env : Env World) (disk : Disk World Text) (limit : ℕ)
    (job : Job) where
  -- The checkpoint that a run with the result `r` ends with.
  pub record Keeps (r : ExecutionResult) (w : World) : Type 0 where
    pub checkpoint : Checkpoint
    pub loads : load disk limit job.plan.session_id w ≡ some checkpoint
    pub plan : checkpoint.plan ≡ trim_plan disk.trim job.plan
    pub continue_on_failure : checkpoint.continue_on_failure ≡ job.continue_on_failure
    pub phases : checkpoint.phases ≡ map (trim_result disk.trim) r.phases
    pub failures : checkpoint.failures ≡ map (trim_result disk.trim) r.failures
    pub runtime : checkpoint.runtime ≡ r.runtime
    pub next_phase_order : checkpoint.next_phase_order ≡ r.resume.next_phase_order
    pub status : checkpoint.status ≡ r.resume.checkpoint_status

module _ {World : Type 0} (env : Env World) where
  -- The run that resuming makes of what a checkpoint holds.
  abbrev pub resumed_run :
      ExecutionRequest
      → Plan
      → Bool
      → List PhaseResult
      → RuntimeContext
      → World
      → Result ExecutionResult × World
  resumed_run request plan continue_on_failure phases context w =
      let fresh =
        default_runtime_metadata (or_else request.use_cache true) (or_else request.reindex false)
          plan in
      let (results, runtime) =
        apply_reindex_policy (map normalize_phase_result (sort_by_order phases)) fresh in
      execute_internal env
        (record {
          plan = plan;
          continue_on_failure = or_else request.continue_on_failure continue_on_failure;
          trust_input = request.verifier_trust_input;
        })
        true (record { results = results; context = context; runtime = runtime }) w
