-- ===== src/Workflow/Executor/Loop.antt =====
-- The loop over the phases of a plan (`executeInternal`, src/workflow/executor.ts). A round goes on
-- to the next phase, leaves the loop, or throws out of the executor. What a round has changed before
-- it throws stays changed, so the state comes with every outcome.
pub mod Rounds
pub mod PlanOrder
pub mod FailFast
pub mod Replay
pub mod Attempts
pub mod Answers
pub mod Counting
pub mod LostSave
pub mod Resume
use agent_p.Common.{ℕ, String, Option, none, some, List, [], ◌∷◌, Result, ok, err, if◌then◌else◌}
use agent_p.Agents.Types.{Handoff}
use agent_p.Workflow.Types.{PhasePlan, PhaseResult, RuntimeContext, Artifact}
use agent_p.Workflow.Results.{upsert_phase_result, result_at, is_completed}
use agent_p.Workflow.Executor.Env.{Env, create_phase_handoff, execute_phase}
use agent_p.Workflow.Executor.State.{
  Job, Run, Outcome, next, stop, thrown, count_hit, save_checkpoint, record_failure, record_success,
  cached_prior,
}
use agent_p.Workflow.Executor.Context.{update_context_from_artifact}

module _ {World : Type 0} (env : Env World) where
  -- The end of the `catch`: the checkpoint is saved, and the loop is left unless it may continue.
  after_failure : Job → Run World → Result (Unit {0}) × World → Outcome World
  after_failure job s (err m, w) = thrown m (record s { world = w })
  after_failure job s (ok _, w) =
      if job.continue_on_failure
      then next (record s { world = w })
      else stop (record s { world = w })

  -- The `catch` of a round.
  unfoldable pub fail_phase :
      Job → PhasePlan → Option Handoff → ℕ → String → Run World → Outcome World
  unfolding record_failure save_checkpoint after_failure
  fail_phase job p h started message s =
      let s' = record_failure env p h started message s in
      after_failure job s' (save_checkpoint env job s')

  after_save : Job → PhasePlan → Handoff → ℕ → Run World → Result (Unit {0}) × World → Outcome World
  unfolding fail_phase
  after_save job p h started s (ok _, w) = next (record s { world = w })
  after_save job p h started s (err m, w) =
      fail_phase job p (some h) started m (record s { world = w })

  after_update : Job → PhasePlan → Handoff → ℕ → Run World → Result RuntimeContext → Outcome World
  unfolding fail_phase after_save save_checkpoint
  after_update job p h started s (err m) = fail_phase job p (some h) started m s
  after_update job p h started s (ok c) =
      let s' = record s { context = record c { parent_handoff_id = some h.handoff_id } } in
      after_save job p h started s' (save_checkpoint env job s')

  after_agent : Job → PhasePlan → Handoff → ℕ → Run World → Result Artifact × World → Outcome World
  unfolding fail_phase after_update record_success
  after_agent job p h started s (err m, w) =
      fail_phase job p (some h) started m (record s { world = w })
  after_agent job p h started s (ok a, w) =
      let s' = record_success env p h started a (record s { world = w }) in
      after_update job p h started s' (update_context_from_artifact p.phase a s'.context)

  after_handoff : Job → PhasePlan → ℕ → Run World → Result Handoff × World → Outcome World
  unfolding fail_phase after_agent
  after_handoff job p started s (err m, w) =
      fail_phase job p none started m (record s { world = w })
  after_handoff job p started s (ok h, w) =
      after_agent job p h started s (execute_phase env p.phase h job.trust_input w)

  -- A round for a phase with no completed result.
  unfoldable pub attempt_phase : Job → PhasePlan → Run World → Outcome World
  unfolding after_handoff
  attempt_phase job p s =
      let (started, w) = env.clock s.world in
      after_handoff job p started s (create_phase_handoff env job.plan p.phase p.order s.context w)

  after_replay : Run World → Result RuntimeContext → Outcome World
  after_replay s (ok c) = next (record s { context = c })
  after_replay s (err m) = thrown m s

  replay_artifact : PhaseResult → Option Artifact → Run World → Outcome World
  unfolding after_replay
  replay_artifact prior none s = next s
  replay_artifact prior (some a) s =
      after_replay s (update_context_from_artifact prior.phase a s.context)

  -- The state in which the artifact of the completed result `prior` is read.
  replayed : PhaseResult → Run World → Run World
  unfolding cached_prior count_hit
  replayed prior s = record s {
    results = upsert_phase_result s.results (cached_prior s.runtime prior);
    context = record s.context { parent_handoff_id = some prior.handoff_id };
    runtime = count_hit s.runtime;
  }

  -- A round for a phase with the completed result `prior`.
  unfoldable pub replay_phase : PhaseResult → Run World → Outcome World
  unfolding replay_artifact replayed
  replay_phase prior s = replay_artifact prior prior.artifact (replayed prior s)

  round_at : Job → PhasePlan → Run World → Option PhaseResult → Outcome World
  unfolding attempt_phase replay_phase
  round_at job p s none = attempt_phase job p s
  round_at job p s (some prior) =
      if is_completed prior.status then replay_phase prior s else attempt_phase job p s

  unfoldable pub run_phase : Job → PhasePlan → Run World → Outcome World
  unfolding round_at
  run_phase job p s = round_at job p s (result_at p.order s.results)

  unfoldable pub run_phases : Job → List PhasePlan → Run World → Outcome World
  unfolding run_phase
  run_phases job [] s = next s
  run_phases job (p ∷ ps) s = elim (run_phase job p s) [
    | next t ↦ run_phases job ps t
    | stop t ↦ stop t
    | thrown m t ↦ thrown m t
  ]
