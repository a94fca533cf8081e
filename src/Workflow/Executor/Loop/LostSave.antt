-- ===== src/Workflow/Executor/Loop/LostSave.antt =====
-- An attempt whose agent succeeds and whose checkpoint cannot be saved: the save stands in the `try`
-- of the round (src/workflow/executor.ts).
use agent_p.Common.{suc, ◌≡◌, String, true, err}
use agent_p.Workflow.Types.{PhasePlan}
use agent_p.Workflow.Results.{result_at, completed_result}
use agent_p.Workflow.Executor.Env.{Env}
use agent_p.Workflow.Executor.State.{Job, Run, Outcome, save_checkpoint}
use agent_p.Workflow.Executor.Loop.Answers.{Failed, SavesFailed}

module _ {World : Type 0} (env : Env World) (job : Job) (p : PhasePlan) where
  -- A checkpoint with a completed result for the phase cannot be saved, as where the schema refuses
  -- its artifact.
  abbrev pub RefusesDone : String → Type 0
  RefusesDone m =
      (s : Run World)
      → completed_result (result_at p.order s.results) ≡ true
      → (save_checkpoint env job s).0 ≡ err m

  module _ {m : String} (saves : SavesFailed env job p) (refuses : RefusesDone m) where
    -- The attempt ends as a failure, with two misses more than before.
    abbrev pub Lost : Run World → Outcome World → Type 0
    Lost s o = Failed job p s.runtime.cache.hits (suc (suc s.runtime.cache.misses)) m o
