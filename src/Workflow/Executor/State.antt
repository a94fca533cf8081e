-- ===== src/Workflow/Executor/State.antt =====
-- The state of the loop of `executeInternal` and what is written to it and saved from it
-- (src/workflow/executor.ts): results, counters and checkpoints.
use agent_p.Common.{
  ℕ, suc, String, Option, none, some, Bool, true, false, ◌&&◌, List, Result, ok, leb, if◌then◌else◌,
}
use agent_p.Common.Text.{show}
use Prim.Native.String.{◌++◌}
use agent_p.Agents.Types.{Handoff, TrustInput}
use agent_p.Workflow.Types.{
  PhasePlan, Plan, PhaseResult, PhaseStatus, Source, RuntimeContext, RuntimeMetadata, Artifact,
}
use agent_p.Workflow.Results.{
  upsert_phase_result, compute_failures, next_phase_order_from_plan, checkpoint_status_for,
}
use agent_p.Workflow.Executor.Env.{Env, Store}

-- What does not change during the loop.
pub record Job : Type 0 where
  pub plan : Plan
  pub continue_on_failure : Bool
  pub trust_input : Option TrustInput

-- The variables of the loop, and the world.
pub record Run (World : Type 0) : Type 0 where
  pub results : List PhaseResult
  pub context : RuntimeContext
  pub runtime : RuntimeMetadata
  pub world : World

pub data Outcome (World : Type 0) : Type 0 where
  next : Run World → Outcome World
  stop : Run World → Outcome World
  thrown : String → Run World → Outcome World

at_or_after : ℕ → Option ℕ → Bool
at_or_after n none = false
at_or_after n (some start) = leb start n

-- `reindex.requested && startPhaseOrder !== undefined && n >= startPhaseOrder`
unfoldable pub is_reindexed : RuntimeMetadata → ℕ → Bool
unfolding at_or_after
is_reindexed m n = m.reindex.requested && at_or_after n m.reindex.start_phase_order

-- The counters after a phase that ran: a miss, and the mark of a reindexed phase.
unfoldable pub count_miss : Bool → RuntimeMetadata → RuntimeMetadata
count_miss re m = record m {
  cache = record m.cache { misses = suc m.cache.misses };
  reindex = record m.reindex { applied = if re then true else m.reindex.applied };
}

unfoldable pub count_hit : RuntimeMetadata → RuntimeMetadata
count_hit m = record m { cache = record m.cache { hits = suc m.cache.hits } }

failed_id : PhasePlan → Option Handoff → String
failed_id p none = "failed-" ++ show p.order
failed_id p (some h) = h.handoff_id

parent_of : Option Handoff → Option String
parent_of none = none
parent_of (some h) = h.parent_handoff_id

unfoldable pub failed_result : PhasePlan → Option Handoff → ℕ → ℕ → Bool → String → PhaseResult
unfolding failed_id parent_of
failed_result p h started ended re message = record {
  order = p.order;
  stage = p.stage;
  phase = p.phase;
  agent = p.agent;
  status = PhaseStatus.failed;
  started_at = started;
  ended_at = ended;
  handoff_id = failed_id p h;
  parent_handoff_id = parent_of h;
  cache_hit = some false;
  source = some (if re then Source.reindexed else Source.runtime);
  reindex_applied = if re then some true else none;
  artifact = none;
  error = some message;
}

unfoldable pub completed_of : PhasePlan → Handoff → ℕ → ℕ → Bool → Artifact → PhaseResult
completed_of p h started ended re artifact = record {
  order = p.order;
  stage = p.stage;
  phase = p.phase;
  agent = p.agent;
  status = PhaseStatus.completed;
  started_at = started;
  ended_at = ended;
  handoff_id = h.handoff_id;
  parent_handoff_id = h.parent_handoff_id;
  cache_hit = some false;
  source = some (if re then Source.reindexed else Source.runtime);
  reindex_applied = if re then some true else none;
  artifact = some artifact;
  error = none;
}

-- A completed result that is used again.
unfoldable pub cached_prior : RuntimeMetadata → PhaseResult → PhaseResult
unfolding is_reindexed
cached_prior m prior = record prior {
  cache_hit = some true;
  source = some (if is_reindexed m prior.order then Source.reindexed else Source.cache);
}

module _ {World : Type 0} (env : Env World) where
  unfoldable pub save_in : Option (Store World) → Job → Run World → Result (Unit {0}) × World
  save_in none job s = (ok tt, s.world)
  save_in (some store) job s =
      let (now, w) = env.clock s.world in
      store.save
        (record {
          session_id = job.plan.session_id;
          plan = job.plan;
          continue_on_failure = job.continue_on_failure;
          next_phase_order = next_phase_order_from_plan job.plan s.results;
          phases = s.results;
          failures = compute_failures s.results;
          context = s.context;
          runtime = s.runtime;
          status = checkpoint_status_for job.plan s.results;
          updated_at = now;
        })
        w

  unfoldable pub save_checkpoint : Job → Run World → Result (Unit {0}) × World
  unfolding save_in
  save_checkpoint job s = save_in env.store job s

  -- The state that the `catch` saves.
  unfoldable pub record_failure : PhasePlan → Option Handoff → ℕ → String → Run World → Run World
  unfolding failed_result count_miss is_reindexed
  record_failure p h started message s =
      let (ended, w) = env.clock s.world in
      let re = is_reindexed s.runtime p.order in
      record s {
        results = upsert_phase_result s.results (failed_result p h started ended re message);
        runtime = count_miss re s.runtime;
        world = w;
      }

  -- The state after the agent has returned and its result stands in the list.
  unfoldable pub record_success : PhasePlan → Handoff → ℕ → Artifact → Run World → Run World
  unfolding completed_of count_miss is_reindexed
  record_success p h started artifact s =
      let (ended, w) = env.clock s.world in
      let re = is_reindexed s.runtime p.order in
      record s {
        results = upsert_phase_result s.results (completed_of p h started ended re artifact);
        runtime = count_miss re s.runtime;
        world = w;
      }
