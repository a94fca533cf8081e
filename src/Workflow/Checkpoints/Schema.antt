-- ===== src/Workflow/Checkpoints/Schema.antt =====
-- What `d3WorkflowCheckpointSchema` (src/workflow/types.ts) makes of a checkpoint that it accepts: some
-- of its texts are trimmed. `trim` is a parameter.
use agent_p.Common.{String, Option, none, some, map}
use agent_p.Agents.Types.{Analysis}
use agent_p.Workflow.Types.{
  PhasePlan, Plan, PhaseResult, RuntimeContext, Artifact, scouted, built, tested, reviewed,
  verified, Checkpoint,
}

module _ (trim : String → String) where
  trim_phase : PhasePlan → PhasePlan
  trim_phase p = record p { objective = trim p.objective }

  unfoldable pub trim_plan : Plan → Plan
  unfolding trim_phase
  trim_plan plan = record plan {
    session_id = trim plan.session_id;
    query = trim plan.query;
    phases = map trim_phase plan.phases;
  }

  trim_analysis : Analysis → Analysis
  trim_analysis a = record a { domains = map trim a.domains }

  trim_artifact : Artifact → Artifact
  unfolding trim_analysis
  trim_artifact (scouted a) = scouted (trim_analysis a)
  trim_artifact (built a) = built (record a { summary = trim a.summary })
  trim_artifact (tested a) = tested (record a { summary = trim a.summary })
  trim_artifact (reviewed a) = reviewed (record a { summary = trim a.summary })
  trim_artifact (verified a) = verified (record a { summary = trim a.summary })

  maybe : {A B : Type 0} → (A → B) → Option A → Option B
  maybe f none = none
  maybe f (some a) = some (f a)

  unfoldable pub trim_result : PhaseResult → PhaseResult
  unfolding trim_artifact maybe
  trim_result r = record r { artifact = maybe trim_artifact r.artifact; error = maybe trim r.error }

  pub trim_context : RuntimeContext → RuntimeContext
  unfolding trim_analysis maybe
  trim_context c = record c {
    domains = map trim c.domains;
    analysis = maybe trim_analysis c.analysis;
  }

  unfoldable pub trim_checkpoint : Checkpoint → Checkpoint
  unfolding trim_plan trim_result trim_context
  trim_checkpoint c = record c {
    session_id = trim c.session_id;
    plan = trim_plan c.plan;
    phases = map trim_result c.phases;
    failures = map trim_result c.failures;
    context = trim_context c.context;
  }
