-- ===== src/Workflow/Executor/Env.antt =====
-- What the executor has from outside, `createPhaseHandoff` and `executePhase`
-- (src/workflow/executor.ts). A call that may throw returns a `Result`, and every call moves the
-- world on. The subagents, the checkpoint store, the clock and the schema check are parameters.
use agent_p.Common.{ℕ, String, Option, none, some, Result, ok, err}
use agent_p.Agents.Types.{
  Analysis, BuilderPlan, TesterPlan, ReviewerAssessment, VerifierAssessment, TrustInput, Handoff,
  PlanningRequest,
}
use agent_p.Agents.Handoffs.{
  Office, create_scout_handoff, create_builder_handoff, create_tester_handoff,
  create_reviewer_handoff, create_verifier_handoff,
}
use agent_p.Workflow.Types.{
  Phase, Plan, RuntimeContext, Artifact, Checkpoint, scouted, built, tested, reviewed, verified,
}
use agent_p.Workflow.Types.Phase.{
  understand, design, plan, implement_red, build_green, refactor, review, verify, deliver,
}

-- `D3WorkflowCheckpointStore`; `loadReusable` is optional.
pub record Store (World : Type 0) : Type 0 where
  pub load : String → World → Result (Option Checkpoint) × World
  pub load_reusable : Option (Plan → World → Result (Option Checkpoint) × World)
  pub save : Checkpoint → World → Result (Unit {0}) × World

pub record Env (World : Type 0) : Type 0 where
  pub clock : World → ℕ × World
  pub office : Office World
  pub validate : Handoff → Result Handoff
  pub scout_analyze : Handoff → World → Result Analysis × World
  pub builder_plan : Handoff → World → Result BuilderPlan × World
  pub tester_plan : Handoff → World → Result TesterPlan × World
  pub reviewer_assess : Handoff → World → Result ReviewerAssessment × World
  pub verifier_assess : Handoff → Option TrustInput → World → Result VerifierAssessment × World
  pub store : Option (Store World)

-- What an agent returned, as an artifact.
abbrev pub artifact_of :
    {World A : Type 0} → (A → Artifact) → Result A × World → Result Artifact × World
artifact_of f (ok a, w) = (ok (f a), w)
artifact_of f (err m, w) = (err m, w)

module _ {World : Type 0} (env : Env World) where
  -- The factory that `createPhaseHandoff` chooses by the phase.
  phase_factory : Phase → PlanningRequest → World → Handoff × World
  unfolding create_scout_handoff create_builder_handoff create_tester_handoff
      create_reviewer_handoff create_verifier_handoff
  phase_factory understand = create_scout_handoff env.office
  phase_factory design = create_scout_handoff env.office
  phase_factory plan = create_scout_handoff env.office
  phase_factory implement_red = create_tester_handoff env.office
  phase_factory build_green = create_builder_handoff env.office
  phase_factory refactor = create_builder_handoff env.office
  phase_factory review = create_reviewer_handoff env.office
  phase_factory verify = create_verifier_handoff env.office
  phase_factory deliver = create_verifier_handoff env.office

  enrich : Option Analysis → Handoff → Handoff
  enrich none h = h
  enrich (some a) h = record h { analysis = some a }

  unfoldable pub create_phase_handoff :
      Plan → Phase → ℕ → RuntimeContext → World → Result Handoff × World
  unfolding phase_factory enrich
  create_phase_handoff p phase attempt c w =
      let request : PlanningRequest = record {
        session_id = p.session_id;
        handoff_id = none;
        parent_handoff_id = c.parent_handoff_id;
        attempt = some attempt;
        query = p.query;
        file_paths = some c.file_paths;
        domains = some c.domains;
        reason = none;
        priority = none;
      } in
      let (handoff, w') = phase_factory phase request w in
      (env.validate (enrich c.analysis handoff), w')

  unfoldable pub execute_phase :
      Phase → Handoff → Option TrustInput → World → Result Artifact × World
  execute_phase understand h trust w = artifact_of scouted (env.scout_analyze h w)
  execute_phase design h trust w = artifact_of scouted (env.scout_analyze h w)
  execute_phase plan h trust w = artifact_of scouted (env.scout_analyze h w)
  execute_phase implement_red h trust w = artifact_of tested (env.tester_plan h w)
  execute_phase build_green h trust w = artifact_of built (env.builder_plan h w)
  execute_phase refactor h trust w = artifact_of built (env.builder_plan h w)
  execute_phase review h trust w = artifact_of reviewed (env.reviewer_assess h w)
  execute_phase verify h trust w = artifact_of verified (env.verifier_assess h trust w)
  execute_phase deliver h trust w = artifact_of verified (env.verifier_assess h trust w)
