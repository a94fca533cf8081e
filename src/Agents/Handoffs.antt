-- ===== src/Agents/Handoffs.antt =====
-- The handoffs that the orchestrator writes (`createHandoff` and its five callers,
-- `composeQualityPath`, src/agents/expert.ts). The clock and the SHA-1 digest are parameters.
pub mod Path
use agent_p.Common.{
  ℕ, String, Option, none, some, Bool, true, false, List, [], ◌∷◌, ◌++◌, or_else, or_field, dedupe,
  string_eq, if◌then◌else◌,
}
use agent_p.Agents.Types.{
  AgentRole, expert, scout, builder, tester, reviewer, verifier, HandoffPriority, Handoff,
  PlanningRequest,
}

-- What `ExpertOrchestrator` has from outside: its clock, which moves the world on, and the first 16
-- hexadecimal digits of the SHA-1 digest of session, role, query, timestamp and attempt.
pub record Office (World : Type 0) : Type 0 where
  pub now : World → ℕ × World
  pub handoff_id_of : AgentRole → String → String → ℕ → ℕ → String

module _ {World : Type 0} (office : Office World) where
  unfoldable pub create_handoff : AgentRole → PlanningRequest → String → World → Handoff × World
  create_handoff to r default_reason w =
      let attempt = or_else r.attempt 1 in
      let (timestamp, w') = office.now w in
      (
        record {
          from = expert;
          to = to;
          session_id = r.session_id;
          handoff_id =
              or_else r.handoff_id (office.handoff_id_of to r.session_id r.query timestamp attempt);
          parent_handoff_id = r.parent_handoff_id;
          attempt = attempt;
          query = r.query;
          file_paths = dedupe (or_else r.file_paths []);
          domains = dedupe (or_else r.domains []);
          analysis = none;
          metadata = record {
            reason = or_else r.reason default_reason;
            priority = or_else r.priority HandoffPriority.normal;
            timestamp = timestamp;
          };
        },
        w',
      )

  unfoldable pub create_scout_handoff : PlanningRequest → World → Handoff × World
  unfolding create_handoff
  create_scout_handoff r = create_handoff scout r "context_discovery"

  unfoldable pub create_builder_handoff : PlanningRequest → World → Handoff × World
  unfolding create_handoff
  create_builder_handoff r = create_handoff builder r "implementation_planning"

  unfoldable pub create_tester_handoff : PlanningRequest → World → Handoff × World
  unfolding create_handoff
  create_tester_handoff r = create_handoff tester r "test_planning"

  unfoldable pub create_reviewer_handoff : PlanningRequest → World → Handoff × World
  unfolding create_handoff
  create_reviewer_handoff r = create_handoff reviewer r "code_review"

  unfoldable pub create_verifier_handoff : PlanningRequest → World → Handoff × World
  unfolding create_handoff
  create_verifier_handoff r = create_handoff verifier r "quality_verification"

  -- One stage of `composeQualityPath`: the handoff is written if the stage is included, as a child of
  -- the one before it.
  add_stage :
      Bool
      → (PlanningRequest → World → Handoff × World)
      → PlanningRequest
      → List Handoff × Option String × World
      → List Handoff × Option String × World
  add_stage false create r (handoffs, parent, w) = (handoffs, parent, w)
  add_stage true create r (handoffs, parent, w) =
      let (h, w') =
        create (record r { parent_handoff_id = or_field parent r.parent_handoff_id }) w in
      (handoffs ++ h ∷ [], some h.handoff_id, w')

  -- The body of `composeQualityPath`, with the policy resolved.
  compose_stages : PlanningRequest → Bool → Bool → Bool → World → List Handoff × World
  unfolding add_stage create_tester_handoff create_reviewer_handoff create_verifier_handoff
  compose_stages r include_tester include_reviewer include_verifier w =
      let start : List Handoff × Option String × World = ([], r.parent_handoff_id, w) in
      let tested = add_stage include_tester create_tester_handoff r start in
      let reviewed = add_stage include_reviewer create_reviewer_handoff r tested in
      let (handoffs, _, w') = add_stage include_verifier create_verifier_handoff r reviewed in
      (handoffs, w')

  unfoldable pub compose_quality_path :
      PlanningRequest → Option Bool → Option Bool → Option Bool → World → List Handoff × World
  unfolding compose_stages
  compose_quality_path r include_tester include_reviewer include_verifier w =
      compose_stages r (or_else include_tester true) (or_else include_reviewer true)
        (or_else include_verifier true) w
