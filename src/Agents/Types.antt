-- ===== src/Agents/Types.antt =====
-- The data that the agents exchange (src/agents/types.ts). A score is a finite number from 0 up, as
-- a multiple of 2 ^ -1074, the smallest positive double: every such number is one exactly.
use agent_p.Common.{ℕ, String, Option, List, Eq, decided_by, nat_eqb, arith, ◌≡◌, ◌↔◌, true}

pub data AgentRole : Type 0 where
  expert scout builder tester reviewer verifier : AgentRole

pub data HandoffPriority : Type 0 where
  low normal high : HandoffPriority

pub data ReviewerSeverity : Type 0 where
  low medium high critical : ReviewerSeverity

pub data GateDecision : Type 0 where
  pass fail : GateDecision

pub data DangerousCategory : Type 0 where
  prompt_injection secret_exfiltration destructive_command : DangerousCategory

pub data SignalSource : Type 0 where
  query analysis : SignalSource

abbrev pub ReasonCode : Type 0
ReasonCode = String

pub record FileConfidence : Type 0 where
  pub file_path : String
  pub confidence : ℕ
  pub reasons : List String

-- `AgentHandoffAnalysis`, which is also what the scout returns.
pub record Analysis : Type 0 where
  pub summary : String
  pub relevant_files : List String
  pub ranked_files : List FileConfidence
  pub domains : List String
  pub notes : List String
  pub risks : List String

pub record HandoffMetadata : Type 0 where
  pub reason : String
  pub priority : HandoffPriority
  pub timestamp : ℕ

pub record Handoff : Type 0 where
  pub from : AgentRole
  pub to : AgentRole
  pub session_id : String
  pub handoff_id : String
  pub parent_handoff_id : Option String
  pub attempt : ℕ
  pub query : String
  pub file_paths : List String
  pub domains : List String
  pub analysis : Option Analysis
  pub metadata : HandoffMetadata

pub record PlanningRequest : Type 0 where
  pub session_id : String
  pub handoff_id : Option String
  pub parent_handoff_id : Option String
  pub attempt : Option ℕ
  pub query : String
  pub file_paths : Option (List String)
  pub domains : Option (List String)
  pub reason : Option String
  pub priority : Option HandoffPriority

pub record BuilderPlan : Type 0 where
  pub summary : String
  pub planned_changes : List String
  pub risks : List String

pub record TesterPlan : Type 0 where
  pub summary : String
  pub commands : List String
  pub expected_checks : List String
  pub failure_handling : List String

pub record ReviewerFinding : Type 0 where
  pub severity : ReviewerSeverity
  pub finding : String
  pub recommended_fix : String
  pub reason_code : Option ReasonCode

pub record ReviewerAssessment : Type 0 where
  pub summary : String
  pub findings : List ReviewerFinding

pub record VerifierAssessment : Type 0 where
  pub summary : String
  pub trust_score : ℕ
  pub threshold : ℕ
  pub gate_decision : GateDecision
  pub checks : List String
  pub blockers : List String
  pub reason_codes : Option (List ReasonCode)

-- `Partial<VerifierTrustInput>`
pub record TrustInput : Type 0 where
  pub test_pass_rate : Option ℕ
  pub review_severity : Option ReviewerSeverity
  pub completeness : Option ℕ
  pub evidence_quality : Option ℕ
  pub coverage : Option ℕ
  pub reproducibility : Option ℕ

pub record DangerousPatternMatch : Type 0 where
  pub category : DangerousCategory
  pub reason_code : ReasonCode
  pub indicator : String
  pub source : SignalSource

abbrev pub role_rank : AgentRole → ℕ
role_rank AgentRole.expert = 0
role_rank AgentRole.scout = 1
role_rank AgentRole.builder = 2
role_rank AgentRole.tester = 3
role_rank AgentRole.reviewer = 4
role_rank AgentRole.verifier = 5

pub role_eqb_iff : (a b : AgentRole) → (nat_eqb (role_rank a) (role_rank b) ≡ true) ↔ (a ≡ b)
role_eqb_iff a b = ground arith

instance abbrev pub role_eq : Eq AgentRole
role_eq = decided_by (λ a b. nat_eqb (role_rank a) (role_rank b)) role_eqb_iff
