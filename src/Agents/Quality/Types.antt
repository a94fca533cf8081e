-- ===== src/Agents/Quality/Types.antt =====
-- The data of the quality path: its policy, its steps and its summary (src/agents/types.ts and
-- src/agents/expert.ts). The numbers of a policy are finite.
use agent_p.Common.{ℕ, Option, Bool, List}
use Prim.Native.Nat.{◌^◌}
use agent_p.Agents.Types.{
  Handoff, ReasonCode, DangerousPatternMatch, TesterPlan, ReviewerAssessment, VerifierAssessment,
  TrustInput, PlanningRequest,
}

-- The number 1 in multiples of 2 ^ -1074.
abbrev pub one : ℕ
one = 2 ^ 1074

-- A finite number: one below 0, or a multiple of 2 ^ -1074 from 0 up.
pub data Finite : Type 0 where
  below : Finite
  from_zero : ℕ → Finite

pub record QualityPolicy : Type 0 where
  pub include_tester : Option Bool
  pub include_reviewer : Option Bool
  pub include_verifier : Option Bool
  pub importance : Option Finite
  pub stability : Option Finite
  pub enforce_trust_gate : Option Bool
  pub enforce_goal_gate : Option Bool
  pub min_trust_score : Option Finite
  pub min_goal_completion : Option Finite
  pub continue_on_trust_gate_failure : Option Bool
  pub continue_on_goal_gate_failure : Option Bool
  pub stage_timeout_ms : Option Finite
  pub max_stage_retries : Option Finite
  pub continue_on_stage_failure : Option Bool
  pub continue_on_stage_timeout : Option Bool
  pub circuit_breaker_failure_threshold : Option Finite
  pub rate_limit_max_executions : Option Finite
  pub rate_limit_window_ms : Option Finite
  pub continue_on_rate_limit : Option Bool

-- The two scores are in multiples of 2 ^ -1074, the other numbers are whole.
pub record ResolvedPolicy : Type 0 where
  pub include_tester : Bool
  pub include_reviewer : Bool
  pub include_verifier : Bool
  pub importance : ℕ
  pub stability : ℕ
  pub enforce_trust_gate : Bool
  pub enforce_goal_gate : Bool
  pub min_trust_score : ℕ
  pub min_goal_completion : ℕ
  pub continue_on_trust_gate_failure : Bool
  pub continue_on_goal_gate_failure : Bool
  pub stage_timeout_ms : ℕ
  pub max_stage_retries : ℕ
  pub continue_on_stage_failure : Bool
  pub continue_on_stage_timeout : Bool
  pub circuit_breaker_failure_threshold : ℕ
  pub rate_limit_max_executions : ℕ
  pub rate_limit_window_ms : ℕ
  pub continue_on_rate_limit : Bool

pub record QualityGateInput : Type 0 where
  pub trust_score : Option Finite
  pub goal_completion : Option Finite

pub record QualityRequest : Type 0 where
  pub planning : PlanningRequest
  pub gate_input : Option QualityGateInput
  pub verifier_trust_input : Option TrustInput

pub record GateState : Type 0 where
  pub trust_score : ℕ
  pub goal_completion : ℕ
  pub importance : ℕ
  pub stability : ℕ
  pub trust_passed : Bool
  pub goal_passed : Bool

pub data SkipReason : Type 0 where
  trust_gate goal_gate stage_failure stage_timeout circuit_open rate_limited : SkipReason

pub data StepStatus : Type 0 where
  executed skipped : StepStatus

pub data HopResult : Type 0 where
  tester_hop : TesterPlan → HopResult
  reviewer_hop : ReviewerAssessment → HopResult
  verifier_hop : VerifierAssessment → HopResult

pub record QualityStep : Type 0 where
  pub handoff : Handoff
  pub status : StepStatus
  pub gate_state : GateState
  pub skip_reason : Option SkipReason
  pub result : Option HopResult
  pub attempts : Option ℕ
  pub duration_ms : Option ℕ
  pub failure_reason_code : Option ReasonCode

pub record Resilience : Type 0 where
  pub retries : ℕ
  pub failures : ℕ
  pub timeouts : ℕ
  pub circuit_open : Bool
  pub rate_limited : ℕ

pub record QualitySummary : Type 0 where
  pub importance : ℕ
  pub stability : ℕ
  pub reason_codes : List ReasonCode
  pub dangerous_patterns : List DangerousPatternMatch
  pub resilience : Resilience

pub record QualityResult : Type 0 where
  pub handoffs : List Handoff
  pub steps : List QualityStep
  pub final_gate_state : GateState
  pub quality_summary : QualitySummary
