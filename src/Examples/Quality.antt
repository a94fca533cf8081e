-- ===== src/Examples/Quality.antt =====
-- Concrete inputs for the quality path (src/agents/expert.ts): policies, handoffs, agents that answer
-- and a reviewer that never answers in time.
use agent_p.Common.{ℕ, suc, none, some, true, false, [], ok}
use agent_p.Agents.Types.{PlanningRequest, expert, reviewer, verifier, Handoff, HandoffPriority}
use agent_p.Agents.Quality.Types.{QualityPolicy, QualityRequest, ResolvedPolicy}
use agent_p.Agents.Quality.Policy.{whole}
use agent_p.Agents.Quality.Attempts.{QualityEnv, resolved, timed_out}
use agent_p.Examples.{ticks, tests, review, verdict}

abbrev pub planning : PlanningRequest
planning = record {
  session_id = "session-1";
  handoff_id = some "h-fixed-1";
  parent_handoff_id = none;
  attempt = none;
  query = "check the login page";
  file_paths = none;
  domains = none;
  reason = none;
  priority = none;
}

abbrev pub quality_request : QualityRequest
quality_request = record { planning = planning; gate_input = none; verifier_trust_input = none }

-- Two retries for a stage, everything else by default.
abbrev pub two_retries : QualityPolicy
two_retries = record {
  include_tester = none;
  include_reviewer = none;
  include_verifier = none;
  importance = none;
  stability = none;
  enforce_trust_gate = none;
  enforce_goal_gate = none;
  min_trust_score = none;
  min_goal_completion = none;
  continue_on_trust_gate_failure = none;
  continue_on_goal_gate_failure = none;
  stage_timeout_ms = none;
  max_stage_retries = some (whole 2);
  continue_on_stage_failure = none;
  continue_on_stage_timeout = none;
  circuit_breaker_failure_threshold = none;
  rate_limit_max_executions = none;
  rate_limit_window_ms = none;
  continue_on_rate_limit = none;
}

-- The reviewer never answers in time.
abbrev pub quality_env : QualityEnv ℕ
quality_env = record {
  office = ticks;
  validate = λ h. ok h;
  pattern_test = λ p t. false;
  tester_plan = λ timeout h w. (resolved tests, suc w);
  reviewer_assess = λ timeout h w. (timed_out, suc w);
  verifier_assess = λ timeout h trust w. (resolved verdict, suc w);
}

abbrev pub strict_policy : ResolvedPolicy
strict_policy = record {
  include_tester = true;
  include_reviewer = true;
  include_verifier = true;
  importance = 3;
  stability = 3;
  enforce_trust_gate = true;
  enforce_goal_gate = true;
  min_trust_score = 1;
  min_goal_completion = 1;
  continue_on_trust_gate_failure = false;
  continue_on_goal_gate_failure = false;
  stage_timeout_ms = 30000;
  max_stage_retries = 0;
  continue_on_stage_failure = false;
  continue_on_stage_timeout = false;
  circuit_breaker_failure_threshold = 2;
  rate_limit_max_executions = 0;
  rate_limit_window_ms = 1000;
  continue_on_rate_limit = false;
}

-- Every text is dangerous, and the reviewer answers.
abbrev pub danger_env : QualityEnv ℕ
danger_env = record quality_env {
  pattern_test = λ p t. true;
  reviewer_assess = λ timeout h w. (resolved review, suc w);
}

abbrev pub review_handoff : Handoff
review_handoff = record {
  from = expert;
  to = reviewer;
  session_id = "session-1";
  handoff_id = "h-review-1";
  parent_handoff_id = none;
  attempt = 1;
  query = "drop database";
  file_paths = [];
  domains = [];
  analysis = none;
  metadata = record { reason = "code_review"; priority = HandoffPriority.normal; timestamp = 0 };
}

abbrev pub verify_handoff : Handoff
verify_handoff = record review_handoff { to = verifier }
