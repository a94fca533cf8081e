-- ===== src/Agents/Quality/Policy.antt =====
-- `clamp` and `resolveQualityExecutionPolicy` (src/agents/expert.ts), on finite numbers.
use agent_p.Common.{ℕ, true, false, or_else, ltb, if◌then◌else◌, ◌*◌}
use Prim.Native.Nat.{◌/◌}
use agent_p.Agents.Quality.Types.{one, Finite, below, from_zero, QualityPolicy, ResolvedPolicy}

at_least : ℕ → ℕ → ℕ
at_least low n = if ltb n low then low else n

at_most : ℕ → ℕ → ℕ
at_most high n = if ltb high n then high else n

-- `clamp(value, 0, 1)`
unfoldable pub clamp_score : Finite → ℕ
unfolding at_most
clamp_score below = 0
clamp_score (from_zero n) = at_most one n

-- `Math.max(low, Math.trunc(value))`, where `low` is not below 0.
trunc_at_least : ℕ → Finite → ℕ
unfolding at_least
trunc_at_least low below = low
trunc_at_least low (from_zero n) = at_least low (n / one)

-- `clamp(Math.trunc(value), 1, 5)`
clamp_level : Finite → ℕ
unfolding at_most trunc_at_least
clamp_level value = at_most 5 (trunc_at_least 1 value)

-- The whole number `n`.
abbrev pub whole : ℕ → Finite
whole n = from_zero (n * one)

-- Three quarters.
abbrev default_min_trust_score : Finite
default_min_trust_score = from_zero (3 * (one / 4))

unfoldable pub resolve_quality_execution_policy : QualityPolicy → ResolvedPolicy
unfolding clamp_score trunc_at_least clamp_level
resolve_quality_execution_policy p = record {
  include_tester = or_else p.include_tester true;
  include_reviewer = or_else p.include_reviewer true;
  include_verifier = or_else p.include_verifier true;
  importance = clamp_level (or_else p.importance (whole 3));
  stability = clamp_level (or_else p.stability (whole 3));
  enforce_trust_gate = or_else p.enforce_trust_gate true;
  enforce_goal_gate = or_else p.enforce_goal_gate true;
  min_trust_score = clamp_score (or_else p.min_trust_score default_min_trust_score);
  min_goal_completion = clamp_score (or_else p.min_goal_completion (whole 1));
  continue_on_trust_gate_failure = or_else p.continue_on_trust_gate_failure false;
  continue_on_goal_gate_failure = or_else p.continue_on_goal_gate_failure false;
  stage_timeout_ms = trunc_at_least 1 (or_else p.stage_timeout_ms (whole 30000));
  max_stage_retries = trunc_at_least 0 (or_else p.max_stage_retries (whole 0));
  continue_on_stage_failure = or_else p.continue_on_stage_failure false;
  continue_on_stage_timeout = or_else p.continue_on_stage_timeout false;
  circuit_breaker_failure_threshold =
      trunc_at_least 1 (or_else p.circuit_breaker_failure_threshold (whole 2));
  rate_limit_max_executions = trunc_at_least 0 (or_else p.rate_limit_max_executions (whole 0));
  rate_limit_window_ms = trunc_at_least 1 (or_else p.rate_limit_window_ms (whole 1000));
  continue_on_rate_limit = or_else p.continue_on_rate_limit false;
}
