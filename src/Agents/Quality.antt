-- ===== src/Agents/Quality.antt =====
-- `executeQualityPath` (src/agents/expert.ts): the stages of the quality path with their gates,
-- retries, rate limit and circuit breaker.
pub mod Types
pub mod Policy
pub mod State
pub mod Attempts
pub mod Steps
pub mod Halts
pub mod Path
pub mod Danger
use agent_p.Common.{
  ℕ, zero, suc, ◌+◌, ◌-◌, String, Option, none, some, Bool, true, false, ◌||◌, List, [], ◌∷◌, ◌++◌,
  any, length, ltb, leb, or_else, Result, ok, err, if◌then◌else◌,
}
use text.Mathlib.Text.{starts_with}
use agent_p.Agents.Types.{
  AgentRole, expert, scout, builder, tester, reviewer, verifier, Handoff, TesterPlan,
  ReviewerAssessment, VerifierAssessment, GateDecision, TrustInput, DangerousPatternMatch,
}
use agent_p.Agents.Handoffs.{Office, compose_quality_path}
use agent_p.Agents.Quality.Types.{
  one, Finite, from_zero, QualityPolicy, ResolvedPolicy, QualityGateInput, QualityRequest,
  GateState, SkipReason, stage_failure, stage_timeout, circuit_open, rate_limited, HopResult,
  tester_hop, reviewer_hop, verifier_hop, QualityStep, Resilience, QualityResult,
}
use agent_p.Agents.Quality.Policy.{clamp_score, whole, resolve_quality_execution_policy}
use agent_p.Agents.Quality.Attempts.{QualityEnv, Attempt, settled, threw, attempt_stage}
use agent_p.Agents.Quality.State.{
  QualityRun, add_code, add_codes, sort_codes, to_gate_state, resolve_skip_reason, code_of,
  executed_step, failed_step, forget_old, skip_stage, skip_blocked, add_dangerous_patterns,
}

module _ {World : Type 0} (env : QualityEnv World) (p : ResolvedPolicy) where
  count_failure : Bool → Resilience → Resilience
  count_failure true r = record r { timeouts = suc r.timeouts }
  count_failure false r = record r { failures = suc r.failures }

  open_circuit : Bool → QualityRun World → QualityRun World
  unfolding add_code code_of
  open_circuit false s = s
  open_circuit true s = record s {
    resilience = record s.resilience { circuit_open = true };
    reason_codes = add_code (code_of circuit_open) s.reason_codes;
  }

  failure_reason : Bool → SkipReason
  failure_reason true = stage_timeout
  failure_reason false = stage_failure

  -- The `catch` of the last attempt.
  unfoldable pub give_up : Handoff → GateState → ℕ → Bool → ℕ → QualityRun World → QualityRun World
  unfolding count_failure open_circuit failure_reason failed_step add_code code_of
  give_up h g attempts timed started s =
      let why = failure_reason timed in
      let failures = suc s.consecutive_failures in
      let noted = record s {
        reason_codes = add_code (code_of why) s.reason_codes;
        resilience = count_failure timed s.resilience;
        consecutive_failures = failures;
      } in
      let broken = open_circuit (leb p.circuit_breaker_failure_threshold failures) noted in
      let (ended, w) = env.office.now broken.world in
      record broken {
        steps = broken.steps ++ failed_step h g why (suc attempts) (ended - started) ∷ [];
        blocking =
            if (if timed then p.continue_on_stage_timeout else p.continue_on_stage_failure)
            then broken.blocking
            else some why;
        world = w;
      }

  -- The loop over the attempts of a stage, of which `left` are left behind this one.
  unfoldable pub run_attempts :
      ℕ → Option TrustInput → Handoff → GateState → ℕ → QualityRun World → QualityRun World
  unfolding attempt_stage give_up
  run_attempts zero trust h g attempts s = elim (attempt_stage env p trust h g attempts s) [
    | settled t ↦ t
    | threw timed started t ↦ give_up h g attempts timed started t
  ]
  run_attempts (suc left) trust h g attempts s = elim (attempt_stage env p trust h g attempts s) [
    | settled t ↦ t
    | threw timed started t ↦
        run_attempts left trust h g (suc attempts)
          (record t { resilience = record t.resilience { retries = suc t.resilience.retries } })
  ]

  behind_gates :
      Option TrustInput
      → Handoff
      → GateState
      → Option SkipReason
      → QualityRun World
      → QualityRun World
  unfolding run_attempts skip_stage
  behind_gates trust h g (some why) s = skip_stage h g why s
  behind_gates trust h g none s = run_attempts p.max_stage_retries trust h g 0 s

  behind_block :
      Option TrustInput
      → Handoff
      → GateState
      → Option SkipReason
      → QualityRun World
      → QualityRun World
  unfolding behind_gates skip_stage skip_blocked resolve_skip_reason
  behind_block trust h g (some why) s = skip_blocked h g why s
  behind_block trust h g none s =
      if s.resilience.circuit_open
      then skip_stage h g circuit_open s
      else behind_gates trust h g (resolve_skip_reason g p) s

  unfoldable pub run_stage : Option TrustInput → Handoff → QualityRun World → QualityRun World
  unfolding behind_block to_gate_state
  run_stage trust h s = behind_block trust h (to_gate_state p s.trust s.goal) s.blocking s

  unfoldable pub run_stages : Option TrustInput → List Handoff → QualityRun World → QualityRun World
  unfolding run_stage
  run_stages trust [] s = s
  run_stages trust (h ∷ hs) s = run_stages trust hs (run_stage trust h s)

  unfoldable pub quality_result : List Handoff → QualityRun World → QualityResult
  unfolding to_gate_state sort_codes
  quality_result hs s = record {
    handoffs = hs;
    steps = s.steps;
    final_gate_state = to_gate_state p s.trust s.goal;
    quality_summary = record {
      importance = p.importance;
      stability = p.stability;
      reason_codes = sort_codes s.reason_codes;
      dangerous_patterns = s.dangerous_patterns;
      resilience = s.resilience;
    };
  }

-- `handoffs.map(validateAgentHandoffPayload)`
unfoldable pub validate_all : (Handoff → Result Handoff) → List Handoff → Result (List Handoff)
validate_all validate [] = ok []
validate_all validate (h ∷ hs) = elim (validate h) [
  | err m ↦ err m
  | ok h' ↦ elim (validate_all validate hs) [ err m ↦ err m | ok hs' ↦ ok (h' ∷ hs') ]
]

trust_given : Option QualityGateInput → Option Finite
trust_given none = none
trust_given (some g) = g.trust_score

goal_given : Option QualityGateInput → Option Finite
goal_given none = none
goal_given (some g) = g.goal_completion

-- The variables of `executeQualityPath` before the first stage.
unfoldable pub first_quality_run :
    {World : Type 0} → Option QualityGateInput → World → QualityRun World
unfolding trust_given goal_given clamp_score
first_quality_run g w = record {
  trust = clamp_score (or_else (trust_given g) (whole 1));
  goal = clamp_score (or_else (goal_given g) (whole 1));
  steps = [];
  reason_codes = [];
  dangerous_patterns = [];
  blocking = none;
  consecutive_failures = 0;
  resilience = record {
    retries = 0;
    failures = 0;
    timeouts = 0;
    circuit_open = false;
    rate_limited = 0;
  };
  timestamps = [];
  world = w;
}

module _ {World : Type 0} (env : QualityEnv World) where
  unfoldable pub run_validated :
      QualityRequest → ResolvedPolicy → Result (List Handoff) → World → Result QualityResult × World
  unfolding run_stages quality_result first_quality_run
  run_validated r p (err m) w = (err m, w)
  run_validated r p (ok hs) w =
      let s = run_stages env p r.verifier_trust_input hs (first_quality_run r.gate_input w) in
      (ok (quality_result env p hs s), s.world)

  unfoldable pub execute_quality_path :
      QualityRequest → QualityPolicy → World → Result QualityResult × World
  unfolding run_validated compose_quality_path validate_all resolve_quality_execution_policy
  execute_quality_path r policy w =
      let p = resolve_quality_execution_policy policy in
      let (handoffs, w') =
        compose_quality_path env.office r.planning (some p.include_tester) (some p.include_reviewer)
          (some p.include_verifier) w in
      run_validated r p (validate_all env.validate handoffs) w'
