-- ===== src/Agents/Quality/Attempts.antt =====
-- One attempt at a stage of the quality path: the body of the inner loop of `executeQualityPath`
-- (src/agents/expert.ts), with `withTimeout`, the rate limit, the three calls and their scores.
pub mod Settling
use agent_p.Common.{
  ℕ, suc, ◌-◌, String, Option, some, Bool, true, false, ◌||◌, List, [], ◌∷◌, ◌++◌, any, length, ltb,
  leb, or_else, Result, if◌then◌else◌,
}
use text.Mathlib.Text.{starts_with}
use agent_p.Agents.Types.{
  AgentRole, expert, scout, builder, tester, reviewer, verifier, Handoff, TesterPlan,
  ReviewerAssessment, VerifierAssessment, GateDecision, TrustInput, DangerousPatternMatch,
}
use agent_p.Agents.Handoffs.{Office}
use agent_p.Agents.Dangerous.{detect_dangerous_patterns}
use agent_p.Agents.Quality.Types.{
  one, ResolvedPolicy, GateState, rate_limited, HopResult, tester_hop, reviewer_hop, verifier_hop,
}
use agent_p.Agents.Quality.State.{
  QualityRun, add_code, add_codes, code_of, executed_step, failed_step, forget_old,
  add_dangerous_patterns,
}

-- How a call under `withTimeout` ends: the race of the call with the timer is the runtime's.
pub data Raced (A : Type 0) : Type 0 where
  resolved : A → Raced A
  rejected : Raced A
  timed_out : Raced A

-- What the orchestrator has from outside: the clock and the digest, the schema check, the regular
-- expressions, and the three subagents, each called with a timeout in milliseconds.
pub record QualityEnv (World : Type 0) : Type 0 where
  pub office : Office World
  pub validate : Handoff → Result Handoff
  pub pattern_test : String → String → Bool
  pub tester_plan : ℕ → Handoff → World → Raced TesterPlan × World
  pub reviewer_assess : ℕ → Handoff → World → Raced ReviewerAssessment × World
  pub verifier_assess : ℕ → Handoff → Option TrustInput → World → Raced VerifierAssessment × World

-- One attempt: the stage is settled, or it threw after it started, by a timeout or not.
pub data Attempt (World : Type 0) : Type 0 where
  settled : QualityRun World → Attempt World
  threw : Bool → ℕ → QualityRun World → Attempt World

goal_of : GateDecision → ℕ
goal_of GateDecision.pass = one
goal_of GateDecision.fail = 0

unfoldable pub has_dangerous_code : VerifierAssessment → Bool
has_dangerous_code v = any (λ c. starts_with c "dangerous_") (or_else v.reason_codes [])

module _ {World : Type 0} (env : QualityEnv World) (p : ResolvedPolicy) where
  -- The stage is executed with the result `r`.
  unfoldable pub push_executed :
      Handoff → GateState → HopResult → ℕ → ℕ → QualityRun World → QualityRun World
  unfolding executed_step
  push_executed h g r attempts started s =
      let (ended, w) = env.office.now s.world in
      record s {
        consecutive_failures = 0;
        steps = s.steps ++ executed_step h g r (suc attempts) (ended - started) ∷ [];
        world = w;
      }

  unfoldable pub after_tester :
      Handoff → GateState → ℕ → ℕ → QualityRun World → Raced TesterPlan × World → Attempt World
  unfolding push_executed
  after_tester h g attempts started s (resolved r, w) =
      settled (push_executed h g (tester_hop r) attempts started (record s { world = w }))
  after_tester h g attempts started s (rejected, w) = threw false started (record s { world = w })
  after_tester h g attempts started s (timed_out, w) = threw true started (record s { world = w })

  -- The reviewer's handoff is searched for dangerous patterns, which put both scores to 0.
  unfoldable pub score_review : List DangerousPatternMatch → QualityRun World → QualityRun World
  unfolding add_dangerous_patterns
  score_review [] s = s
  score_review (a ∷ qs) s = record (add_dangerous_patterns (a ∷ qs) s) { trust = 0; goal = 0 }

  unfoldable pub after_reviewer :
      Handoff
      → GateState
      → ℕ
      → ℕ
      → QualityRun World
      → Raced ReviewerAssessment × World
      → Attempt World
  unfolding push_executed score_review detect_dangerous_patterns
  after_reviewer h g attempts started s (resolved r, w) = settled (
      push_executed h g (reviewer_hop r) attempts started (
        score_review (detect_dangerous_patterns env.pattern_test h.query h.analysis)
          (record s { world = w })))
  after_reviewer h g attempts started s (rejected, w) = threw false started (record s { world = w })
  after_reviewer h g attempts started s (timed_out, w) = threw true started (record s { world = w })

  -- The verifier's own score and decision count where no dangerous pattern or code is found.
  unfoldable pub score_by : Bool → VerifierAssessment → QualityRun World → QualityRun World
  unfolding goal_of
  score_by true v s = record s { trust = 0; goal = 0 }
  score_by false v s = record s { trust = v.trust_score; goal = goal_of v.gate_decision }

  found_any : List DangerousPatternMatch → Bool
  found_any [] = false
  found_any (a ∷ qs) = true

  unfoldable pub note_patterns : List DangerousPatternMatch → QualityRun World → QualityRun World
  unfolding add_dangerous_patterns
  note_patterns [] s = s
  note_patterns (a ∷ qs) s = add_dangerous_patterns (a ∷ qs) s

  unfoldable pub score_verification :
      VerifierAssessment → List DangerousPatternMatch → QualityRun World → QualityRun World
  unfolding score_by found_any note_patterns add_codes has_dangerous_code
  score_verification v found s = score_by (has_dangerous_code v || found_any found) v (
      note_patterns found
        (record s { reason_codes = add_codes (or_else v.reason_codes []) s.reason_codes }))

  unfoldable pub after_verifier :
      Handoff
      → GateState
      → ℕ
      → ℕ
      → QualityRun World
      → Raced VerifierAssessment × World
      → Attempt World
  unfolding push_executed score_verification detect_dangerous_patterns
  after_verifier h g attempts started s (resolved r, w) = settled (
      push_executed h g (verifier_hop r) attempts started (
        score_verification r (detect_dangerous_patterns env.pattern_test h.query h.analysis)
          (record s { world = w })))
  after_verifier h g attempts started s (rejected, w) = threw false started (record s { world = w })
  after_verifier h g attempts started s (timed_out, w) = threw true started (record s { world = w })

  -- The `try` of an attempt; a handoff to another role throws there.
  unfoldable pub call_stage :
      Option TrustInput → AgentRole → Handoff → GateState → ℕ → ℕ → QualityRun World → Attempt World
  unfolding after_tester after_reviewer after_verifier
  call_stage trust tester h g attempts started s =
      after_tester h g attempts started s (env.tester_plan p.stage_timeout_ms h s.world)
  call_stage trust reviewer h g attempts started s =
      after_reviewer h g attempts started s (env.reviewer_assess p.stage_timeout_ms h s.world)
  call_stage trust verifier h g attempts started s =
      after_verifier h g attempts started s (env.verifier_assess p.stage_timeout_ms h trust s.world)
  call_stage trust expert h g attempts started s = threw false started s
  call_stage trust scout h g attempts started s = threw false started s
  call_stage trust builder h g attempts started s = threw false started s

  -- An attempt that the rate limit refuses.
  unfoldable pub refuse : Handoff → GateState → ℕ → ℕ → QualityRun World → QualityRun World
  unfolding failed_step add_code code_of
  refuse h g attempts started s =
      let (ended, w) = env.office.now s.world in
      record s {
        reason_codes = add_code (code_of rate_limited) s.reason_codes;
        resilience = record s.resilience { rate_limited = suc s.resilience.rate_limited };
        steps = s.steps ++ failed_step h g rate_limited (suc attempts) (ended - started) ∷ [];
        blocking = if p.continue_on_rate_limit then s.blocking else some rate_limited;
        world = w;
      }

  -- The attempt behind the rate limit, with the timestamps of its window in `s`.
  unfoldable pub limited :
      Option TrustInput → Handoff → GateState → ℕ → ℕ → QualityRun World → Attempt World
  unfolding refuse call_stage
  limited trust h g attempts started s =
      if leb p.rate_limit_max_executions (length s.timestamps)
      then settled (refuse h g attempts started s)
      else call_stage trust h.to h g attempts started
          (record s { timestamps = s.timestamps ++ started ∷ [] })

  unfoldable pub attempt_stage :
      Option TrustInput → Handoff → GateState → ℕ → QualityRun World → Attempt World
  unfolding limited call_stage forget_old
  attempt_stage trust h g attempts s =
      let (started, w) = env.office.now s.world in
      let s' = record s { world = w } in
      if ltb 0 p.rate_limit_max_executions
      then limited trust h g attempts started
          (record s' { timestamps = forget_old started p.rate_limit_window_ms s.timestamps })
      else call_stage trust h.to h g attempts started s'
