-- ===== src/Agents/Quality/Danger.antt =====
-- What a dangerous pattern in the reviewer's handoff does to the rest of the quality path.
use agent_p.Common.{
  ℕ, zero, suc, ◌<◌, ◌≡◌, refl, inr, Option, none, some, Bool, true, false, List, [], ◌∷◌, ltb,
  if◌then◌else◌, arith,
}
use agent_p.Agents.Types.{
  AgentRole, expert, scout, builder, tester, reviewer, verifier, Handoff, ReviewerAssessment,
  TrustInput, DangerousPatternMatch,
}
use agent_p.Agents.Dangerous.{detect_dangerous_patterns}
use agent_p.Agents.Quality.Types.{ResolvedPolicy, GateState, SkipReason, trust_gate}
use agent_p.Agents.Quality.State.{QualityRun, to_gate_state, resolve_skip_reason}
use agent_p.Agents.Quality.Attempts.{
  Raced, resolved, rejected, timed_out, QualityEnv, Attempt, settled, threw, push_executed,
  after_reviewer, call_stage, attempt_stage, score_review,
}
use agent_p.Agents.Quality.{run_attempts, behind_gates, behind_block, run_stage, run_stages}
use agent_p.Agents.Quality.Halts.{Closed, Idle, run_stages-Idle}

-- Both scores are 0.
abbrev pub Zeroed : {World : Type 0} → QualityRun World → Type 0
Zeroed s = (s.trust ≡ 0) × (s.goal ≡ 0)

abbrev SettlesZeroed : {World : Type 0} → Attempt World → Type 0
SettlesZeroed (settled t) = Zeroed t
SettlesZeroed (threw timed started t) = ⊥

-- The trust gate counts, is above 0 and is not passed over.
pub record GuardsTrust (p : ResolvedPolicy) : Type 0 where
  pub enforced : p.enforce_trust_gate ≡ true
  pub strict : p.continue_on_trust_gate_failure ≡ false
  pub above : 0 < p.min_trust_score

module _ {World : Type 0} (env : QualityEnv World) (p : ResolvedPolicy) where
  score_review-Zeroed :
      (found : List DangerousPatternMatch) {a : DangerousPatternMatch}
      {more : List DangerousPatternMatch} (s : QualityRun World)
      → found ≡ a ∷ more
      → Zeroed (score_review env p found s)
  unfolding score_review
  score_review-Zeroed [] s e = cc
  score_review-Zeroed (a ∷ more) s e = (refl, refl)

  module _ (h : Handoff) {a : DangerousPatternMatch} {more : List DangerousPatternMatch}
      (danger : detect_dangerous_patterns env.pattern_test h.query h.analysis ≡ a ∷ more) where
    after_reviewer-Zeroed :
        (g : GateState) (k started : ℕ) (s : QualityRun World)
        (answer : Raced ReviewerAssessment × World) {r : ReviewerAssessment}
        → answer.0 ≡ resolved r
        → SettlesZeroed (after_reviewer env p h g k started s answer)
    unfolding after_reviewer push_executed
    after_reviewer-Zeroed g k started s (resolved r, w) e =
        score_review-Zeroed _ (record s { world = w }) danger
    after_reviewer-Zeroed g k started s (rejected, w) e = cc
    after_reviewer-Zeroed g k started s (timed_out, w) e = cc

    call_stage-Zeroed :
        (trust : Option TrustInput) (role : AgentRole) (g : GateState) (k started : ℕ)
        (s : QualityRun World) {r : ReviewerAssessment}
        → role ≡ reviewer
        → (env.reviewer_assess p.stage_timeout_ms h s.world).0 ≡ resolved r
        → SettlesZeroed (call_stage env p trust role h g k started s)
    unfolding call_stage
    call_stage-Zeroed trust reviewer g k started s to e = after_reviewer-Zeroed g k started s _ e
    call_stage-Zeroed trust tester g k started s to e = ground arith
    call_stage-Zeroed trust verifier g k started s to e = ground arith
    call_stage-Zeroed trust expert g k started s to e = ground arith
    call_stage-Zeroed trust scout g k started s to e = ground arith
    call_stage-Zeroed trust builder g k started s to e = ground arith

    choice-Zeroed :
        (b : Bool) (x y : Attempt World)
        → b ≡ false
        → SettlesZeroed y
        → SettlesZeroed (if b then x else y)
    choice-Zeroed true x y e k = cc
    choice-Zeroed false x y e k = k

    settle-Zeroed :
        (r : Attempt World) (k : Bool → ℕ → QualityRun World → QualityRun World)
        → SettlesZeroed r
        → (let end : QualityRun World = elim r [
          | settled t ↦ t
          | threw timed started t ↦ k timed started t
        ] in
            Zeroed end)
    settle-Zeroed (settled t) k e = e
    settle-Zeroed (threw timed started t) k e = elim e [ ]

    module _ (trust : Option TrustInput) {r : ReviewerAssessment} (to : h.to ≡ reviewer)
        (unlimited : p.rate_limit_max_executions ≡ 0) where
      attempt_stage-Zeroed :
          (g : GateState) (k : ℕ) (s : QualityRun World)
          → (env.reviewer_assess p.stage_timeout_ms h (env.office.now s.world).1).0 ≡ resolved r
          → SettlesZeroed (attempt_stage env p trust h g k s)
      unfolding attempt_stage
      attempt_stage-Zeroed g k s e =
          choice-Zeroed (ltb 0 p.rate_limit_max_executions) _ _ (rw unlimited refl)
            (call_stage-Zeroed trust h.to g k _ _ to e)

      run_attempts-Zeroed :
          (left : ℕ) (g : GateState) (s : QualityRun World)
          → (env.reviewer_assess p.stage_timeout_ms h (env.office.now s.world).1).0 ≡ resolved r
          → Zeroed (run_attempts env p left trust h g 0 s)
      unfolding run_attempts
      run_attempts-Zeroed zero g s e =
          settle-Zeroed (attempt_stage env p trust h g 0 s) _ (attempt_stage-Zeroed g 0 s e)
      run_attempts-Zeroed (suc left) g s e =
          settle-Zeroed (attempt_stage env p trust h g 0 s) _ (attempt_stage-Zeroed g 0 s e)

  Zeroed-Closed : GuardsTrust p → (s : QualityRun World) → Zeroed s → Closed p s.trust s.goal
  unfolding to_gate_state resolve_skip_reason
  Zeroed-Closed guards s (trust, goal) =
      (trust_gate, rw (trust, goal) (ground (arith, guards.enforced, guards.strict, guards.above)))

-- Nothing keeps the next stage from being run.
pub record Runs {World : Type 0} (p : ResolvedPolicy) (s : QualityRun World) : Type 0 where
  pub unblocked : s.blocking ≡ none
  pub closed_circuit : s.resilience.circuit_open ≡ false
  pub gates : resolve_skip_reason (to_gate_state p s.trust s.goal) p ≡ none

module _ {World : Type 0} (env : QualityEnv World) (p : ResolvedPolicy) where
  behind_gates-Zeroed :
      (trust : Option TrustInput) (h : Handoff) (g : GateState) (o : Option SkipReason)
      (s : QualityRun World)
      → o ≡ none
      → Zeroed (run_attempts env p p.max_stage_retries trust h g 0 s)
      → Zeroed (behind_gates env p trust h g o s)
  unfolding behind_gates
  behind_gates-Zeroed trust h g none s e k = k
  behind_gates-Zeroed trust h g (some why) s e k = cc

  pick-Zeroed :
      (b : Bool) (x y : QualityRun World) → b ≡ false → Zeroed y → Zeroed (if b then x else y)
  pick-Zeroed true x y e k = cc
  pick-Zeroed false x y e k = k

  behind_block-Zeroed :
      (trust : Option TrustInput) (h : Handoff) (g : GateState) (blocking : Option SkipReason)
      (s : QualityRun World)
      → blocking ≡ none
      → s.resilience.circuit_open ≡ false
      → Zeroed (behind_gates env p trust h g (resolve_skip_reason g p) s)
      → Zeroed (behind_block env p trust h g blocking s)
  unfolding behind_block
  behind_block-Zeroed trust h g none s e circuit k =
      pick-Zeroed s.resilience.circuit_open _ _ circuit k
  behind_block-Zeroed trust h g (some why) s e circuit k = cc

  -- Where the reviewer's stage is run without a rate limit, the reviewer answers and its handoff has
  -- a dangerous pattern, both scores are 0 behind the stage, whatever gates the policy has.
  pub run_stage-Zeroed :
      (trust : Option TrustInput) (h : Handoff) (s : QualityRun World) {a : DangerousPatternMatch}
      {more : List DangerousPatternMatch} {r : ReviewerAssessment}
      → p.rate_limit_max_executions ≡ 0
      → Runs p s
      → h.to ≡ reviewer
      → detect_dangerous_patterns env.pattern_test h.query h.analysis ≡ a ∷ more
      → (env.reviewer_assess p.stage_timeout_ms h (env.office.now s.world).1).0 ≡ resolved r
      → Zeroed (run_stage env p trust h s)
  unfolding run_stage
  run_stage-Zeroed trust h s unlimited runs to danger answer =
      let g = to_gate_state p s.trust s.goal in
      let attempted =
        run_attempts-Zeroed env p h danger trust to unlimited p.max_stage_retries g s answer in
      behind_block-Zeroed trust h g s.blocking s runs.unblocked runs.closed_circuit
        (behind_gates-Zeroed trust h g _ s runs.gates attempted)

  -- Under a policy that enforces a trust gate above 0 and does not go on past it, where the reviewer's
  -- stage is run without a rate limit, the reviewer answers and its handoff has a dangerous pattern,
  -- both scores are 0 behind the stage, and no agent is called for any of the later handoffs: each of
  -- their steps is skipped before any attempt, and the world and the scores stay.
  pub run_stages-dangerous :
      (trust : Option TrustInput) (h : Handoff) (hs : List Handoff) (s : QualityRun World)
      {a : DangerousPatternMatch} {more : List DangerousPatternMatch} {r : ReviewerAssessment}
      → GuardsTrust p
      → p.rate_limit_max_executions ≡ 0
      → Runs p s
      → h.to ≡ reviewer
      → detect_dangerous_patterns env.pattern_test h.query h.analysis ≡ a ∷ more
      → (env.reviewer_assess p.stage_timeout_ms h (env.office.now s.world).1).0 ≡ resolved r
      → let t = run_stage env p trust h s in Zeroed t × Idle t (run_stages env p trust hs t)
  run_stages-dangerous trust h hs s guards unlimited runs to danger answer =
      let t = run_stage env p trust h s in
      let zeroed : Zeroed t = run_stage-Zeroed trust h s unlimited runs to danger answer in
      (zeroed, run_stages-Idle env p trust hs t (inr (inr (Zeroed-Closed env p guards t zeroed))))
