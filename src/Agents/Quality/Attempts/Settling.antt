-- ===== src/Agents/Quality/Attempts/Settling.antt =====
-- What one attempt adds to the steps: one step for its handoff where the stage is settled, and
-- nothing where the attempt threw.
use agent_p.Common.{
  if_both, ℕ, suc, ◌≤◌, ◌≡◌, refl, ap, ◌∙◌, Option, none, some, Bool, true, false, List, [], ◌∷◌,
  ◌++◌, length, ltb, leb,
}
use agent_p.Agents.Types.{
  AgentRole, expert, scout, builder, tester, reviewer, verifier, Handoff, TesterPlan,
  ReviewerAssessment, VerifierAssessment, TrustInput, DangerousPatternMatch,
}
use agent_p.Agents.Dangerous.{detect_dangerous_patterns}
use agent_p.Agents.Quality.Types.{ResolvedPolicy, GateState, QualityStep}
use agent_p.Agents.Quality.State.{QualityRun, forget_old, failed_step, executed_step}
use agent_p.Agents.Quality.Attempts.{
  Raced, resolved, rejected, timed_out, QualityEnv, Attempt, settled, threw, push_executed,
  after_tester, after_reviewer, after_verifier, call_stage, refuse, limited, attempt_stage,
  score_review, score_verification, score_by, note_patterns,
}

abbrev AtMost : ℕ → Option ℕ → Type 0
AtMost n none = Unit
AtMost n (some k) = k ≤ n

-- At most `n` attempts were made.
abbrev pub Tried : ℕ → QualityStep → Type 0
Tried n q = AtMost n q.attempts

-- One step was added, for the handoff `h`, with at most `n` attempts.
pub record Adds (n : ℕ) (h : Handoff) (xs ys : List QualityStep) : Type 0 where
  pub step : QualityStep
  pub added : ys ≡ xs ++ step ∷ []
  pub of : step.handoff ≡ h
  pub tried : Tried n step

abbrev pub Settles : {World : Type 0} → ℕ → Handoff → List QualityStep → Attempt World → Type 0
Settles n h xs (settled t) = Adds n h xs t.steps
Settles n h xs (threw timed started t) = t.steps ≡ xs

module _ (n : ℕ) (h : Handoff) (xs ys : List QualityStep) where
  pub add_behind :
      (q : QualityStep) → ys ≡ xs → q.handoff ≡ h → Tried n q → Adds n h xs (ys ++ q ∷ [])
  add_behind q e of tried = record {
    step = q;
    added = ap (λ qs. qs ++ q ∷ []) e;
    of = of;
    tried = tried;
  }

module _ {World : Type 0} (env : QualityEnv World) (p : ResolvedPolicy) where
  push_executed-Adds :
      (n : ℕ) (h : Handoff) (g : GateState) (attempts started : ℕ) (xs : List QualityStep)
      (t : QualityRun World)
      → suc attempts ≤ n
      → t.steps ≡ xs
      → (r : _) → Adds n h xs (push_executed env p h g r attempts started t).steps
  unfolding push_executed executed_step
  push_executed-Adds n h g attempts started xs t le e r = add_behind n h xs t.steps _ e refl le

  score_review-steps :
      (found : List DangerousPatternMatch) (s : QualityRun World)
      → (score_review env p found s).steps ≡ s.steps
  unfolding score_review
  score_review-steps [] s = refl
  score_review-steps (a ∷ qs) s = refl

  score_by-steps :
      (b : Bool) (v : VerifierAssessment) (s : QualityRun World)
      → (score_by env p b v s).steps ≡ s.steps
  unfolding score_by
  score_by-steps true v s = refl
  score_by-steps false v s = refl

  note_patterns-steps :
      (found : List DangerousPatternMatch) (s : QualityRun World)
      → (note_patterns env p found s).steps ≡ s.steps
  unfolding note_patterns
  note_patterns-steps [] s = refl
  note_patterns-steps (a ∷ qs) s = refl

  score_verification-steps :
      (v : VerifierAssessment) (found : List DangerousPatternMatch) (s : QualityRun World)
      → (score_verification env p v found s).steps ≡ s.steps
  unfolding score_verification
  score_verification-steps v found s = score_by-steps _ v _ ∙ note_patterns-steps found _

  module _ (n : ℕ) (h : Handoff) (g : GateState) (attempts : ℕ) (le : suc attempts ≤ n) where
    after_tester-Settles :
        (started : ℕ) (xs : List QualityStep) (t : QualityRun World) (r : Raced TesterPlan × World)
        → t.steps ≡ xs
        → Settles n h xs (after_tester env p h g attempts started t r)
    unfolding after_tester
    after_tester-Settles started xs t (resolved r, w) e =
        push_executed-Adds n h g attempts started xs (record t { world = w }) le e _
    after_tester-Settles started xs t (rejected, w) e = e
    after_tester-Settles started xs t (timed_out, w) e = e

    after_reviewer-Settles :
        (started : ℕ) (xs : List QualityStep) (t : QualityRun World)
        (r : Raced ReviewerAssessment × World)
        → t.steps ≡ xs
        → Settles n h xs (after_reviewer env p h g attempts started t r)
    unfolding after_reviewer
    after_reviewer-Settles started xs t (resolved r, w) e =
        push_executed-Adds n h g attempts started xs
          (score_review env p (detect_dangerous_patterns env.pattern_test h.query h.analysis)
            (record t { world = w }))
          le (score_review-steps _ _ ∙ e) _
    after_reviewer-Settles started xs t (rejected, w) e = e
    after_reviewer-Settles started xs t (timed_out, w) e = e

    after_verifier-Settles :
        (started : ℕ) (xs : List QualityStep) (t : QualityRun World)
        (r : Raced VerifierAssessment × World)
        → t.steps ≡ xs
        → Settles n h xs (after_verifier env p h g attempts started t r)
    unfolding after_verifier
    after_verifier-Settles started xs t (resolved r, w) e =
        push_executed-Adds n h g attempts started xs
          (score_verification env p r
            (detect_dangerous_patterns env.pattern_test h.query h.analysis)
            (record t { world = w }))
          le (score_verification-steps r _ _ ∙ e) _
    after_verifier-Settles started xs t (rejected, w) e = e
    after_verifier-Settles started xs t (timed_out, w) e = e

    call_stage-Settles :
        (trust : Option TrustInput) (role : AgentRole) (started : ℕ) (xs : List QualityStep)
        (t : QualityRun World)
        → t.steps ≡ xs
        → Settles n h xs (call_stage env p trust role h g attempts started t)
    unfolding call_stage
    call_stage-Settles trust tester started xs t e = after_tester-Settles started xs t _ e
    call_stage-Settles trust reviewer started xs t e = after_reviewer-Settles started xs t _ e
    call_stage-Settles trust verifier started xs t e = after_verifier-Settles started xs t _ e
    call_stage-Settles trust expert started xs t e = e
    call_stage-Settles trust scout started xs t e = e
    call_stage-Settles trust builder started xs t e = e

    refuse-Adds :
        (started : ℕ) (xs : List QualityStep) (t : QualityRun World)
        → t.steps ≡ xs
        → Adds n h xs (refuse env p h g attempts started t).steps
    unfolding refuse failed_step
    refuse-Adds started xs t e = add_behind n h xs t.steps _ e refl le

    limited-Settles :
        (trust : Option TrustInput) (started : ℕ) (xs : List QualityStep) (t : QualityRun World)
        → t.steps ≡ xs
        → Settles n h xs (limited env p trust h g attempts started t)
    unfolding limited
    limited-Settles trust started xs t e =
        if_both (Settles n h xs) (leb p.rate_limit_max_executions (length t.timestamps))
          (settled (refuse env p h g attempts started t)) _ (refuse-Adds started xs t e)
          (call_stage-Settles trust h.to started xs
            (record t { timestamps = t.timestamps ++ started ∷ [] }) e)

    pub attempt_stage-Settles :
        (trust : Option TrustInput) (xs : List QualityStep) (s : QualityRun World)
        → s.steps ≡ xs
        → Settles n h xs (attempt_stage env p trust h g attempts s)
    unfolding attempt_stage
    attempt_stage-Settles trust xs s e =
        let (started, w) = env.office.now s.world in
        if_both (Settles n h xs) (ltb 0 p.rate_limit_max_executions) _ _
          (limited-Settles trust started xs
            (record s {
              timestamps = forget_old started p.rate_limit_window_ms s.timestamps;
              world = w;
            })
            e)
          (call_stage-Settles trust h.to started xs (record s { world = w }) e)
