-- ===== src/Agents/Quality/Steps.antt =====
-- The steps that the quality path reports: one for each handoff, with bounded attempts.
use agent_p.Common.{
  if_both, ℕ, zero, suc, ◌+◌, ◌≤◌, ◌≡◌, refl, sym, ap, ◌∙◌, Option, none, some, Bool, true, false,
  List, [], ◌∷◌, ◌++◌, map, append_assoc, append-nil, All, arith,
}
use agent_p.Agents.Types.{Handoff, TrustInput}
use agent_p.Agents.Quality.Types.{ResolvedPolicy, GateState, SkipReason, QualityStep}
use agent_p.Agents.Quality.State.{QualityRun, skip_stage, skip_blocked, skipped_step, failed_step}
use agent_p.Agents.Quality.Attempts.{QualityEnv, Attempt, settled, threw, attempt_stage}
use agent_p.Agents.Quality.{
  give_up, open_circuit, run_attempts, behind_gates, behind_block, run_stage, run_stages,
}
use agent_p.Agents.Quality.Attempts.Settling.{
  Tried, Adds, Settles, add_behind, attempt_stage-Settles,
}

-- What the handoffs `hs` add to the steps `xs`.
pub record AddsAll (n : ℕ) (hs : List Handoff) (xs ys : List QualityStep) : Type 0 where
  pub new : List QualityStep
  pub added : ys ≡ xs ++ new
  pub of : map (λ (q : QualityStep). q.handoff) new ≡ hs
  pub tried : All (Tried n) new

module _ {World : Type 0} (env : QualityEnv World) (p : ResolvedPolicy) where
  open_circuit-steps : (b : Bool) (s : QualityRun World) → (open_circuit env p b s).steps ≡ s.steps
  unfolding open_circuit
  open_circuit-steps true s = refl
  open_circuit-steps false s = refl

  give_up-Adds :
      (n : ℕ) (h : Handoff) (g : GateState) (attempts : ℕ) (timed : Bool) (started : ℕ)
      (xs : List QualityStep) (t : QualityRun World)
      → suc attempts ≤ n
      → t.steps ≡ xs
      → Adds n h xs (give_up env p h g attempts timed started t).steps
  unfolding give_up failed_step
  give_up-Adds n h g attempts timed started xs t le e =
      add_behind n h xs _ _ (open_circuit-steps _ _ ∙ e) refl le

  -- The end of the loop, and its next round, behind an attempt.
  settle-Adds :
      (n : ℕ) (h : Handoff) (xs : List QualityStep) (r : Attempt World)
      (k : Bool → ℕ → QualityRun World → QualityRun World)
      → Settles n h xs r
      → ((timed : Bool) (started : ℕ) (t : QualityRun World)
          → t.steps ≡ xs
          → Adds n h xs (k timed started t).steps)
      → (let end : QualityRun World = elim r [
        | settled t ↦ t
        | threw timed started t ↦ k timed started t
      ] in
          Adds n h xs end.steps)
  settle-Adds n h xs (settled t) k e f = e
  settle-Adds n h xs (threw timed started t) k e f = f timed started t e

  run_attempts-Adds :
      (n left : ℕ) (trust : Option TrustInput) (h : Handoff) (g : GateState) (attempts : ℕ)
      (xs : List QualityStep) (t : QualityRun World)
      → suc attempts + left ≤ n
      → t.steps ≡ xs
      → Adds n h xs (run_attempts env p left trust h g attempts t).steps
  unfolding run_attempts
  run_attempts-Adds n zero trust h g attempts xs t le e =
      settle-Adds n h xs (attempt_stage env p trust h g attempts t) _
        (attempt_stage-Settles env p n h g attempts (omega (arith, le)) trust xs t e)
        (λ timed started u k. give_up-Adds n h g attempts timed started xs u (omega (arith, le)) k)
  run_attempts-Adds n (suc left) trust h g attempts xs t le e =
      settle-Adds n h xs (attempt_stage env p trust h g attempts t) _
        (attempt_stage-Settles env p n h g attempts (omega (arith, le)) trust xs t e)
        (λ timed started u k.
          run_attempts-Adds n left trust h g (suc attempts) xs
            (record u { resilience = record u.resilience { retries = suc u.resilience.retries } })
            (omega (arith, le)) k)

  behind_gates-Adds :
      (trust : Option TrustInput) (h : Handoff) (g : GateState) (why : Option SkipReason)
      (s : QualityRun World)
      → Adds (suc p.max_stage_retries) h s.steps (behind_gates env p trust h g why s).steps
  unfolding behind_gates skip_stage skipped_step
  behind_gates-Adds trust h g (some why) s = add_behind _ h s.steps s.steps _ refl refl tt
  behind_gates-Adds trust h g none s =
      run_attempts-Adds (suc p.max_stage_retries) p.max_stage_retries trust h g 0 s.steps s
        (omega arith) refl

  behind_block-Adds :
      (trust : Option TrustInput) (h : Handoff) (g : GateState) (why : Option SkipReason)
      (s : QualityRun World)
      → Adds (suc p.max_stage_retries) h s.steps (behind_block env p trust h g why s).steps
  unfolding behind_block skip_stage skip_blocked skipped_step
  behind_block-Adds trust h g (some why) s = add_behind _ h s.steps s.steps _ refl refl tt
  behind_block-Adds trust h g none s =
      if_both (λ (t : QualityRun World). Adds (suc p.max_stage_retries) h s.steps t.steps)
        s.resilience.circuit_open _ _ (add_behind _ h s.steps s.steps _ refl refl tt)
        (behind_gates-Adds trust h g _ s)

  pub run_stage-Adds :
      (trust : Option TrustInput) (h : Handoff) (s : QualityRun World)
      → Adds (suc p.max_stage_retries) h s.steps (run_stage env p trust h s).steps
  unfolding run_stage
  run_stage-Adds trust h s = behind_block-Adds trust h _ s.blocking s

  pub run_stages-AddsAll :
      (trust : Option TrustInput) (hs : List Handoff) (s : QualityRun World)
      → AddsAll (suc p.max_stage_retries) hs s.steps (run_stages env p trust hs s).steps
  unfolding run_stages
  run_stages-AddsAll trust [] s = record {
    new = [];
    added = sym (append-nil s.steps);
    of = refl;
    tried = tt;
  }
  run_stages-AddsAll trust (h ∷ hs) s =
      let one = run_stage-Adds trust h s in
      let rest = run_stages-AddsAll trust hs (run_stage env p trust h s) in
      record {
        new = one.step ∷ rest.new;
        added =
            rest.added
            ∙ ap (λ xs. xs ++ rest.new) one.added
            ∙ append_assoc s.steps (one.step ∷ []) rest.new;
        of = rw (one.of, rest.of) refl;
        tried = (one.tried, rest.tried);
      }
