-- ===== src/Agents/Quality/Halts.antt =====
-- Where the quality path stops calling agents: a blocking reason, an open circuit, a closed gate.
use agent_p.Common.{
  ℕ, ◌≡◌, refl, sym, ap, ◌∙◌, ◌⊎◌, inl, inr, Option, none, some, Bool, true, false, List, [], ◌∷◌,
  ◌++◌, append_assoc, append-nil, All, All-append, if◌then◌else◌,
}
use agent_p.Agents.Types.{Handoff, TrustInput}
use agent_p.Agents.Quality.Types.{
  ResolvedPolicy, GateState, SkipReason, circuit_open, skipped, QualityStep,
}
use agent_p.Agents.Quality.State.{
  QualityRun, to_gate_state, resolve_skip_reason, skip_stage, skip_blocked, skipped_step,
}
use agent_p.Agents.Quality.Attempts.{QualityEnv}
use agent_p.Agents.Quality.{behind_gates, behind_block, run_stage, run_stages}

-- The gates of a policy at two scores give a reason to skip.
abbrev pub Closed : ResolvedPolicy → ℕ → ℕ → Type 0
Closed p trust goal =
    (why : SkipReason) × (resolve_skip_reason (to_gate_state p trust goal) p ≡ some why)

abbrev pub Stops : ResolvedPolicy → Option SkipReason → Bool → ℕ → ℕ → Type 0
Stops p blocking circuit trust goal =
    ((why : SkipReason) × (blocking ≡ some why)) ⊎ ((circuit ≡ true) ⊎ Closed p trust goal)

-- A stage failed for good and the policy does not go on, the circuit is open, or a gate is closed.
abbrev pub Halted : {World : Type 0} → ResolvedPolicy → QualityRun World → Type 0
Halted p s = Stops p s.blocking s.resilience.circuit_open s.trust s.goal

-- A step that was skipped before any attempt.
abbrev pub IsUntried : QualityStep → Type 0
IsUntried q = (q.status ≡ skipped) × (q.attempts ≡ none)

-- Nothing but skipped steps and reason codes was added: no agent was called and no score changed.
pub record Idle {World : Type 0} (s t : QualityRun World) : Type 0 where
  pub world : t.world ≡ s.world
  pub trust : t.trust ≡ s.trust
  pub goal : t.goal ≡ s.goal
  pub blocking : t.blocking ≡ s.blocking
  pub resilience : t.resilience ≡ s.resilience
  pub new : List QualityStep
  pub added : t.steps ≡ s.steps ++ new
  pub untried : All IsUntried new

module _ {World : Type 0} where
  skip_stage-Idle :
      (h : Handoff) (g : GateState) (why : SkipReason) (s : QualityRun World)
      → Idle s (skip_stage h g why s)
  unfolding skip_stage skipped_step
  skip_stage-Idle h g why s = record {
    world = refl;
    trust = refl;
    goal = refl;
    blocking = refl;
    resilience = refl;
    new = _ ∷ [];
    added = refl;
    untried = ((refl, refl), tt);
  }

  skip_blocked-Idle :
      (h : Handoff) (g : GateState) (why : SkipReason) (s : QualityRun World)
      → Idle s (skip_blocked h g why s)
  unfolding skip_blocked skipped_step
  skip_blocked-Idle h g why s = record {
    world = refl;
    trust = refl;
    goal = refl;
    blocking = refl;
    resilience = refl;
    new = _ ∷ [];
    added = refl;
    untried = ((refl, refl), tt);
  }

module _ {World : Type 0} (env : QualityEnv World) (p : ResolvedPolicy) where
  behind_gates-Idle :
      (trust : Option TrustInput) (h : Handoff) (g : GateState) (o : Option SkipReason)
      (s : QualityRun World)
      → ((why : SkipReason) × (o ≡ some why))
      → Idle s (behind_gates env p trust h g o s)
  unfolding behind_gates
  behind_gates-Idle trust h g (some why) s e = skip_stage-Idle h g why s
  behind_gates-Idle trust h g none s (why, e) = cc

  choice-Idle :
      (b : Bool) (s x y : QualityRun World)
      → Idle s x
      → ((b ≡ true) ⊎ Idle s y)
      → Idle s (if b then x else y)
  choice-Idle true s x y k l = k
  choice-Idle false s x y k (inl e) = cc
  choice-Idle false s x y k (inr l) = l

  behind_block-Idle :
      (trust : Option TrustInput) (h : Handoff) (blocking : Option SkipReason)
      (s : QualityRun World)
      → Stops p blocking s.resilience.circuit_open s.trust s.goal
      → Idle s (behind_block env p trust h (to_gate_state p s.trust s.goal) blocking s)
  unfolding behind_block
  behind_block-Idle trust h (some why) s e = skip_blocked-Idle h _ why s
  behind_block-Idle trust h none s (inl (why, e)) = cc
  behind_block-Idle trust h none s (inr (inl circuit)) =
      choice-Idle s.resilience.circuit_open s _ _ (skip_stage-Idle h _ circuit_open s) (inl circuit)
  behind_block-Idle trust h none s (inr (inr closed)) =
      choice-Idle s.resilience.circuit_open s _ _ (skip_stage-Idle h _ circuit_open s)
        (inr (behind_gates-Idle trust h (to_gate_state p s.trust s.goal) _ s closed))

  -- From a halted run on, no agent is called for any of the handoffs: the world, the scores and the
  -- counters stay, and each of the steps added is skipped before any attempt.
  pub run_stages-Idle :
      (trust : Option TrustInput) (hs : List Handoff) (s : QualityRun World)
      → Halted p s
      → Idle s (run_stages env p trust hs s)
  unfolding run_stages run_stage
  run_stages-Idle trust [] s h = record {
    world = refl;
    trust = refl;
    goal = refl;
    blocking = refl;
    resilience = refl;
    new = [];
    added = sym (append-nil s.steps);
    untried = tt;
  }
  run_stages-Idle trust (h ∷ hs) s k =
      let one = behind_block-Idle trust h s.blocking s k in
      let t = run_stage env p trust h s in
      let still : Halted p t =
        rw (one.blocking, ap (λ r. r.circuit_open) one.resilience, one.trust, one.goal) k in
      let rest = run_stages-Idle trust hs t still in
      record {
        world = rest.world ∙ one.world;
        trust = rest.trust ∙ one.trust;
        goal = rest.goal ∙ one.goal;
        blocking = rest.blocking ∙ one.blocking;
        resilience = rest.resilience ∙ one.resilience;
        new = one.new ++ rest.new;
        added =
            rest.added
            ∙ ap (λ xs. xs ++ rest.new) one.added
            ∙ append_assoc s.steps one.new rest.new;
        untried = All-append IsUntried one.new rest.new one.untried rest.untried;
      }
