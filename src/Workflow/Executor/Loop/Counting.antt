-- ===== src/Workflow/Executor/Loop/Counting.antt =====
-- The cache counters of a run, and that a run with a store that saves comes to an end.
use Prim.Native.Nat.{◌<◌}
use agent_p.Common.{
  ℕ, suc, ◌+◌, ◌≤◌, ◌≡◌, refl, ◌⊎◌, inl, inr, Option, none, some, true, false, List, [], ◌∷◌,
  Result, ok, err, All, arith, Bool-cases, nat_eq,
}
use agent_p.Common.Sorted.{Increasing-tail, Increasing-above}
use agent_p.Workflow.Types.{PhasePlan, PhaseResult, RuntimeContext, Artifact}
use agent_p.Workflow.Results.{result_at, completed_result, is_completed}
use agent_p.Workflow.Results.Ordering.{InOrder}
use agent_p.Workflow.Executor.Env.{Env}
use agent_p.Workflow.Executor.State.{Job, Run, Outcome, next, stop, thrown}
use agent_p.Workflow.Executor.Loop.{
  run_phase, run_phases, round_at, replay_phase, replay_artifact, after_replay, replayed,
}
use agent_p.Workflow.Executor.Loop.Rounds.{Writes, Leaves, run_phase-Leaves}
use agent_p.Workflow.Executor.Loop.PlanOrder.{InPlanOrder, Outcome-cases}
use agent_p.Workflow.Executor.Loop.Attempts.{SavesAlways, Attempted, attempt_phase-Attempted}

-- The phases that were counted, as hits or as misses.
abbrev pub counted : {World : Type 0} → Run World → ℕ
counted s = s.runtime.cache.hits + s.runtime.cache.misses

-- What the counters come to after at most `n` rounds from `s`: after all of them, one more for each;
-- where the loop is left or throws, one more for each round that was made.
abbrev pub Counts : {World : Type 0} → ℕ → Run World → Outcome World → Type 0
Counts n s (next t) = counted t ≡ counted s + n
Counts n s (stop t) = (k : ℕ) × (suc k ≤ n) × (counted t ≡ counted s + suc k)
Counts n s (thrown m t) = (k : ℕ) × (suc k ≤ n) × (counted t ≡ counted s + suc k)

-- One round: it counts one, and throws only on the artifact of a completed result.
abbrev CountsOne : {World : Type 0} → Run World → Option PhaseResult → Outcome World → Type 0
CountsOne s prior (next t) = counted t ≡ suc (counted s)
CountsOne s prior (stop t) = counted t ≡ suc (counted s)
CountsOne s prior (thrown m t) = (completed_result prior ≡ true) × (counted t ≡ suc (counted s))

module _ {World : Type 0} (env : Env World) where
  replay_counts :
      (prior : PhaseResult) (a : Option Artifact) (s u : Run World)
      → is_completed prior.status ≡ true
      → counted u ≡ suc (counted s)
      → CountsOne s (some prior) (replay_artifact env prior a u)
  unfolding replay_artifact
  replay_counts prior none s u d h = h
  replay_counts prior (some a) s u d h = after_replay_counts _
    where
      after_replay_counts :
          (c : Result RuntimeContext) → CountsOne s (some prior) (after_replay env u c)
      after_replay_counts (ok c) = h
      after_replay_counts (err m) = (d, h)

  attempt_counts :
      (prior : Option PhaseResult) (s : Run World) (o : Outcome World)
      → Attempted s o
      → CountsOne s prior o
  attempt_counts prior s (next t) h = omega (arith, h.hits, h.misses)
  attempt_counts prior s (stop t) h = omega (arith, h.hits, h.misses)
  attempt_counts prior s (thrown m t) h = absurd h

  round_at_counts :
      (saves : SavesAlways env) (job : Job) (p : PhasePlan) (s : Run World)
      (prior : Option PhaseResult)
      → CountsOne s prior (round_at env job p s prior)
  unfolding round_at replay_phase replayed
  round_at_counts saves job p s none =
      attempt_counts none s _ (attempt_phase-Attempted env saves job p s)
  round_at_counts saves job p s (some prior) = elim (Bool-cases (is_completed prior.status)) [
    | inl d ↦ rw d (replay_counts prior prior.artifact s (replayed env prior s) d (omega arith))
    | inr f ↦ rw f (attempt_counts (some prior) s _ (attempt_phase-Attempted env saves job p s))
  ]

  run_phase_counts :
      (saves : SavesAlways env) (job : Job) (p : PhasePlan) (s : Run World)
      → CountsOne s (result_at p.order s.results) (run_phase env job p s)
  unfolding run_phase
  run_phase_counts saves job p s = round_at_counts saves job p s (result_at p.order s.results)

  still_open :
      (p : PhasePlan) (rs rs' : List PhaseResult) (ps : List PhasePlan)
      → Writes p.order rs rs'
      → All (λ (q : PhasePlan). p.order < q.order) ps
      → All (λ q. completed_result (result_at q.order rs) ≡ false) ps
      → All (λ q. completed_result (result_at q.order rs') ≡ false) ps
  still_open p rs rs' [] w lt h = tt
  still_open p rs rs' (q ∷ qs) w (lt, more) (h, hs) =
      (rw (w.others q.order (ground arith)) h, still_open p rs rs' qs w more hs)

  -- With a store that always saves, the loop over phases whose orders rise and of which none has a
  -- completed result never throws: it comes to the end or is left at a failure.
  pub run_phases_returns :
      (job : Job) (ps : List PhasePlan) (s : Run World)
      → SavesAlways env
      → InPlanOrder ps
      → InOrder s.results
      → All (λ q. completed_result (result_at q.order s.results) ≡ false) ps
      → ((t : Run World) × (run_phases env job ps s ≡ next t))
        ⊎ ((t : Run World) × (run_phases env job ps s ≡ stop t))
  unfolding run_phases
  run_phases_returns job [] s saves inc sorted fresh = inl (s, refl)
  run_phases_returns job (p ∷ ps) s saves inc sorted (f, fs) =
      elim (Outcome-cases (run_phase env job p s)) [
        | inl (u, e) ↦
            let left : Leaves job p s.results (next u) =
              rw e at (run_phase-Leaves env job p s sorted) in
            let above = Increasing-above (λ (q : PhasePlan). q.order) p ps inc in
            rw (e, run_phases)
              (run_phases_returns job ps u saves
                (Increasing-tail (λ (q : PhasePlan). q.order) p ps inc) left.0.in_order
                (still_open p s.results u.results ps left.0 above fs))
        | inr (inl (u, e)) ↦ rw (e, run_phases) (inr (u, refl))
        | inr (inr (m, u, e)) ↦
            let one : CountsOne s (result_at p.order s.results) (thrown m u) =
              rw e at (run_phase_counts saves job p s) in
            absurd (cc)
      ]
