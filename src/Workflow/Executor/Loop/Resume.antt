-- ===== src/Workflow/Executor/Loop/Resume.antt =====
-- A run that starts with the first phases done, as after a failure or from a checkpoint.
use agent_p.Common.{ℕ, ◌≡◌, refl, ◌⊎◌, inl, inr, String, List, [], ◌∷◌, ◌++◌, All, length}
use agent_p.Workflow.Types.{PhasePlan}
use agent_p.Workflow.Results.Ordering.{InOrder}
use agent_p.Workflow.Results.Progress.{IsDone}
use agent_p.Workflow.Executor.Env.{Env}
use agent_p.Workflow.Executor.State.{Job, Run, Outcome, next, stop, thrown}
use agent_p.Workflow.Executor.Loop.{run_phase, run_phases}
use agent_p.Workflow.Executor.Loop.PlanOrder.{Outcome-cases}
use agent_p.Workflow.Executor.Loop.Replay.{Hits, Misfit, Replays, run_phases-Replays}

module _ {World : Type 0} (env : Env World) (job : Job) where
  -- The loop over the phases `rest` behind an outcome.
  go_on : List PhasePlan → Outcome World → Outcome World
  go_on rest (next t) = run_phases env job rest t
  go_on rest (stop t) = stop t
  go_on rest (thrown m t) = thrown m t

  run_phases-append :
      (ps rest : List PhasePlan) (s : Run World)
      → run_phases env job (ps ++ rest) s ≡ go_on rest (run_phases env job ps s)
  unfolding run_phases go_on
  run_phases-append [] rest s = refl
  run_phases-append (p ∷ ps) rest s = elim (Outcome-cases (run_phase env job p s)) [
    | inl (t, e) ↦ rw (e, run_phases) (run_phases-append ps rest t)
    | inr (inl (t, e)) ↦ rw (e, run_phases) refl
    | inr (inr (m, t, e)) ↦ rw (e, run_phases) refl
  ]

  -- The outcome `o` of the loop over `n` done phases, and the loop over the phases behind them.
  abbrev Resumes : ℕ → List PhasePlan → Run World → Outcome World → Type 0
  Resumes n rest s o =
      ((t : Run World) × Hits n s t × (o ≡ run_phases env job rest t))
      ⊎ ((m : String) × (t : Run World) × (t.world ≡ s.world) × Misfit m t × (o ≡ thrown m t))

  go_on-Resumes :
      (n : ℕ) (rest : List PhasePlan) (s : Run World) (o : Outcome World)
      → Replays n s o
      → Resumes n rest s (go_on rest o)
  unfolding go_on
  go_on-Resumes n rest s (next t) h = inl (t, h, refl)
  go_on-Resumes n rest s (thrown m t) h = inr (m, t, h.0, h.1, refl)
  go_on-Resumes n rest s (stop t) h = elim h [ ]

  -- Where the first phases have completed results already, the loop goes on with the phases behind
  -- them, from a state with the same world, one more cache hit for each done phase and no more
  -- misses; or it throws, the world as it was, the error of reading the artifact of a completed
  -- result, which has not the shape that its phase wants.
  pub run_phases-resumes :
      (done rest : List PhasePlan) (s : Run World)
      → InOrder s.results
      → All (IsDone s.results) done
      → ((t : Run World) × Hits (length done) s t
          × (run_phases env job (done ++ rest) s ≡ run_phases env job rest t))
        ⊎ ((m : String) × (t : Run World) × (t.world ≡ s.world)
            × Misfit m t
            × (run_phases env job (done ++ rest) s ≡ thrown m t))
  run_phases-resumes done rest s sorted all_done = rw (run_phases-append done rest s) (
      go_on-Resumes (length done) rest s (run_phases env job done s)
        (run_phases-Replays env job done s sorted all_done))
