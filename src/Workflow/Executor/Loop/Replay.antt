-- ===== src/Workflow/Executor/Loop/Replay.antt =====
-- Phases with a completed result are not run again: the loop reads their results and leaves the
-- world (agents, clock, checkpoint store) alone.
use agent_p.Common.{
  String, nat_eqb_iff, ℕ, suc, ◌+◌, ◌≡◌, refl, ◌∙◌, inl, inr, Option, none, some, true, List, [],
  ◌∷◌, Result, ok, err, All, All-map, length, arith,
}
use agent_p.Workflow.Types.{PhasePlan, PhaseResult, RuntimeContext, Artifact}
use agent_p.Workflow.Results.{result_at, completed_result, is_completed}
use agent_p.Workflow.Results.Ordering.{InOrder, upsert_phase_result_lem}
use agent_p.Workflow.Results.Progress.{IsDone}
use agent_p.Workflow.Executor.Env.{Env}
use agent_p.Workflow.Executor.Context.{update_context_from_artifact}
use agent_p.Workflow.Executor.State.{Job, Run, Outcome, next, stop, thrown, cached_prior}
use agent_p.Workflow.Executor.Loop.{
  run_phase, run_phases, round_at, replay_phase, replay_artifact, after_replay, replayed,
}
use agent_p.Workflow.Executor.Loop.PlanOrder.{Outcome-cases}

-- The world is as it was, and `n` cache hits and no miss were counted.
pub record Hits {World : Type 0} (n : ℕ) (s t : Run World) : Type 0 where
  pub world : t.world ≡ s.world
  pub hits : t.runtime.cache.hits ≡ s.runtime.cache.hits + n
  pub misses : t.runtime.cache.misses ≡ s.runtime.cache.misses

-- The error `m` is that of reading a completed result of `t` into the context of `t`: its artifact
-- has not the shape that its phase wants.
pub record Misfit {World : Type 0} (m : String) (t : Run World) : Type 0 where
  pub order : ℕ
  pub result : PhaseResult
  pub artifact : Artifact
  pub found : result_at order t.results ≡ some result
  pub done : is_completed result.status ≡ true
  pub has : result.artifact ≡ some artifact
  pub refused : update_context_from_artifact result.phase artifact t.context ≡ err m

-- What replaying `n` phases from `s` comes to: `n` hits, or an error on reading an artifact, but no
-- failed phase; the world is as it was.
abbrev pub Replays : {World : Type 0} → ℕ → Run World → Outcome World → Type 0
Replays n s (next t) = Hits n s t
Replays n s (stop t) = ⊥
Replays n s (thrown m t) = (t.world ≡ s.world) × Misfit m t

-- Every completed result of `rs` is one of `rs'`, which stand in order.
record KeepsDone (rs rs' : List PhaseResult) : Type 0 where
  in_order : InOrder rs'
  keeps :
      (k : ℕ) → completed_result (result_at k rs) ≡ true → completed_result (result_at k rs') ≡ true

abbrev ReplaysOne : {World : Type 0} → Run World → Outcome World → Type 0
ReplaysOne s (next t) = Hits 1 s t × KeepsDone s.results t.results
ReplaysOne s (stop t) = ⊥
ReplaysOne s (thrown m t) = (t.world ≡ s.world) × Misfit m t

module _ {World : Type 0} (env : Env World) where
  -- What the state `u` holds of the result that it replays.
  record Holds (prior : PhaseResult) (u : Run World) : Type 0 where
    result : PhaseResult
    found : result_at prior.order u.results ≡ some result
    status : result.status ≡ prior.status
    phase : result.phase ≡ prior.phase
    artifact : result.artifact ≡ prior.artifact

  -- One hit in the state `u`, which keeps what is done and holds the result.
  record Hit (prior : PhaseResult) (s u : Run World) : Type 0 where
    counted : Hits 1 s u
    kept : KeepsDone s.results u.results
    holds : Holds prior u

  replayed-Hit :
      (prior : PhaseResult) (s : Run World)
      → InOrder s.results
      → is_completed prior.status ≡ true
      → Hit prior s (replayed env prior s)
  unfolding replayed cached_prior
  replayed-Hit prior s sorted done =
      let new = cached_prior s.runtime prior in
      let (kept, look) = upsert_phase_result_lem s.results new sorted in
      let same = (nat_eqb_iff prior.order prior.order).1 refl in
      record {
        counted = record { world = refl; hits = omega arith; misses = refl };
        kept = record { in_order = kept; keeps = λ k h. ground (arith, look k) };
        holds = record {
          result = new;
          found = rw same at (look prior.order);
          status = refl;
          phase = refl;
          artifact = refl;
        };
      }

  Holds-Misfit :
      (prior : PhaseResult) (a : Artifact) (u : Run World) (m : String)
      → is_completed prior.status ≡ true
      → prior.artifact ≡ some a
      → Holds prior u
      → update_context_from_artifact prior.phase a u.context ≡ err m
      → Misfit m u
  Holds-Misfit prior a u m done has h refused = record {
    order = prior.order;
    result = h.result;
    artifact = a;
    found = h.found;
    done = rw h.status done;
    has = h.artifact ∙ has;
    refused = rw h.phase refused;
  }

  after_replay-ReplaysOne :
      (prior : PhaseResult) (a : Artifact) (s u : Run World) (c : Result RuntimeContext)
      → is_completed prior.status ≡ true
      → prior.artifact ≡ some a
      → Hit prior s u
      → update_context_from_artifact prior.phase a u.context ≡ c
      → ReplaysOne s (after_replay env u c)
  unfolding after_replay
  after_replay-ReplaysOne prior a s u (ok c) done has h e =
      (record { world = h.counted.world; hits = h.counted.hits; misses = h.counted.misses }, h.kept)
  after_replay-ReplaysOne prior a s u (err m) done has h e =
      (h.counted.world, Holds-Misfit prior a u m done has h.holds e)

  replay_artifact-ReplaysOne :
      (prior : PhaseResult) (a : Option Artifact) (s u : Run World)
      → is_completed prior.status ≡ true
      → prior.artifact ≡ a
      → Hit prior s u
      → ReplaysOne s (replay_artifact env prior a u)
  unfolding replay_artifact
  replay_artifact-ReplaysOne prior none s u done has h = (h.counted, h.kept)
  replay_artifact-ReplaysOne prior (some a) s u done has h =
      after_replay-ReplaysOne prior a s u _ done has h refl

  round_at-ReplaysOne :
      (job : Job) (p : PhasePlan) (s : Run World) (prior : Option PhaseResult)
      → InOrder s.results
      → completed_result prior ≡ true
      → ReplaysOne s (round_at env job p s prior)
  unfolding round_at replay_phase
  round_at-ReplaysOne job p s none sorted done = cc
  round_at-ReplaysOne job p s (some prior) sorted done = rw done (
      replay_artifact-ReplaysOne prior prior.artifact s (replayed env prior s) done refl
        (replayed-Hit prior s sorted done))

  run_phase-ReplaysOne :
      (job : Job) (p : PhasePlan) (s : Run World)
      → InOrder s.results
      → IsDone s.results p
      → ReplaysOne s (run_phase env job p s)
  unfolding run_phase
  run_phase-ReplaysOne job p s sorted done =
      round_at-ReplaysOne job p s (result_at p.order s.results) sorted done

  Hits-trans :
      (n : ℕ) (s u : Run World) (o : Outcome World)
      → Hits 1 s u
      → Replays n u o
      → Replays (suc n) s o
  Hits-trans n s u (next t) h k = record {
    world = k.world ∙ h.world;
    hits = omega arith;
    misses = k.misses ∙ h.misses;
  }
  Hits-trans n s u (stop t) h k = k
  Hits-trans n s u (thrown m t) h k = (k.0 ∙ h.world, k.1)

  -- Where every phase of a list has a completed result already, the loop over it calls no agent, no
  -- clock and no checkpoint store: the world is as it was. It counts one cache hit for each phase
  -- and no miss, or throws the error of reading the artifact of a completed result, which has not the
  -- shape that its phase wants; it never leaves the loop for a failure.
  pub run_phases-Replays :
      (job : Job) (ps : List PhasePlan) (s : Run World)
      → InOrder s.results
      → All (IsDone s.results) ps
      → Replays (length ps) s (run_phases env job ps s)
  unfolding run_phases
  run_phases-Replays job [] s sorted done = record {
    world = refl;
    hits = omega arith;
    misses = refl;
  }
  run_phases-Replays job (p ∷ ps) s sorted (here, done) =
      elim (Outcome-cases (run_phase env job p s)) [
        | inl (u, e) ↦
            let (h, k) : ReplaysOne s (next u) =
              rw e at (run_phase-ReplaysOne job p s sorted here) in
            rw (e, run_phases)
              (Hits-trans (length ps) s u (run_phases env job ps u) h (
                run_phases-Replays job ps u k.in_order
                  (All-map ps (λ q d. k.keeps q.order d) done)))
        | inr (inl (u, e)) ↦ absurd (rw e at (run_phase-ReplaysOne job p s sorted here))
        | inr (inr (m, u, e)) ↦
            rw (e, run_phases) (rw e at (run_phase-ReplaysOne job p s sorted here))
      ]
