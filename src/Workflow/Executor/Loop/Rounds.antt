-- ===== src/Workflow/Executor/Loop/Rounds.antt =====
-- What one round of the loop does to the results.
use agent_p.Common.{
  ℕ, ◌≡◌, refl, ◌∙◌, ◌⊎◌, inl, inr, String, Option, none, some, Bool, true, false, List, Result, ok,
  err, nat_eqb, if◌then◌else◌, arith, find, [], ◌∷◌, Bool-cases,
}
use agent_p.Agents.Types.{Handoff}
use agent_p.Workflow.Types.{PhasePlan, PhaseResult, RuntimeContext, Artifact}
use agent_p.Workflow.Results.{result_at, completed_result, is_completed, upsert_phase_result}
use agent_p.Workflow.Results.Ordering.{InOrder, upsert_phase_result_lem}
use agent_p.Workflow.Executor.Env.{Env}
use agent_p.Workflow.Executor.State.{
  Job, Run, Outcome, next, stop, thrown, record_failure, record_success, cached_prior,
}
use agent_p.Workflow.Executor.Loop.{
  fail_phase, after_failure, after_save, after_update, after_agent, after_handoff, attempt_phase,
  replay_phase, after_replay, replay_artifact, round_at, replayed, run_phase,
}

-- The state that an outcome comes with.
abbrev pub state_of : {World : Type 0} → Outcome World → Run World
state_of (next s) = s
state_of (stop s) = s
state_of (thrown m s) = s

-- The results `rs'` are `rs` but at the order `n`, where there is a result.
pub record Writes (n : ℕ) (rs rs' : List PhaseResult) : Type 0 where
  pub in_order : InOrder rs'
  pub others : (k : ℕ) → nat_eqb n k ≡ false → result_at k rs' ≡ result_at k rs
  pub written : (r : PhaseResult) × (result_at n rs' ≡ some r)

Writes-upsert :
    (n : ℕ) (rs : List PhaseResult) (r : PhaseResult)
    → InOrder rs
    → r.order ≡ n
    → Writes n rs (upsert_phase_result rs r) × (result_at n (upsert_phase_result rs r) ≡ some r)
Writes-upsert n rs r sorted e =
    let (kept, look) = upsert_phase_result_lem rs r sorted in
    let here : result_at n (upsert_phase_result rs r) ≡ some r = ground (arith, look n) in
    (record { in_order = kept; others = λ k h. ground (arith, look k); written = (r, here) }, here)

Writes-trans :
    (n : ℕ) (rs rs' rs'' : List PhaseResult)
    → Writes n rs rs'
    → Writes n rs' rs''
    → Writes n rs rs''
Writes-trans n rs rs' rs'' a b = record {
  in_order = b.in_order;
  others = λ k h. b.others k h ∙ a.others k h;
  written = b.written;
}

-- What the round for `p` leaves behind: it writes at the order of `p` alone; it goes on with a
-- completed result, or with a failed one if the job may continue; and it leaves the loop with a
-- failed result only if the job may not.
abbrev pub Leaves : {World : Type 0} → Job → PhasePlan → List PhaseResult → Outcome World → Type 0
Leaves job p rs (next t) =
    Writes p.order rs t.results
    × ((completed_result (result_at p.order t.results) ≡ true) ⊎ (job.continue_on_failure ≡ true))
Leaves job p rs (stop t) =
    Writes p.order rs t.results
    × ((completed_result (result_at p.order t.results) ≡ false) × (job.continue_on_failure ≡ false))
Leaves job p rs (thrown m t) = Writes p.order rs t.results

pub result_at-order :
    (n : ℕ) (rs : List PhaseResult) (r : PhaseResult) → result_at n rs ≡ some r → r.order ≡ n
unfolding find
result_at-order n [] r h = cc
result_at-order n (q ∷ qs) r h = ground (arith, result_at-order n qs r)

module _ {World : Type 0} (env : Env World) (job : Job) (p : PhasePlan) where
  pub record_failure-Writes :
      (h : Option Handoff) (started : ℕ) (m : String) (s : Run World)
      → InOrder s.results
      → Writes p.order s.results (record_failure env p h started m s).results
        × (completed_result (result_at p.order (record_failure env p h started m s).results)
            ≡ false)
  unfolding record_failure
  record_failure-Writes h started m s sorted =
      let (w, here) = Writes-upsert p.order s.results _ sorted refl in (w, rw here)

  choice-Leaves :
      (c : Bool) (rs : List PhaseResult) (s : Run World)
      → job.continue_on_failure ≡ c
      → Writes p.order rs s.results
      → completed_result (result_at p.order s.results) ≡ false
      → Leaves job p rs (if c then next s else stop s)
  choice-Leaves true rs s e h f = (h, inr e)
  choice-Leaves false rs s e h f = (h, (f, e))

  after_failure-Leaves :
      (rs : List PhaseResult) (s : Run World) (saved : Result (Unit {0}) × World)
      → Writes p.order rs s.results
      → completed_result (result_at p.order s.results) ≡ false
      → Leaves job p rs (after_failure env job s saved)
  unfolding after_failure
  after_failure-Leaves rs s (err m, w) h f = h
  after_failure-Leaves rs s (ok u, w) h f =
      choice-Leaves job.continue_on_failure rs (record s { world = w }) refl h f

  fail_phase-Leaves :
      (rs : List PhaseResult) (h : Option Handoff) (started : ℕ) (m : String) (s : Run World)
      → InOrder s.results
      → ((rs' : List PhaseResult) → Writes p.order s.results rs' → Writes p.order rs rs')
      → Leaves job p rs (fail_phase env job p h started m s)
  unfolding fail_phase
  fail_phase-Leaves rs h started m s sorted from =
      let (w, f) = record_failure-Writes h started m s sorted in
      after_failure-Leaves rs (record_failure env p h started m s) _ (from _ w) f

  pub record_success-Writes :
      (h : Handoff) (started : ℕ) (a : Artifact) (s : Run World)
      → InOrder s.results
      → Writes p.order s.results (record_success env p h started a s).results
        × (completed_result (result_at p.order (record_success env p h started a s).results) ≡ true)
  unfolding record_success
  record_success-Writes h started a s sorted =
      let (w, here) = Writes-upsert p.order s.results _ sorted refl in (w, rw here)

  after_save-Leaves :
      (rs : List PhaseResult) (h : Handoff) (started : ℕ) (s : Run World)
      (saved : Result (Unit {0}) × World)
      → Writes p.order rs s.results
      → completed_result (result_at p.order s.results) ≡ true
      → Leaves job p rs (after_save env job p h started s saved)
  unfolding after_save
  after_save-Leaves rs h started s (ok u, w) k c = (k, inl c)
  after_save-Leaves rs h started s (err m, w) k c =
      fail_phase-Leaves rs (some h) started m (record s { world = w }) k.in_order
        (λ rs' k'. Writes-trans p.order rs s.results rs' k k')

  after_update-Leaves :
      (rs : List PhaseResult) (h : Handoff) (started : ℕ) (s : Run World)
      (c : Result RuntimeContext)
      → Writes p.order rs s.results
      → completed_result (result_at p.order s.results) ≡ true
      → Leaves job p rs (after_update env job p h started s c)
  unfolding after_update
  after_update-Leaves rs h started s (err m) k d =
      fail_phase-Leaves rs (some h) started m s k.in_order
        (λ rs' k'. Writes-trans p.order rs s.results rs' k k')
  after_update-Leaves rs h started s (ok c) k d =
      let s' : Run World = record s {
        context = record c { parent_handoff_id = some h.handoff_id };
      } in
      after_save-Leaves rs h started s' _ k d

  after_agent-Leaves :
      (h : Handoff) (started : ℕ) (s : Run World) (a : Result Artifact × World)
      → InOrder s.results
      → Leaves job p s.results (after_agent env job p h started s a)
  unfolding after_agent
  after_agent-Leaves h started s (err m, w) sorted =
      fail_phase-Leaves s.results (some h) started m (record s { world = w }) sorted (λ rs' k. k)
  after_agent-Leaves h started s (ok a, w) sorted =
      let (k, d) = record_success-Writes h started a (record s { world = w }) sorted in
      after_update-Leaves s.results h started
        (record_success env p h started a (record s { world = w })) _ k d

  after_handoff-Leaves :
      (started : ℕ) (s : Run World) (h : Result Handoff × World)
      → InOrder s.results
      → Leaves job p s.results (after_handoff env job p started s h)
  unfolding after_handoff
  after_handoff-Leaves started s (err m, w) sorted =
      fail_phase-Leaves s.results none started m (record s { world = w }) sorted (λ rs' k. k)
  after_handoff-Leaves started s (ok h, w) sorted = after_agent-Leaves h started s _ sorted

  pub attempt_phase-Leaves :
      (s : Run World) → InOrder s.results → Leaves job p s.results (attempt_phase env job p s)
  unfolding attempt_phase
  attempt_phase-Leaves s sorted = after_handoff-Leaves _ s _ sorted

  after_replay-Leaves :
      (rs : List PhaseResult) (s : Run World) (c : Result RuntimeContext)
      → Writes p.order rs s.results
      → completed_result (result_at p.order s.results) ≡ true
      → Leaves job p rs (after_replay env s c)
  unfolding after_replay
  after_replay-Leaves rs s (ok c) k d = (k, inl d)
  after_replay-Leaves rs s (err m) k d = k

  replay_artifact-Leaves :
      (rs : List PhaseResult) (prior : PhaseResult) (a : Option Artifact) (s : Run World)
      → Writes p.order rs s.results
      → completed_result (result_at p.order s.results) ≡ true
      → Leaves job p rs (replay_artifact env prior a s)
  unfolding replay_artifact
  replay_artifact-Leaves rs prior none s k d = (k, inl d)
  replay_artifact-Leaves rs prior (some a) s k d = after_replay-Leaves rs s _ k d

  replay_phase-Leaves :
      (prior : PhaseResult) (s : Run World)
      → InOrder s.results
      → prior.order ≡ p.order
      → is_completed prior.status ≡ true
      → Leaves job p s.results (replay_phase env prior s)
  unfolding replay_phase cached_prior
  replay_phase-Leaves prior s sorted e d =
      let (k, here) = Writes-upsert p.order s.results (cached_prior s.runtime prior) sorted e in
      replay_artifact-Leaves s.results prior prior.artifact (replayed env prior s) k (rw here d)

  round_at-Leaves :
      (s : Run World) (prior : Option PhaseResult)
      → InOrder s.results
      → result_at p.order s.results ≡ prior
      → Leaves job p s.results (round_at env job p s prior)
  unfolding round_at
  round_at-Leaves s none sorted e = attempt_phase-Leaves s sorted
  round_at-Leaves s (some prior) sorted e = elim (Bool-cases (is_completed prior.status)) [
    | inl d ↦
        rw d (replay_phase-Leaves prior s sorted (result_at-order p.order s.results prior e) d)
    | inr f ↦ rw f (attempt_phase-Leaves s sorted)
  ]

  pub run_phase-Leaves :
      (s : Run World) → InOrder s.results → Leaves job p s.results (run_phase env job p s)
  unfolding run_phase
  run_phase-Leaves s sorted = round_at-Leaves s (result_at p.order s.results) sorted refl
