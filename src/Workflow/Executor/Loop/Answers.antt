-- ===== src/Workflow/Executor/Loop/Answers.antt =====
-- What one attempt records, in terms of what the agent answers (src/workflow/executor.ts).
use agent_p.Common.{
  ℕ, suc, ◌≡◌, refl, String, Option, none, some, false, Result, ok, err, if◌then◌else◌, nat_eqb_iff,
  List,
}
use agent_p.Agents.Types.{Handoff}
use agent_p.Workflow.Types.{PhasePlan, PhaseResult, PhaseStatus, RuntimeContext, Artifact}
use agent_p.Workflow.Results.{result_at, completed_result, upsert_phase_result}
use agent_p.Workflow.Results.Ordering.{InOrder, upsert_phase_result_lem}
use agent_p.Workflow.Executor.Env.{Env, create_phase_handoff, execute_phase}
use agent_p.Workflow.Executor.State.{
  Job, Run, Outcome, next, stop, save_checkpoint, failed_result, completed_of, record_failure,
  record_success, is_reindexed,
}
use agent_p.Workflow.Executor.Loop.{
  fail_phase, after_failure, after_save, after_update, after_agent, after_handoff, attempt_phase,
}
use agent_p.Workflow.Executor.Loop.Attempts.{SavesAlways, execute_phase-fits}

-- In `t` the phase has the result `r`, and so many hits and misses are counted.
pub record Recorded {World : Type 0} (p : PhasePlan) (hits misses : ℕ) (r : PhaseResult)
    (t : Run World) : Type 0 where
  pub found : result_at p.order t.results ≡ some r
  pub counts_hits : t.runtime.cache.hits ≡ hits
  pub counts_misses : t.runtime.cache.misses ≡ misses

-- The phase is recorded as failed with the error `m`, and the loop goes on exactly if the job may
-- continue.
pub record Failed {World : Type 0} (job : Job) (p : PhasePlan) (hits misses : ℕ) (m : String)
    (o : Outcome World) : Type 0 where
  pub state : Run World
  pub result : PhaseResult
  pub recorded : Recorded p hits misses result state
  pub status : result.status ≡ PhaseStatus.failed
  pub error : result.error ≡ some m
  pub outcome : o ≡ (if job.continue_on_failure then next state else stop state)

-- The phase is recorded as completed with the artifact `a`, and the loop goes on.
pub record Completed {World : Type 0} (p : PhasePlan) (hits misses : ℕ) (a : Artifact)
    (o : Outcome World) : Type 0 where
  pub state : Run World
  pub result : PhaseResult
  pub recorded : Recorded p hits misses result state
  pub status : result.status ≡ PhaseStatus.completed
  pub artifact : result.artifact ≡ some a
  pub outcome : o ≡ next state

result_at-upsert :
    (rs : List PhaseResult) (r : PhaseResult)
    → InOrder rs
    → InOrder (upsert_phase_result rs r) × (result_at r.order (upsert_phase_result rs r) ≡ some r)
result_at-upsert rs r sorted =
    let (kept, look) = upsert_phase_result_lem rs r sorted in
    (kept, rw ((nat_eqb_iff r.order r.order).1 refl) at (look r.order))

module _ {World : Type 0} (env : Env World) (job : Job) (p : PhasePlan) where
  -- Checkpoints without a completed result for the phase can be saved.
  abbrev pub SavesFailed : Type 0
  SavesFailed =
      (s : Run World)
      → completed_result (result_at p.order s.results) ≡ false
      → (save_checkpoint env job s).0 ≡ ok tt

  after_failure-Failed :
      (hits misses : ℕ) (m : String) (r : PhaseResult) (t : Run World)
      (saved : Result (Unit {0}) × World)
      → saved.0 ≡ ok tt
      → Recorded p hits misses r t
      → r.status ≡ PhaseStatus.failed
      → r.error ≡ some m
      → Failed job p hits misses m (after_failure env job t saved)
  unfolding after_failure
  after_failure-Failed hits misses m r t (ok u, w) e k failed is = record {
    state = record t { world = w };
    result = r;
    recorded = record {
      found = k.found;
      counts_hits = k.counts_hits;
      counts_misses = k.counts_misses;
    };
    status = failed;
    error = is;
    outcome = refl;
  }
  after_failure-Failed hits misses m r t (err x, w) e k failed is = cc

  pub fail_phase-Failed :
      (h : Option Handoff) (started : ℕ) (m : String) (s : Run World)
      → SavesFailed
      → InOrder s.results
      → Failed job p s.runtime.cache.hits
          (suc s.runtime.cache.misses)
          m
          (fail_phase env job p h started m s)
  unfolding fail_phase record_failure failed_result
  fail_phase-Failed h started m s saves sorted =
      let (ended, w) = env.clock s.world in
      let r = failed_result p h started ended (is_reindexed s.runtime p.order) m in
      let t = record_failure env p h started m s in
      let found : result_at p.order t.results ≡ some r = (result_at-upsert s.results r sorted).1 in
      after_failure-Failed s.runtime.cache.hits (suc s.runtime.cache.misses) m r t _
        (saves t (rw found refl))
        (record { found = found; counts_hits = refl; counts_misses = refl }) refl refl

  pub record_success-Recorded :
      (h : Handoff) (started : ℕ) (a : Artifact) (s : Run World)
      → InOrder s.results
      → InOrder (record_success env p h started a s).results
        × ((r : PhaseResult) × (r.status ≡ PhaseStatus.completed)
            × (r.artifact ≡ some a)
            × Recorded p s.runtime.cache.hits
                (suc s.runtime.cache.misses)
                r
                (record_success env p h started a s))
  unfolding record_success completed_of
  record_success-Recorded h started a s sorted =
      let (ended, w) = env.clock s.world in
      let r = completed_of p h started ended (is_reindexed s.runtime p.order) a in
      let (kept, found) = result_at-upsert s.results r sorted in
      (kept, (r, refl, refl, record { found = found; counts_hits = refl; counts_misses = refl }))

  module _ (saves : SavesAlways env) where
    after_save-Completed :
        (h : Handoff) (started : ℕ) (hits misses : ℕ) (a : Artifact) (r : PhaseResult)
        (t : Run World) (saved : Result (Unit {0}) × World)
        → saved.0 ≡ ok tt
        → Recorded p hits misses r t
        → r.status ≡ PhaseStatus.completed
        → r.artifact ≡ some a
        → Completed p hits misses a (after_save env job p h started t saved)
    unfolding after_save
    after_save-Completed h started hits misses a r t (ok u, w) e k done has = record {
      state = record t { world = w };
      result = r;
      recorded = record {
        found = k.found;
        counts_hits = k.counts_hits;
        counts_misses = k.counts_misses;
      };
      status = done;
      artifact = has;
      outcome = refl;
    }
    after_save-Completed h started hits misses a r t (err x, w) e k done has = cc

    after_update-Completed :
        (h : Handoff) (started : ℕ) (hits misses : ℕ) (a : Artifact) (r : PhaseResult)
        (t : Run World) (c : Result RuntimeContext)
        → ((c' : RuntimeContext) × (c ≡ ok c'))
        → Recorded p hits misses r t
        → r.status ≡ PhaseStatus.completed
        → r.artifact ≡ some a
        → Completed p hits misses a (after_update env job p h started t c)
    unfolding after_update
    after_update-Completed h started hits misses a r t (ok c) fits k done has =
        after_save-Completed h started hits misses a r
          (record t { context = record c { parent_handoff_id = some h.handoff_id } }) _
          (saves job _)
          (record { found = k.found; counts_hits = k.counts_hits; counts_misses = k.counts_misses })
          done has
    after_update-Completed h started hits misses a r t (err m) (c', e) k done has = cc

    -- What an attempt comes to, by what was answered.
    abbrev pub Answered : Run World → Result Artifact → Outcome World → Type 0
    Answered s (ok a) o = Completed p s.runtime.cache.hits (suc s.runtime.cache.misses) a o
    Answered s (err m) o = Failed job p s.runtime.cache.hits (suc s.runtime.cache.misses) m o

    after_agent-Answered :
        (h : Handoff) (started : ℕ) (s : Run World) (w : World) (answer : Result Artifact × World)
        → InOrder s.results
        → execute_phase env p.phase h job.trust_input w ≡ answer
        → Answered s answer.0 (after_agent env job p h started s answer)
    unfolding after_agent
    after_agent-Answered h started s w (err m, w') sorted e =
        fail_phase-Failed (some h) started m (record s { world = w' }) (λ t k. saves job t) sorted
    after_agent-Answered h started s w (ok a, w') sorted e =
        let s' = record_success env p h started a (record s { world = w' }) in
        let (kept, (r, done, has, k)) =
          record_success-Recorded h started a (record s { world = w' }) sorted in
        after_update-Completed h started s.runtime.cache.hits (suc s.runtime.cache.misses) a r s' _
          (execute_phase-fits env p.phase h job.trust_input w w' a s'.context e) k done has

    -- What the agent answers to the handoff, or the error of making the handoff.
    abbrev pub answer_to : Result Handoff × World → Result Artifact
    answer_to (err m, w) = err m
    answer_to (ok h, w) = (execute_phase env p.phase h job.trust_input w).0

    after_handoff-Answered :
        (started : ℕ) (s : Run World) (made : Result Handoff × World)
        → InOrder s.results
        → Answered s (answer_to made) (after_handoff env job p started s made)
    unfolding after_handoff
    after_handoff-Answered started s (err m, w) sorted =
        fail_phase-Failed none started m (record s { world = w }) (λ t k. saves job t) sorted
    after_handoff-Answered started s (ok h, w) sorted =
        after_agent-Answered h started s w _ sorted refl

    -- With a store that always saves, an attempt at a phase never throws. Where the handoff is made
    -- and the agent answers with an artifact, the phase is recorded as completed with that artifact
    -- and the loop goes on. Where one of them throws, the phase is recorded as failed with that error,
    -- and the loop goes on if the job may continue on failure, and is left otherwise. One miss and no
    -- hit are counted.
    pub attempt_phase-Answered :
        (s : Run World)
        → InOrder s.results
        → Answered s
            (answer_to
              (create_phase_handoff env job.plan p.phase p.order s.context (env.clock s.world).1))
            (attempt_phase env job p s)
    unfolding attempt_phase
    attempt_phase-Answered s sorted = after_handoff-Answered (env.clock s.world).0 s _ sorted
