-- ===== src/Workflow/Executor/Loop/Attempts.antt =====
-- One attempt to run a phase: `attempt_phase`, with a checkpoint store that always saves.
use agent_p.Common.{
  if_both, ℕ, suc, ◌≡◌, refl, ap, String, Option, none, some, Result, ok, err, arith,
}
use agent_p.Agents.Types.{Handoff, TrustInput}
use agent_p.Workflow.Types.{Phase, PhasePlan, RuntimeContext, Artifact}
use agent_p.Workflow.Types.Phase.{
  understand, design, plan, implement_red, build_green, refactor, review, verify, deliver,
}
use agent_p.Workflow.Executor.Env.{Env, artifact_of, execute_phase}
use agent_p.Workflow.Executor.Context.{update_context_from_artifact}
use agent_p.Workflow.Executor.State.{
  Job, Run, Outcome, next, stop, thrown, save_checkpoint, record_failure, record_success,
}
use agent_p.Workflow.Executor.Loop.{
  fail_phase, after_failure, after_save, after_update, after_agent, after_handoff, attempt_phase,
}

-- Saving a checkpoint never fails, as where no store is configured.
abbrev pub SavesAlways : {World : Type 0} → Env World → Type 0
SavesAlways {World} env = (job : Job) (s : Run World) → (save_checkpoint env job s).0 ≡ ok tt

-- One miss and no hit were counted.
pub record Misses {World : Type 0} (s t : Run World) : Type 0 where
  pub hits : t.runtime.cache.hits ≡ s.runtime.cache.hits
  pub misses : t.runtime.cache.misses ≡ suc s.runtime.cache.misses

abbrev pub Attempted : {World : Type 0} → Run World → Outcome World → Type 0
Attempted s (next t) = Misses s t
Attempted s (stop t) = Misses s t
Attempted s (thrown m t) = ⊥

artifact_of_ok :
    {World A : Type 0} (f : A → Artifact) (r : Result A × World) (a : Artifact) (w : World)
    → artifact_of f r ≡ (ok a, w)
    → (b : A) × (a ≡ f b)
artifact_of_ok f (ok b, w') a w h = (b, ground arith)
artifact_of_ok f (err m, w') a w h = ground arith

module _ {World : Type 0} (env : Env World) where
  -- The artifact that an agent returns for a phase has the shape that the phase wants.
  pub execute_phase-fits :
      (ph : Phase) (h : Handoff) (trust : Option TrustInput) (w w' : World) (a : Artifact)
      (c : RuntimeContext)
      → execute_phase env ph h trust w ≡ (ok a, w')
      → (c' : RuntimeContext) × (update_context_from_artifact ph a c ≡ ok c')
  unfolding execute_phase update_context_from_artifact
  execute_phase-fits understand h trust w w' a c e =
      let (b, is) = artifact_of_ok _ _ a w' e in rw is (_, refl)
  execute_phase-fits design h trust w w' a c e =
      let (b, is) = artifact_of_ok _ _ a w' e in rw is (_, refl)
  execute_phase-fits plan h trust w w' a c e =
      let (b, is) = artifact_of_ok _ _ a w' e in rw is (_, refl)
  execute_phase-fits build_green h trust w w' a c e =
      let (b, is) = artifact_of_ok _ _ a w' e in rw is (_, refl)
  execute_phase-fits refactor h trust w w' a c e =
      let (b, is) = artifact_of_ok _ _ a w' e in rw is (_, refl)
  execute_phase-fits implement_red h trust w w' a c e = (_, refl)
  execute_phase-fits review h trust w w' a c e = (_, refl)
  execute_phase-fits verify h trust w w' a c e = (_, refl)
  execute_phase-fits deliver h trust w w' a c e = (_, refl)

  module _ (saves : SavesAlways env) (job : Job) (p : PhasePlan) where
    after_failure-Attempted :
        (s t : Run World) (saved : Result (Unit {0}) × World)
        → saved.0 ≡ ok tt
        → Misses s t
        → Attempted s (after_failure env job t saved)
    unfolding after_failure
    after_failure-Attempted s t (ok u, w) e h =
        if_both (Attempted s) job.continue_on_failure (next (record t { world = w }))
          (stop (record t { world = w })) (record { hits = h.hits; misses = h.misses })
          (record { hits = h.hits; misses = h.misses })
    after_failure-Attempted s t (err m, w) e h = cc

    record_failure-Misses :
        (h : Option Handoff) (started : ℕ) (m : String) (s u : Run World)
        → u.runtime ≡ s.runtime
        → Misses s (record_failure env p h started m u)
    unfolding record_failure
    record_failure-Misses h started m s u e = record {
      hits = ap (λ r. r.cache.hits) e;
      misses = ap (λ r. suc r.cache.misses) e;
    }

    record_success-Misses :
        (h : Handoff) (started : ℕ) (a : Artifact) (s : Run World) (w : World)
        → Misses s (record_success env p h started a (record s { world = w }))
    unfolding record_success
    record_success-Misses h started a s w = record { hits = refl; misses = refl }

    fail_phase-Attempted :
        (h : Option Handoff) (started : ℕ) (m : String) (s u : Run World)
        → u.runtime ≡ s.runtime
        → Attempted s (fail_phase env job p h started m u)
    unfolding fail_phase
    fail_phase-Attempted h started m s u e =
        after_failure-Attempted s (record_failure env p h started m u) _ (saves job _)
          (record_failure-Misses h started m s u e)

    after_save-Attempted :
        (h : Handoff) (started : ℕ) (s t : Run World) (saved : Result (Unit {0}) × World)
        → saved.0 ≡ ok tt
        → Misses s t
        → Attempted s (after_save env job p h started t saved)
    unfolding after_save
    after_save-Attempted h started s t (ok u, w) e k = record { hits = k.hits; misses = k.misses }
    after_save-Attempted h started s t (err m, w) e k = cc

    after_update-Attempted :
        (h : Handoff) (started : ℕ) (s t : Run World) (c : Result RuntimeContext)
        → ((c' : RuntimeContext) × (c ≡ ok c'))
        → Misses s t
        → Attempted s (after_update env job p h started t c)
    unfolding after_update
    after_update-Attempted h started s t (ok c) e k =
        after_save-Attempted h started s
          (record t { context = record c { parent_handoff_id = some h.handoff_id } }) _
          (saves job _) (record { hits = k.hits; misses = k.misses })
    after_update-Attempted h started s t (err m) (c', e) k = cc

    after_agent-Attempted :
        (h : Handoff) (started : ℕ) (s : Run World) (w : World) (r : Result Artifact × World)
        → execute_phase env p.phase h job.trust_input w ≡ r
        → Attempted s (after_agent env job p h started s r)
    unfolding after_agent
    after_agent-Attempted h started s w (err m, w') e =
        fail_phase-Attempted (some h) started m s (record s { world = w' }) refl
    after_agent-Attempted h started s w (ok a, w') e =
        after_update-Attempted h started s
          (record_success env p h started a (record s { world = w' })) _
          (execute_phase-fits p.phase h job.trust_input w w' a _ e)
          (record_success-Misses h started a s w')

    after_handoff-Attempted :
        (started : ℕ) (s : Run World) (r : Result Handoff × World)
        → Attempted s (after_handoff env job p started s r)
    unfolding after_handoff
    after_handoff-Attempted started s (err m, w) =
        fail_phase-Attempted none started m s (record s { world = w }) refl
    after_handoff-Attempted started s (ok h, w) = after_agent-Attempted h started s w _ refl

    -- With a store that always saves, an attempt never throws, and counts one miss and no hit.
    pub attempt_phase-Attempted : (s : Run World) → Attempted s (attempt_phase env job p s)
    unfolding attempt_phase
    attempt_phase-Attempted s = after_handoff-Attempted _ s _
