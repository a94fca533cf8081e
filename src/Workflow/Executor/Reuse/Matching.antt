-- ===== src/Workflow/Executor/Reuse/Matching.antt =====
-- When a checkpoint is reusable: plan identity but for the session and the objectives, and no hint
-- that the checkpoint has not seen.
use agent_p.Common.{
  ℕ, suc, ◌≡◌, refl, ◌↔◌, String, Bool, true, false, not, ◌&&◌, List, [], ◌∷◌, nat_eqb, ◌==◌,
  ==_iff, string_eq, nat_eq, includes, any, All, length, arith,
}
use mathlib.Core.Bool.{false≢true}
use agent_p.Agents.Types.{AgentRole, role_eq}
use agent_p.Workflow.Types.{
  Stage, Phase, PhasePlan, Plan, Checkpoint, mode_eq, effective_eq, analysis_eq, stage_eq, phase_eq,
}
use agent_p.Workflow.Results.{has_hint_drift}
use agent_p.Workflow.Executor.Reuse.{same_phase, every_phase, every_skipped, is_reusable_checkpoint}

-- What a checkpoint keeps of the phases of its plan: all but the objectives.
abbrev pub Shape : Type 0
Shape = ℕ × Stage × Phase × AgentRole

abbrev pub shapes : List PhasePlan → List Shape
shapes [] = []
shapes (p ∷ ps) = (p.order, p.stage, p.phase, p.agent) ∷ shapes ps

pub record Matches (c : Checkpoint) (plan : Plan) (file_paths domains : List String) : Type 0 where
  pub query : c.plan.query ≡ plan.query
  pub workflow_mode : c.plan.workflow_mode ≡ plan.workflow_mode
  pub effective_workflow_mode : c.plan.effective_workflow_mode ≡ plan.effective_workflow_mode
  pub analysis_mode : c.plan.analysis_mode ≡ plan.analysis_mode
  pub file_count : c.plan.complexity.file_count ≡ plan.complexity.file_count
  pub pattern_count : c.plan.complexity.pattern_count ≡ plan.complexity.pattern_count
  pub phases : shapes c.plan.phases ≡ shapes plan.phases
  pub skipped_phases : c.plan.skipped_phases ≡ plan.skipped_phases
  pub seen_files : All (λ f. includes c.context.file_paths f ≡ true) file_paths
  pub seen_domains : All (λ d. includes c.context.domains d ≡ true) domains

and_iff :
    {P Q : Type 0} (a b : Bool) → (a ≡ true) ↔ P → (b ≡ true) ↔ Q → ((a && b) ≡ true) ↔ (P × Q)
and_iff true true f g = (λ h. (f.0 refl, g.0 refl), λ h. refl)
and_iff true false f g = (λ h. absurd (false≢true h), λ h. g.1 h.1)
and_iff false b f g = (λ h. absurd (false≢true h), λ h. f.1 h.0)

cons_iff : {A : Type 0} (x y : A) (xs ys : List A) → ((x ≡ y) × (xs ≡ ys)) ↔ (x ∷ xs ≡ y ∷ ys)
cons_iff x y xs ys = ground arith

-- `length ps === length qs` may be tested behind the first element.
test_later :
    (n m : ℕ) (same rest : Bool)
    → ((nat_eqb (suc n) (suc m) && (same && rest)) ≡ true)
      ↔ ((same && (nat_eqb n m && rest)) ≡ true)
test_later n m same rest = ground arith

iff_trans : {A B C : Type 0} → A ↔ B → B ↔ C → A ↔ C
iff_trans f g = (λ a. g.0 (f.0 a), λ c. f.1 (g.1 c))

shape_iff :
    (p q : PhasePlan)
    → ((((p.order ≡ q.order) × (p.stage ≡ q.stage)) × (p.phase ≡ q.phase)) × (p.agent ≡ q.agent))
      ↔ (◌≡◌ {A = Shape} (p.order, p.stage, p.phase, p.agent) (q.order, q.stage, q.phase, q.agent))
shape_iff p q = (
  λ h i. (h.0.0.0 i, h.0.0.1 i, h.0.1 i, h.1 i),
  λ e. (((λ i. (e i).0, λ i. (e i).1), λ i. (e i).2), λ i. (e i).3),
)

same_phase_iff :
    (p q : PhasePlan)
    → (same_phase p q ≡ true)
      ↔ (◌≡◌ {A = Shape} (p.order, p.stage, p.phase, p.agent) (q.order, q.stage, q.phase, q.agent))
unfolding same_phase
same_phase_iff p q =
    iff_trans
      (and_iff _ _
        (and_iff _ _ (and_iff _ _ (==_iff p.order q.order) (==_iff p.stage q.stage))
          (==_iff p.phase q.phase))
        (==_iff p.agent q.agent))
      (shape_iff p q)

every_phase_iff :
    (ps qs : List PhasePlan)
    → ((nat_eqb (length ps) (length qs) && every_phase ps qs) ≡ true) ↔ (shapes ps ≡ shapes qs)
unfolding every_phase
every_phase_iff [] [] = ground arith
every_phase_iff [] (q ∷ qs) = ground arith
every_phase_iff (p ∷ ps) [] = ground arith
every_phase_iff (p ∷ ps) (q ∷ qs) =
    iff_trans (test_later (length ps) (length qs) (same_phase p q) (every_phase ps qs)) (
      iff_trans (and_iff _ _ (same_phase_iff p q) (every_phase_iff ps qs))
        (cons_iff {A = Shape} _ _ _ _))

every_skipped_iff :
    (ps qs : List Phase)
    → ((nat_eqb (length ps) (length qs) && every_skipped ps qs) ≡ true) ↔ (ps ≡ qs)
unfolding every_skipped
every_skipped_iff [] [] = ground arith
every_skipped_iff [] (q ∷ qs) = ground arith
every_skipped_iff (p ∷ ps) [] = ground arith
every_skipped_iff (p ∷ ps) (q ∷ qs) =
    iff_trans (test_later (length ps) (length qs) (p == q) (every_skipped ps qs))
      (iff_trans (and_iff _ _ (==_iff p q) (every_skipped_iff ps qs)) (cons_iff p q ps qs))

any_unseen_iff :
    (asked seen : List String)
    → (any (λ e. not (includes seen e)) asked ≡ false) ↔ All (λ e. includes seen e ≡ true) asked
any_unseen_iff [] seen = ground arith
any_unseen_iff (a ∷ as') seen = ground (arith, any_unseen_iff as' seen)

drift_iff :
    (asked seen : List String)
    → (has_hint_drift asked seen ≡ false) ↔ All (λ e. includes seen e ≡ true) asked
unfolding has_hint_drift
drift_iff [] seen = ground arith
drift_iff (a ∷ as') seen = any_unseen_iff (a ∷ as') seen

reusable-Matches :
    (c : Checkpoint) (plan : Plan) (file_paths domains : List String)
    → is_reusable_checkpoint c plan file_paths domains ≡ true
    → Matches c plan file_paths domains
unfolding is_reusable_checkpoint
reusable-Matches c plan file_paths domains h = ground (
  arith,
  ==_iff c.plan.query plan.query,
  ==_iff c.plan.workflow_mode plan.workflow_mode,
  ==_iff c.plan.effective_workflow_mode plan.effective_workflow_mode,
  ==_iff c.plan.analysis_mode plan.analysis_mode,
  every_phase_iff c.plan.phases plan.phases,
  every_skipped_iff c.plan.skipped_phases plan.skipped_phases,
  drift_iff file_paths c.context.file_paths,
  drift_iff domains c.context.domains,
)

Matches-reusable :
    (c : Checkpoint) (plan : Plan) (file_paths domains : List String)
    → Matches c plan file_paths domains
    → is_reusable_checkpoint c plan file_paths domains ≡ true
unfolding is_reusable_checkpoint
Matches-reusable c plan file_paths domains h = ground (
  arith,
  ==_iff c.plan.query plan.query,
  ==_iff c.plan.workflow_mode plan.workflow_mode,
  ==_iff c.plan.effective_workflow_mode plan.effective_workflow_mode,
  ==_iff c.plan.analysis_mode plan.analysis_mode,
  every_phase_iff c.plan.phases plan.phases,
  every_skipped_iff c.plan.skipped_phases plan.skipped_phases,
  drift_iff file_paths c.context.file_paths,
  drift_iff domains c.context.domains,
)

-- A checkpoint is reusable for a plan and hints exactly if its plan agrees in the query, the three
-- modes, the complexity, the skipped phases and the phases but for their objectives, and every
-- requested file path and domain stands in its context.
pub is_reusable_checkpoint_iff :
    (c : Checkpoint) (plan : Plan) (file_paths domains : List String)
    → (is_reusable_checkpoint c plan file_paths domains ≡ true) ↔ Matches c plan file_paths domains
is_reusable_checkpoint_iff c plan file_paths domains =
    (reusable-Matches c plan file_paths domains, Matches-reusable c plan file_paths domains)
