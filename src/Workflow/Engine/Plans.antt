-- ===== src/Workflow/Engine/Plans.antt =====
-- What a plan of the engine promises: its numbering, its phases and its mode.
use Prim.Native.Nat.{◌<◌}
use agent_p.Common.{
  ℕ, suc, ◌≤◌, ◌≡◌, ◌↔◌, ◌⊎◌, true, not, List, [], ◌∷◌, keep_if, includes, arith, All,
}
use agent_p.Common.Sorted.{Increasing}
use agent_p.Workflow.Types.{
  Mode, EffectiveMode, Phase, EngineConfig, Complexity, PlanRequest, PhasePlan, phase_eq,
  stage_rank,
}
use agent_p.Workflow.Types.Phase.{understand, plan, implement_red, build_green, verify, deliver}
use agent_p.Workflow.Engine.{
  make_plan, phase_names, static_phases, resolve_workflow_mode, resolve_effective_workflow_mode,
  resolve_complexity,
}

-- No phase of an earlier stage stands behind one of a later stage.
abbrev pub Staged : List PhasePlan → Type 0
Staged [] = Unit
Staged (p ∷ []) = Unit
Staged (p ∷ q ∷ qs) = (stage_rank p.stage ≤ stage_rank q.stage) × Staged (q ∷ qs)

-- The orders are `n` and the numbers behind it, one after the other.
abbrev pub IsNumbered : ℕ → List PhasePlan → Type 0
IsNumbered n [] = Unit
IsNumbered n (p ∷ ps) = (p.order ≡ n) × IsNumbered (suc n) ps

abbrev skipped : List Phase → List Phase
skipped phases = keep_if (λ p. not (includes phases p)) static_phases

-- What holds of the phases of a plan and of those that it skips.
pub record IsLaidOut (phases : List PhasePlan) (left_out : List Phase) : Type 0 where
  pub numbered : IsNumbered 1 phases
  pub rising : Increasing (λ (q : PhasePlan). q.order) phases
  pub staged : Staged phases
  -- The nine canonical phases in their order, without those that are left out.
  pub canonical : phase_names phases ≡ keep_if (λ q. not (includes left_out q)) static_phases
  -- A phase is left out exactly if it is not planned.
  pub split : (q : Phase) → includes left_out q ≡ not (includes (phase_names phases) q)
  -- These phases are never left out.
  pub essential :
      All
        (λ q. includes (phase_names phases) q ≡ true)
        (understand ∷ plan ∷ implement_red ∷ build_green ∷ verify ∷ deliver ∷ [])

effective_quick_iff :
    (c : EngineConfig) (m : Mode) (k : Complexity)
    → (resolve_effective_workflow_mode c m k ≡ EffectiveMode.quick) ↔ (
        (m ≡ Mode.quick)
        ⊎ ((m ≡ Mode.dynamic)
            × (k.file_count < c.quick_threshold)
            × (k.pattern_count < c.quick_threshold)))
unfolding resolve_effective_workflow_mode
effective_quick_iff c Mode.static k = ground arith
effective_quick_iff c Mode.quick k = ground arith
effective_quick_iff c Mode.dynamic k = ground arith

-- A plan is quick exactly if the resolved mode is quick, or is dynamic with both the file count and
-- the pattern count under the quick threshold.
make_plan-quick_iff :
    (c : EngineConfig) (r : PlanRequest)
    → let p = make_plan c r in
      (p.effective_workflow_mode ≡ EffectiveMode.quick) ↔ (
        (p.workflow_mode ≡ Mode.quick)
        ⊎ ((p.workflow_mode ≡ Mode.dynamic)
            × (p.complexity.file_count < c.quick_threshold)
            × (p.complexity.pattern_count < c.quick_threshold)))
unfolding make_plan
make_plan-quick_iff c r =
    effective_quick_iff c (resolve_workflow_mode c r.workflow_mode) (resolve_complexity r)
