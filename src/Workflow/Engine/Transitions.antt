-- ===== src/Workflow/Engine/Transitions.antt =====
-- The guards on the transitions of a workflow, `initialState` and `advanceState`.
use agent_p.Common.{
  ◌≡◌, refl, sym, ap, ◌∙◌, ◌↔◌, List, [], ◌∷◌, ◌++◌, append_assoc, append-nil, ==_iff, Result, ok,
  err, Result-cases, arith, inl, inr,
}
use agent_p.Workflow.Types.{
  EffectiveMode, Phase, EngineConfig, PlanRequest, Plan, WorkflowState, phase_eq,
}
use agent_p.Workflow.Types.Phase.{understand}
use agent_p.Workflow.Engine.{
  initial_state, advance, advance_state, phase_names, make_plan, resolve_phases, number_phases,
}

-- The whole run that a state describes: what is done, what is current, what is left.
abbrev pub history : WorkflowState → List Phase
history s = s.completed_phases ++ s.current_phase ∷ s.remaining_phases

-- Moving to each phase of a list in turn.
unfoldable pub advance_all : WorkflowState → List Phase → Result WorkflowState
advance_all s [] = ok s
advance_all s (p ∷ ps) = elim (advance_state s p) [ ok t ↦ advance_all t ps | err m ↦ err m ]

-- The state `t` is `s` after one step to the phase `p`, which was the next one.
pub record IsStep (s : WorkflowState) (p : Phase) (t : WorkflowState) : Type 0 where
  pub session : t.session_id ≡ s.session_id
  pub current : t.current_phase ≡ p
  pub next : s.remaining_phases ≡ p ∷ t.remaining_phases
  pub done : t.completed_phases ≡ s.completed_phases ++ s.current_phase ∷ []

advance-IsStep :
    (s : WorkflowState) (p : Phase) (rs : List Phase) (t : WorkflowState)
    → s.remaining_phases ≡ rs
    → advance s p rs ≡ ok t
    → IsStep s p t
unfolding advance
advance-IsStep s p [] t e h = cc
advance-IsStep s p (r ∷ rs) t e h = ground (arith, ==_iff p r)

IsStep-advance :
    (s : WorkflowState) (p : Phase) (rs : List Phase) (t : WorkflowState)
    → s.remaining_phases ≡ rs
    → IsStep s p t
    → advance s p rs ≡ ok t
unfolding advance
IsStep-advance s p [] t e h = cc (h.next)
IsStep-advance s p (r ∷ rs) t e h = ground (arith, ==_iff p r)

-- A transition succeeds exactly for the next phase: the new state has the target as its current
-- phase and the old current phase at the end of what is completed, and nothing else changes.
pub advance_state_iff :
    (s : WorkflowState) (p : Phase) (t : WorkflowState) → (advance_state s p ≡ ok t) ↔ IsStep s p t
unfolding advance_state
advance_state_iff s p t =
    (advance-IsStep s p s.remaining_phases t refl, IsStep-advance s p s.remaining_phases t refl)

IsStep-history : {s t : WorkflowState} {p : Phase} → IsStep s p t → history t ≡ history s
IsStep-history {s} {t} {p} h =
    rw (h.done, h.current, h.next)
      (append_assoc s.completed_phases (s.current_phase ∷ []) (p ∷ t.remaining_phases))

-- Whatever moves succeed one after the other from a state, they were the first of its remaining
-- phases, in order, and the completed, the current and the remaining phases together stay the same.
pub advance_all-history :
    (s : WorkflowState) (ps : List Phase) (t : WorkflowState)
    → advance_all s ps ≡ ok t
    → (history t ≡ history s) × (s.remaining_phases ≡ ps ++ t.remaining_phases)
unfolding advance_all
advance_all-history s [] t h = ground arith
advance_all-history s (p ∷ ps) t h = elim (Result-cases (advance_state s p)) [
  | inl (u, e) ↦
      let step = (advance_state_iff s p u).0 e in
      let rest = advance_all-history u ps t (rw (e, advance_all) at h) in
      (rest.0 ∙ IsStep-history step, step.next ∙ ap (λ l. p ∷ l) rest.1)
  | inr (m, e) ↦ ground arith
]

-- The state after one allowed step.
step_to : (s : WorkflowState) → Phase → List Phase → WorkflowState
step_to s p rest = record s {
  current_phase = p;
  completed_phases = s.completed_phases ++ s.current_phase ∷ [];
  remaining_phases = rest;
}

-- Moving to the first remaining phases, in order, always succeeds and leaves the others.
advance_all_total :
    (s : WorkflowState) (ps rest : List Phase)
    → s.remaining_phases ≡ ps ++ rest
    → (t : WorkflowState) × (advance_all s ps ≡ ok t) × (t.remaining_phases ≡ rest)
unfolding advance_all step_to
advance_all_total s [] rest h = (s, refl, h)
advance_all_total s (p ∷ ps) rest h =
    let u = step_to s p (ps ++ rest) in
    let e =
      (advance_state_iff s p u).1
        (record { session = refl; current = refl; next = h; done = refl }) in
    rw (e, advance_all) (advance_all_total u ps rest refl)

-- What a plan promises of its runs.
abbrev pub RunsThrough : Plan → Type 0
RunsThrough plan =
    (s t : WorkflowState) × (initial_state plan ≡ ok s)
    × (advance_all s s.remaining_phases ≡ ok t)
    × (t.completed_phases ++ t.current_phase ∷ [] ≡ phase_names plan.phases)
    × ((p : Phase) → advance_state t p ≡ err "Workflow is already complete")

complete_refuses :
    (t : WorkflowState)
    → t.remaining_phases ≡ []
    → (p : Phase) → advance_state t p ≡ err "Workflow is already complete"
unfolding advance_state
complete_refuses t h p = rw h

initial_state-RunsThrough :
    (plan : Plan) (first : Phase) (rest : List Phase)
    → phase_names plan.phases ≡ first ∷ rest
    → RunsThrough plan
unfolding initial_state
initial_state-RunsThrough plan first rest h =
    let s : WorkflowState = record {
      session_id = plan.session_id;
      current_phase = first;
      completed_phases = [];
      remaining_phases = rest;
    } in
    let (t, moved, empty) = advance_all_total s rest [] (sym (append-nil rest)) in
    let same : history t ≡ phase_names plan.phases =
      (advance_all-history s rest t moved).0 ∙ sym h in
    (s, t, rw h, moved, rw empty at same, complete_refuses t empty)

starts :
    (e : EffectiveMode)
    → (rest : List Phase) × (phase_names (number_phases 1 (resolve_phases e)) ≡ understand ∷ rest)
unfolding number_phases resolve_phases
starts EffectiveMode.static = (_, refl)
starts EffectiveMode.quick = (_, refl)

-- Every plan of the engine has an initial state, from which the remaining phases can be walked to
-- the end. Then nothing remains, every further move is refused, and the completed phases with the
-- last one are the phases of the plan.
pub make_plan-RunsThrough : (c : EngineConfig) (r : PlanRequest) → RunsThrough (make_plan c r)
unfolding make_plan
make_plan-RunsThrough c r =
    let (rest, h) = starts (make_plan c r).effective_workflow_mode in
    initial_state-RunsThrough (make_plan c r) understand rest h
