-- ===== src/Workflow/Executor/Context.antt =====
-- How the artifacts of the phases change the context of a run: `updateContextFromArtifact` and
-- `rebuildContextFromPhaseArtifacts` (src/workflow/executor.ts). The casts there are unchecked: an
-- artifact of another shape has no such array, and spreading or filtering it throws.
use agent_p.Common.{
  ℕ, String, Option, none, some, List, [], ◌∷◌, ◌++◌, Result, ok, err, dedupe, keep_if, not,
  nat_eqb, string_eq, if◌then◌else◌,
}
use text.Mathlib.Text.{starts_with}
use agent_p.Agents.Types.{BuilderPlan}
use agent_p.Workflow.Types.{
  Phase, PhasePlan, Plan, PhaseResult, RuntimeContext, Artifact, scouted, built,
}
use agent_p.Workflow.Types.Phase.{
  understand, design, plan, implement_red, build_green, refactor, review, verify, deliver,
}
use agent_p.Workflow.Results.{sort_by_order}

unfoldable pub extract_builder_file_paths : BuilderPlan → List String
extract_builder_file_paths b = keep_if (λ e. not (starts_with e "domain:")) b.planned_changes

add_scouted : RuntimeContext → Artifact → Result RuntimeContext
add_scouted c (scouted a) = ok (record c {
  file_paths = dedupe (c.file_paths ++ a.relevant_files);
  domains = dedupe (c.domains ++ a.domains);
  analysis = some a;
})
add_scouted c _ = err "relevantFiles is not iterable"

add_built : RuntimeContext → Artifact → Result RuntimeContext
add_built c (built b) = ok (record c {
  file_paths = dedupe (c.file_paths ++ extract_builder_file_paths b);
  domains = dedupe c.domains;
})
add_built c _ = err "plannedChanges is undefined"

keep_context : RuntimeContext → RuntimeContext
keep_context c = record c { file_paths = dedupe c.file_paths; domains = dedupe c.domains }

unfoldable pub update_context_from_artifact :
    Phase → Artifact → RuntimeContext → Result RuntimeContext
unfolding add_scouted add_built keep_context
update_context_from_artifact understand a c = add_scouted c a
update_context_from_artifact design a c = add_scouted c a
update_context_from_artifact plan a c = add_scouted c a
update_context_from_artifact build_green a c = add_built c a
update_context_from_artifact refactor a c = add_built c a
update_context_from_artifact implement_red a c = ok (keep_context c)
update_context_from_artifact review a c = ok (keep_context c)
update_context_from_artifact verify a c = ok (keep_context c)
update_context_from_artifact deliver a c = ok (keep_context c)

last_with : ℕ → PhasePlan → Option PhasePlan → Option PhasePlan
last_with n p (some q) = some q
last_with n p none = if nat_eqb p.order n then some p else none

-- `new Map(phases.map((p) => [p.order, p])).get(n)`: the last phase with the order `n`.
unfoldable pub plan_by_order : ℕ → List PhasePlan → Option PhasePlan
unfolding last_with
plan_by_order n [] = none
plan_by_order n (p ∷ ps) = last_with n p (plan_by_order n ps)

set_parent : String → Result RuntimeContext → Result RuntimeContext
set_parent parent (ok c) = ok (record c { parent_handoff_id = some parent })
set_parent parent (err m) = err m

-- One round of the loop of `rebuildContextFromPhaseArtifacts`.
rebuild_one :
    PhaseResult → Option PhasePlan → Option Artifact → RuntimeContext → Result RuntimeContext
unfolding set_parent update_context_from_artifact
rebuild_one r (some p) (some a) c =
    set_parent r.handoff_id (update_context_from_artifact p.phase a c)
rebuild_one r _ _ c = ok c

rebuild_from : List PhasePlan → List PhaseResult → RuntimeContext → Result RuntimeContext
unfolding plan_by_order rebuild_one
rebuild_from ps [] c = ok c
rebuild_from ps (r ∷ rs) c = elim (rebuild_one r (plan_by_order r.order ps) r.artifact c) [
  | ok c' ↦ rebuild_from ps rs c'
  | err m ↦ err m
]

unfoldable pub rebuild_context_from_phase_artifacts :
    Plan → List PhaseResult → RuntimeContext → Result RuntimeContext
unfolding rebuild_from sort_by_order keep_context
rebuild_context_from_phase_artifacts p rs c =
    rebuild_from p.phases (sort_by_order rs) (keep_context c)
