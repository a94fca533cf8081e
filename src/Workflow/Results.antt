-- ===== src/Workflow/Results.antt =====
-- The functions on the results of phases at the head of src/workflow/executor.ts.
pub mod Ordering
pub mod Progress
use agent_p.Common.{
  ℕ, suc, ◌+◌, String, Option, none, some, Bool, true, false, not, ◌&&◌, List, [], ◌∷◌, ◌++◌, map,
  if◌then◌else◌, ltb, leb, nat_eqb, or_else, ◌==◌, string_eq, keep_if, find, any, includes, length,
}
use agent_p.Common.Sorted.{sort_by}
use agent_p.Workflow.Types.{
  Stage, Phase, PhasePlan, Plan, PhaseStatus, PhaseResult, Source, CheckpointStatus,
  ReindexMetadata, RuntimeMetadata, stage_eq,
}

abbrev pub order_of : PhaseResult → ℕ
order_of r = r.order

abbrev pub is_completed : PhaseStatus → Bool
is_completed PhaseStatus.completed = true
is_completed PhaseStatus.failed = false

abbrev pub completed_result : Option PhaseResult → Bool
completed_result none = false
completed_result (some r) = is_completed r.status

-- `phaseResults[existingIndex] = nextResult`, or a push where no order agrees.
replace_or_push : PhaseResult → List PhaseResult → List PhaseResult
replace_or_push new [] = new ∷ []
replace_or_push new (r ∷ rs) =
    let rest = replace_or_push new rs in if nat_eqb r.order new.order then new ∷ rs else r ∷ rest

unfoldable pub upsert_phase_result : List PhaseResult → PhaseResult → List PhaseResult
unfolding replace_or_push
upsert_phase_result rs new = sort_by order_of (replace_or_push new rs)

abbrev result_phases : List PhaseResult → List Phase
result_phases [] = []
result_phases (r ∷ rs) = r.phase ∷ result_phases rs

unfoldable pub compute_completed_phases : List PhaseResult → List Phase
compute_completed_phases rs = result_phases (keep_if (λ r. is_completed r.status) rs)

unfoldable pub compute_failures : List PhaseResult → List PhaseResult
compute_failures = keep_if (λ r. not (is_completed r.status))

unfoldable pub normalize_phase_result : PhaseResult → PhaseResult
normalize_phase_result r = record r {
  cache_hit = some (or_else r.cache_hit false);
  source = some (or_else r.source Source.runtime);
}

unfoldable pub sort_by_order : List PhaseResult → List PhaseResult
sort_by_order = sort_by order_of

unfoldable pub has_hint_drift : List String → List String → Bool
has_hint_drift [] available = false
has_hint_drift (r ∷ rs) available = any (λ entry. not (includes available entry)) (r ∷ rs)

reindex_from : Option PhasePlan → ReindexMetadata
reindex_from none = record {
  requested = true;
  applied = false;
  start_phase_order = none;
  start_phase = none;
}
reindex_from (some p) = record {
  requested = true;
  applied = false;
  start_phase_order = some p.order;
  start_phase = some p.phase;
}

unfoldable pub derive_reindex_metadata : Bool → Plan → ReindexMetadata
unfolding reindex_from
derive_reindex_metadata false plan = record {
  requested = false;
  applied = false;
  start_phase_order = none;
  start_phase = none;
}
derive_reindex_metadata true plan = reindex_from (find (λ p. p.stage == Stage.design) plan.phases)

unfoldable pub default_runtime_metadata : Bool → Bool → Plan → RuntimeMetadata
default_runtime_metadata use_cache reindex_requested plan = record {
  cache = record { enabled = use_cache; hits = 0; misses = 0 };
  reindex = derive_reindex_metadata reindex_requested plan;
}

-- `phaseResults.find((entry) => entry.order === order)`
abbrev pub result_at : ℕ → List PhaseResult → Option PhaseResult
result_at n rs = find (λ r. nat_eqb r.order n) rs

-- The loop of `nextPhaseOrderFromPlan` over the phases `ps`, with what it returns at the end.
first_open : ℕ → List PhasePlan → List PhaseResult → ℕ
first_open end [] rs = end
first_open end (p ∷ ps) rs =
    let later = first_open end ps rs in
    if completed_result (result_at p.order rs) then later else p.order

unfoldable pub next_phase_order_from_plan : Plan → List PhaseResult → ℕ
unfolding first_open
next_phase_order_from_plan plan rs = first_open (length plan.phases + 1) plan.phases rs

abbrev no_failures : List PhaseResult → CheckpointStatus
no_failures [] = CheckpointStatus.completed
no_failures (r ∷ rs) = CheckpointStatus.failed

unfoldable pub checkpoint_status_for : Plan → List PhaseResult → CheckpointStatus
checkpoint_status_for plan rs =
    if ltb (length plan.phases) (next_phase_order_from_plan plan rs)
    then no_failures (compute_failures rs)
    else CheckpointStatus.in_progress
