-- ===== src/Examples/Workflow.antt =====
-- The theorems on the workflow at concrete inputs (src/workflow).
use agent_p.Common.{
  String, ℕ, ◌+◌, ◌≡◌, refl, ◌↔◌, ◌⊎◌, some, true, false, [], ◌∷◌, ◌++◌, All, Result, ok, err,
  nat_eqb, if◌then◌else◌, includes, string_eq, find, keep_if, arith,
}
use agent_p.Workflow.Types.{Phase, PhasePlan, WorkflowState, CheckpointStatus, ExecutionResult}
use agent_p.Workflow.Engine.{default_engine_config, make_plan, advance_state}
use agent_p.Workflow.Engine.Transitions.{
  IsStep, RunsThrough, advance_state_iff, make_plan-RunsThrough,
}
use agent_p.Workflow.Results.{
  result_at, upsert_phase_result, compute_failures, normalize_phase_result,
  next_phase_order_from_plan, checkpoint_status_for,
}
use agent_p.Workflow.Results.Ordering.{InOrder, upsert_phase_result_lem}
use agent_p.Workflow.Results.Progress.{
  IsDone, IsFirstOpen, next_phase_order_from_plan_cases, checkpoint_status_for_cases,
}
use agent_p.Common.Sorted.{sort_by}
use agent_p.Workflow.Executor.Env.{create_phase_handoff, execute_phase}
use agent_p.Workflow.Executor.Context.{
  update_context_from_artifact, rebuild_context_from_phase_artifacts,
}
use agent_p.Workflow.Executor.State.{thrown, Run, save_checkpoint}
use agent_p.Workflow.Executor.Loop.{attempt_phase, run_phases}
use agent_p.Workflow.Executor.Loop.Rounds.{state_of}
use agent_p.Workflow.Executor.Loop.PlanOrder.{StopsAt}
use agent_p.Workflow.Executor.Loop.FailFast.{run_phases-completes, run_phases-StopsAt}
use agent_p.Workflow.Executor.Loop.Resume.{run_phases-resumes}
use agent_p.Workflow.Executor.Loop.Replay.{Misfit, Hits, Replays, run_phases-Replays}
use agent_p.Workflow.Executor.Loop.Attempts.{SavesAlways}
use agent_p.Workflow.Executor.Loop.Answers.{Failed, attempt_phase-Answered}
use agent_p.Workflow.Executor.Reuse.{is_reusable_checkpoint}
use agent_p.Workflow.Executor.Reuse.Matching.{Matches, is_reusable_checkpoint_iff}
use agent_p.Workflow.Executor.Reuse.Selection.{IsPlanningResult}
use agent_p.Workflow.Executor.Execute.{Start, execute_internal, seed_run}
use agent_p.Workflow.Executor.Execute.Fresh.{Succeeded, FailedAt, execute_internal-returns}
use agent_p.Workflow.Executor.Execute.Seeding.{seed_run-IsPlanningResult}
use agent_p.Examples.{
  request, env, understand_it, build_it, two_phases, job, no_context, from_two, fresh, result_of,
  both_results, checkpoint, start,
}

env_saves : SavesAlways env
unfolding save_checkpoint
env_saves j s = refl

make_plan-RunsThrough_example : RunsThrough (make_plan default_engine_config request)
make_plan-RunsThrough_example = make_plan-RunsThrough default_engine_config request

abbrev planned : WorkflowState
planned = record {
  session_id = "session-1";
  current_phase = Phase.understand;
  completed_phases = [];
  remaining_phases = Phase.plan ∷ Phase.verify ∷ [];
}

abbrev one_on : WorkflowState
one_on = record {
  session_id = "session-1";
  current_phase = Phase.plan;
  completed_phases = Phase.understand ∷ [];
  remaining_phases = Phase.verify ∷ [];
}

advance_state_iff_example :
    (advance_state planned Phase.plan ≡ ok one_on) ↔ IsStep planned Phase.plan one_on
advance_state_iff_example = advance_state_iff planned Phase.plan one_on

upsert_phase_result_lem_example :
    InOrder (upsert_phase_result both_results (result_of understand_it))
    × ((n : ℕ)
        → result_at n (upsert_phase_result both_results (result_of understand_it))
          ≡ (if nat_eqb 1 n then some (result_of understand_it) else result_at n both_results))
upsert_phase_result_lem_example =
    upsert_phase_result_lem both_results (result_of understand_it) (omega arith, tt)

next_phase_order_from_plan_cases_example :
    (All (IsDone both_results) two_phases.phases
      × (next_phase_order_from_plan two_phases both_results ≡ 2 + 1))
    ⊎ ((p : PhasePlan) × IsFirstOpen two_phases.phases both_results p
        × (next_phase_order_from_plan two_phases both_results ≡ p.order))
next_phase_order_from_plan_cases_example = next_phase_order_from_plan_cases two_phases both_results

checkpoint_status_for_cases_example :
    ((checkpoint_status_for two_phases both_results ≡ CheckpointStatus.completed)
      × All (IsDone both_results) two_phases.phases
      × (compute_failures both_results ≡ []))
    ⊎ ((checkpoint_status_for two_phases both_results ≡ CheckpointStatus.in_progress)
        × ((p : PhasePlan) × IsFirstOpen two_phases.phases both_results p))
unfolding includes
checkpoint_status_for_cases_example =
    checkpoint_status_for_cases two_phases both_results (omega arith, (omega arith, tt))
      (omega arith, tt) (refl, (refl, tt))

execute_internal-returns_example :
    (r : ExecutionResult) × (w' : ℕ) × (execute_internal env job false start 0 ≡ (ok r, w'))
    × (Succeeded job r ⊎ FailedAt job r)
execute_internal-returns_example =
    execute_internal-returns env job false no_context from_two 0 env_saves refl (omega arith, tt)

run_phases-completes_example :
    All
      (IsDone (state_of (run_phases env job (understand_it ∷ []) fresh)).results)
      (understand_it ∷ [])
    × InOrder (state_of (run_phases env job (understand_it ∷ []) fresh)).results
unfolding run_phases find create_phase_handoff execute_phase update_context_from_artifact
run_phases-completes_example =
    run_phases-completes env job (understand_it ∷ []) fresh
      (state_of (run_phases env job (understand_it ∷ []) fresh)) refl tt tt refl

run_phases-StopsAt_example :
    StopsAt two_phases.phases [] (state_of (run_phases env job two_phases.phases fresh)).results
unfolding run_phases find create_phase_handoff execute_phase update_context_from_artifact
    upsert_phase_result sort_by
run_phases-StopsAt_example =
    run_phases-StopsAt env job two_phases.phases fresh
      (state_of (run_phases env job two_phases.phases fresh)) refl (omega arith, tt) tt refl

abbrev replaying : Run ℕ
replaying = record fresh { results = both_results }

run_phases-Replays_example : Replays 2 replaying (run_phases env job two_phases.phases replaying)
unfolding find
run_phases-Replays_example =
    run_phases-Replays env job two_phases.phases replaying (omega arith, tt) (refl, (refl, tt))

attempt_phase-Answered_example :
    Failed job build_it 0 1 "no builder" (attempt_phase env job build_it fresh)
unfolding create_phase_handoff execute_phase
attempt_phase-Answered_example = attempt_phase-Answered env job build_it env_saves fresh tt

is_reusable_checkpoint_iff_example :
    (is_reusable_checkpoint checkpoint two_phases [] [] ≡ true)
    ↔ Matches checkpoint two_phases [] []
is_reusable_checkpoint_iff_example = is_reusable_checkpoint_iff checkpoint two_phases [] []

seeded : Result Start → Start
seeded (ok t) = t
seeded (err m) = start

seed_run-IsPlanningResult_example :
    All (IsPlanningResult two_phases) (seeded (seed_run env two_phases start checkpoint)).results
unfolding seed_run seeded make_plan rebuild_context_from_phase_artifacts sort_by keep_if
    normalize_phase_result includes
seed_run-IsPlanningResult_example =
    seed_run-IsPlanningResult env two_phases start
      (seeded (seed_run env two_phases start checkpoint)) checkpoint refl refl

run_phases-resumes_example :
    ((t : Run ℕ) × Hits 1 replaying t
      × (run_phases env job ((understand_it ∷ []) ++ build_it ∷ []) replaying
          ≡ run_phases env job (build_it ∷ []) t))
    ⊎ ((m : String) × (t : Run ℕ) × (t.world ≡ 0)
        × Misfit m t
        × (run_phases env job ((understand_it ∷ []) ++ build_it ∷ []) replaying ≡ thrown m t))
unfolding find
run_phases-resumes_example =
    run_phases-resumes env job (understand_it ∷ []) (build_it ∷ []) replaying (omega arith, tt)
      (refl, tt)
