-- ===== src/Examples/Agents.antt =====
-- The theorems on the quality path at concrete inputs (src/agents/expert.ts).
use agent_p.Common.{ℕ, suc, ◌≡◌, refl, none, some, true, false, [], ◌∷◌, All, ok, inl, arith}
use agent_p.Agents.Types.{ReasonCode, tester, verifier}
use agent_p.Agents.Handoffs.{compose_quality_path}
use agent_p.Agents.Handoffs.Path.{
  Chained, roles, compose_quality_path_lem, compose_quality_path-one_id,
}
use agent_p.Agents.Quality.Types.{QualityResult, stage_timeout}
use agent_p.Agents.Quality.Policy.{resolve_quality_execution_policy}
use agent_p.Agents.Quality.State.{QualityRun, resolve_skip_reason, to_gate_state}
use agent_p.Agents.Quality.{run_stage, run_stages, first_quality_run, execute_quality_path}
use agent_p.Agents.Quality.Halts.{Idle, run_stages-Idle}
use agent_p.Agents.Dangerous.{collect_signal_texts, detect_dangerous_patterns}
use agent_p.Agents.Dangerous.Matches.{OneEach, has_code, occurs, detect_dangerous_patterns_lem}
use agent_p.Agents.Quality.Danger.{Zeroed, run_stage-Zeroed, run_stages-dangerous}
use agent_p.Agents.Quality.Path.{Covers, composed, execute_quality_path-returns}
use agent_p.Examples.{found, ticks}
use agent_p.Examples.Quality.{
  planning, quality_env, quality_request, two_retries, danger_env, strict_policy, review_handoff,
  verify_handoff,
}

compose_quality_path_lem_example :
    (roles (compose_quality_path ticks planning (some true) (some false) none 0).0
      ≡ tester ∷ verifier ∷ [])
    × Chained none (compose_quality_path ticks planning (some true) (some false) none 0).0
compose_quality_path_lem_example =
    compose_quality_path_lem ticks planning (some true) (some false) none 0

compose_quality_path-one_id_example :
    All (λ h. h.handoff_id ≡ "h-fixed-1") (compose_quality_path ticks planning none none none 0).0
compose_quality_path-one_id_example =
    compose_quality_path-one_id ticks planning none none none 0 refl

execute_quality_path-returns_example :
    (res : QualityResult) × ((execute_quality_path quality_env quality_request two_retries 0).0
      ≡ ok res)
    × Covers
        (suc (resolve_quality_execution_policy two_retries).max_stage_retries)
        (composed quality_env quality_request two_retries 0)
        res
unfolding compose_quality_path resolve_quality_execution_policy
execute_quality_path-returns_example =
    execute_quality_path-returns quality_env quality_request two_retries 0
      (refl, (refl, (refl, tt)))

-- A run that is blocked by a timeout.
abbrev blocked : QualityRun ℕ
blocked = record (first_quality_run none 0) { blocking = some stage_timeout }

run_stages-Idle_example : Idle blocked (
    run_stages quality_env
      (resolve_quality_execution_policy two_retries)
      none
      (composed quality_env quality_request two_retries 0)
      blocked)
run_stages-Idle_example =
    run_stages-Idle quality_env (resolve_quality_execution_policy two_retries) none
      (composed quality_env quality_request two_retries 0) blocked (inl (stage_timeout, refl))

run_stages-dangerous_example :
    Zeroed (run_stage danger_env strict_policy none review_handoff (first_quality_run none 0))
    × Idle (run_stage danger_env strict_policy none review_handoff (first_quality_run none 0)) (
        run_stages danger_env strict_policy none
          (verify_handoff ∷ [])
          (run_stage danger_env strict_policy none review_handoff (first_quality_run none 0)))
unfolding detect_dangerous_patterns first_quality_run resolve_skip_reason to_gate_state
run_stages-dangerous_example =
    run_stages-dangerous danger_env strict_policy none review_handoff (verify_handoff ∷ [])
      (first_quality_run none 0) (record { enforced = refl; strict = refl; above = omega arith })
      refl (record { unblocked = refl; closed_circuit = refl; gates = refl }) refl refl refl

run_stage-Zeroed_example :
    Zeroed (run_stage danger_env strict_policy none review_handoff (first_quality_run none 0))
unfolding detect_dangerous_patterns first_quality_run resolve_skip_reason to_gate_state
run_stage-Zeroed_example =
    run_stage-Zeroed danger_env strict_policy none review_handoff (first_quality_run none 0) refl
      (record { unblocked = refl; closed_circuit = refl; gates = refl }) refl refl refl

detect_dangerous_patterns_lem_example :
    OneEach (detect_dangerous_patterns (λ p t. true) "drop database" (some found))
    × ((c : ReasonCode)
        → has_code c (detect_dangerous_patterns (λ p t. true) "drop database" (some found))
          ≡ occurs (λ p t. true) c (collect_signal_texts "drop database" (some found)))
detect_dangerous_patterns_lem_example =
    detect_dangerous_patterns_lem (λ p t. true) "drop database" (some found)
