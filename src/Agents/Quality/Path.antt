-- ===== src/Agents/Quality/Path.antt =====
-- The result of a quality path as a whole: `execute_quality_path`.
use agent_p.Common.{ℕ, ◌≡◌, refl, ap, ◌∙◌, suc, some, List, [], ◌∷◌, map, All, Result, ok, err}
use agent_p.Agents.Types.{Handoff}
use agent_p.Agents.Handoffs.{compose_quality_path}
use agent_p.Agents.Quality.Types.{
  ResolvedPolicy, QualityStep, QualityPolicy, QualityRequest, QualityResult,
}
use agent_p.Agents.Quality.Policy.{resolve_quality_execution_policy}
use agent_p.Agents.Quality.Attempts.{QualityEnv}
use agent_p.Agents.Quality.{
  run_stages, validate_all, first_quality_run, run_validated, quality_result, execute_quality_path,
}
use agent_p.Agents.Quality.Attempts.Settling.{Tried}
use agent_p.Agents.Quality.Steps.{run_stages-AddsAll}

-- The handoffs that the quality path of a request starts from.
abbrev pub composed :
    {World : Type 0} → QualityEnv World → QualityRequest → QualityPolicy → World → List Handoff
composed env r policy w =
    let p = resolve_quality_execution_policy policy in
    (compose_quality_path env.office r.planning (some p.include_tester) (some p.include_reviewer)
      (some p.include_verifier) w).0

-- A result with one step for each handoff, in order, each step with at most `n` attempts.
pub record Covers (n : ℕ) (hs : List Handoff) (res : QualityResult) : Type 0 where
  pub handoffs : res.handoffs ≡ hs
  pub steps : map (λ (q : QualityStep). q.handoff) res.steps ≡ hs
  pub tried : All (Tried n) res.steps

validate_all_same :
    (validate : Handoff → Result Handoff) (hs : List Handoff)
    → All (λ h. validate h ≡ ok h) hs
    → validate_all validate hs ≡ ok hs
unfolding validate_all
validate_all_same validate [] e = refl
validate_all_same validate (h ∷ hs) (e, es) =
    rw (e, validate_all) (rw (validate_all_same validate hs es) refl)

module _ {World : Type 0} (env : QualityEnv World) where
  run_validated-Covers :
      (r : QualityRequest) (p : ResolvedPolicy) (hs : List Handoff) (v : Result (List Handoff))
      (w : World)
      → v ≡ ok hs
      → (res : QualityResult) × ((run_validated env r p v w).0 ≡ ok res)
        × Covers (suc p.max_stage_retries) hs res
  unfolding run_validated quality_result first_quality_run
  run_validated-Covers r p hs (ok hs') w e =
      let same : hs' ≡ hs = cc in
      let adds =
        run_stages-AddsAll env p r.verifier_trust_input hs' (first_quality_run r.gate_input w) in
      (
        quality_result env p hs'
            (run_stages env p r.verifier_trust_input hs' (first_quality_run r.gate_input w)),
        refl,
        record {
          handoffs = same;
          steps = ap (map (λ (q : QualityStep). q.handoff)) adds.added ∙ adds.of ∙ same;
          tried = rw adds.added adds.tried;
        },
      )
  run_validated-Covers r p hs (err m) w e = cc

  -- Where every composed handoff passes validation unchanged, the quality path returns a result: it
  -- has these handoffs, exactly one step for each of them in the same order, and no step records
  -- more attempts than one more than the policy's retries.
  pub execute_quality_path-returns :
      (r : QualityRequest) (policy : QualityPolicy) (w : World)
      → All (λ h. env.validate h ≡ ok h) (composed env r policy w)
      → (res : QualityResult) × ((execute_quality_path env r policy w).0 ≡ ok res)
        × Covers
            (suc (resolve_quality_execution_policy policy).max_stage_retries)
            (composed env r policy w)
            res
  unfolding execute_quality_path
  execute_quality_path-returns r policy w valid =
      run_validated-Covers r (resolve_quality_execution_policy policy) (composed env r policy w) _ _
        (validate_all_same env.validate (composed env r policy w) valid)
