-- ===== src/Workflow/Checkpoints/Names.antt =====
-- File names and cache keys: `toCheckpointFileName`, `toPlanPhaseSignature` and what
-- `toPlanningArtifactCacheKey` puts in its key (src/workflow/checkpoint-store.ts).
use Prim.Native.Char.{code}
use Prim.Native.String.{String, ◌++◌ as str_append}
use agent_p.Common.{ℕ, Bool, ◌||◌, ◌&&◌, List, [], ◌∷◌, leb, ltb, nat_eqb, if◌then◌else◌}
use agent_p.Common.Text.{show}
use agent_p.Workflow.Types.{
  Mode, EffectiveMode, AnalysisMode, Stage, Phase, Complexity, PhasePlan, Plan,
}
use agent_p.Workflow.Engine.{phase_text}

is_safe_char : ℕ → Bool
is_safe_char c =
    (leb b'A' c && leb c b'Z')
    || (leb b'a' c && leb c b'z')
    || (leb b'0' c && leb c b'9')
    || nat_eqb c b'_'
    || nat_eqb c b'-'

-- A character beyond the basic plane is two code units, each of which is replaced.
safe_session : String → String
unfolding is_safe_char
safe_session String.[] = ""
safe_session (String.◌∷◌ c s) =
    let rest = safe_session s in
    if is_safe_char (code c)
    then String.◌∷◌ c rest
    else if ltb (code c) 0x10000
    then str_append "_" rest
    else str_append "__" rest

unfoldable pub to_checkpoint_file_name : String → String
unfolding safe_session
to_checkpoint_file_name session = str_append (safe_session session) ".json"

stage_text : Stage → String
stage_text Stage.design = "design"
stage_text Stage.develop = "develop"
stage_text Stage.deliver = "deliver"

join_phases : List PhasePlan → String
unfolding stage_text
join_phases [] = ""
join_phases (p ∷ []) =
    str_append (show p.order)
      (str_append ":" (str_append (phase_text p.phase) (str_append ":" (stage_text p.stage))))
join_phases (p ∷ q ∷ ps) = str_append (show p.order) (
    str_append ":" (
      str_append (phase_text p.phase)
        (str_append ":" (str_append (stage_text p.stage) (str_append "|" (join_phases (q ∷ ps)))))))

unfoldable pub to_plan_phase_signature : Plan → String
unfolding join_phases
to_plan_phase_signature plan = join_phases plan.phases

-- The object that is printed as the cache key.
pub record CacheKeyParts : Type 0 where
  pub query : String
  pub workflow_mode : Mode
  pub effective_workflow_mode : EffectiveMode
  pub analysis_mode : AnalysisMode
  pub complexity : Complexity
  pub phase_signature : String
  pub skipped_phases : List Phase

unfoldable pub cache_key_parts : Plan → CacheKeyParts
unfolding to_plan_phase_signature
cache_key_parts plan = record {
  query = plan.query;
  workflow_mode = plan.workflow_mode;
  effective_workflow_mode = plan.effective_workflow_mode;
  analysis_mode = plan.analysis_mode;
  complexity = plan.complexity;
  phase_signature = to_plan_phase_signature plan;
  skipped_phases = plan.skipped_phases;
}
