-- ===== src/Workflow/Engine.antt =====
-- The planning engine (src/workflow/engine.ts): it resolves a request to a plan, and guards the
-- transitions from phase to phase. What it throws is the `err` of a `Result`.
mod Patterns
pub mod Plans
pub mod Transitions
use agent_p.Common.{
  ℕ, suc, ◌+◌, String, Option, none, some, Bool, true, false, not, ◌&&◌, ◌||◌, List, [], ◌∷◌, ◌++◌,
  map, if◌then◌else◌, ltb, leb, or_else, ◌==◌, keep_if, includes, length, Result, ok, err,
}
use Prim.Native.String.{◌++◌ as str_append}
use agent_p.Agents.Types.{AgentRole, scout, builder, tester, reviewer, verifier}
use agent_p.Workflow.Types.{
  Mode, EffectiveMode, AnalysisMode, Stage, Phase, Number, non_finite, negative, positive,
  EngineConfig, Complexity, PlanRequest, PhasePlan, Plan, WorkflowState, phase_eq,
}
use agent_p.Workflow.Types.Phase.{
  understand, design, plan, implement_red, build_green, refactor, review, verify, deliver,
}
use Patterns.{collect_pattern_count}

-- `Partial<D3WorkflowEngineConfig>`, the argument of the constructor.
pub record EngineOptions : Type 0 where
  pub default_mode : Option Mode
  pub static_override : Option Bool
  pub quick_threshold : Option ℕ
  pub deep_file_threshold : Option ℕ
  pub deep_pattern_threshold : Option ℕ

abbrev pub default_engine_config : EngineConfig
default_engine_config = record {
  default_mode = Mode.dynamic;
  static_override = true;
  quick_threshold = 3;
  deep_file_threshold = 15;
  deep_pattern_threshold = 4;
}

unfoldable pub new_engine : EngineOptions → EngineConfig
new_engine o = record {
  default_mode = or_else o.default_mode default_engine_config.default_mode;
  static_override = or_else o.static_override default_engine_config.static_override;
  quick_threshold = or_else o.quick_threshold default_engine_config.quick_threshold;
  deep_file_threshold = or_else o.deep_file_threshold default_engine_config.deep_file_threshold;
  deep_pattern_threshold =
      or_else o.deep_pattern_threshold default_engine_config.deep_pattern_threshold;
}

-- `PHASE_METADATA`, by field.
unfoldable pub phase_stage : Phase → Stage
phase_stage understand = Stage.design
phase_stage design = Stage.design
phase_stage plan = Stage.design
phase_stage implement_red = Stage.develop
phase_stage build_green = Stage.develop
phase_stage refactor = Stage.develop
phase_stage review = Stage.deliver
phase_stage verify = Stage.deliver
phase_stage deliver = Stage.deliver

unfoldable pub phase_agent : Phase → AgentRole
phase_agent understand = scout
phase_agent design = scout
phase_agent plan = scout
phase_agent implement_red = tester
phase_agent build_green = builder
phase_agent refactor = builder
phase_agent review = reviewer
phase_agent verify = verifier
phase_agent deliver = verifier

unfoldable pub phase_objective : Phase → String
phase_objective understand = "Gather context and constraints"
phase_objective design = "Define architecture and interfaces"
phase_objective plan = "Break work into implementable tasks"
phase_objective implement_red = "Write failing tests first (RED)"
phase_objective build_green = "Implement minimal code to pass tests (GREEN)"
phase_objective refactor = "Refactor for readability and maintainability"
phase_objective review = "Run multi-perspective review panel"
phase_objective verify = "Execute end-to-end verification"
phase_objective deliver = "Produce release-ready deliverables"

unfoldable pub phase_plan : ℕ → Phase → PhasePlan
unfolding phase_stage phase_agent phase_objective
phase_plan n phase = record {
  order = n;
  stage = phase_stage phase;
  phase = phase;
  agent = phase_agent phase;
  objective = phase_objective phase;
}

abbrev pub static_phases : List Phase
static_phases =
    understand ∷ design ∷ plan ∷ implement_red ∷ build_green ∷ refactor ∷ review ∷ verify ∷ deliver
    ∷ []

abbrev pub quick_phases : List Phase
quick_phases = understand ∷ plan ∷ implement_red ∷ build_green ∷ verify ∷ deliver ∷ []

unfoldable pub clamp_non_negative_int : Number → ℕ
clamp_non_negative_int non_finite = 0
clamp_non_negative_int (negative n) = 0
clamp_non_negative_int (positive n) = n

unfoldable pub resolve_complexity : PlanRequest → Complexity
unfolding clamp_non_negative_int
resolve_complexity r = record {
  file_count =
      clamp_non_negative_int (or_else r.file_count (positive (length (or_else r.file_paths []))));
  pattern_count =
      clamp_non_negative_int (or_else r.pattern_count (positive (collect_pattern_count r.query)));
}

is_static : Option Mode → Bool
is_static (some Mode.static) = true
is_static _ = false

unfoldable pub resolve_workflow_mode : EngineConfig → Option Mode → Mode
unfolding is_static
resolve_workflow_mode c mode =
    if is_static mode && not c.static_override then c.default_mode else or_else mode c.default_mode

unfoldable pub resolve_effective_workflow_mode : EngineConfig → Mode → Complexity → EffectiveMode
resolve_effective_workflow_mode c Mode.static k = EffectiveMode.static
resolve_effective_workflow_mode c Mode.quick k = EffectiveMode.quick
resolve_effective_workflow_mode c Mode.dynamic k =
    if ltb k.file_count c.quick_threshold && ltb k.pattern_count c.quick_threshold
    then EffectiveMode.quick
    else EffectiveMode.static

unfoldable pub resolve_analysis_mode : EngineConfig → Complexity → AnalysisMode
resolve_analysis_mode c k =
    if leb c.deep_file_threshold k.file_count || leb c.deep_pattern_threshold k.pattern_count
    then AnalysisMode.deep
    else AnalysisMode.quick

unfoldable pub resolve_phases : EffectiveMode → List Phase
resolve_phases EffectiveMode.quick = quick_phases
resolve_phases EffectiveMode.static = static_phases

-- `phases.map((phase, index) => …)`, from the order `n` on.
unfoldable pub number_phases : ℕ → List Phase → List PhasePlan
unfolding phase_plan
number_phases n [] = []
number_phases n (p ∷ ps) = phase_plan n p ∷ number_phases (suc n) ps

unfoldable pub make_plan : EngineConfig → PlanRequest → Plan
unfolding resolve_complexity resolve_workflow_mode resolve_effective_workflow_mode
    resolve_analysis_mode resolve_phases number_phases
make_plan c r =
    let complexity = resolve_complexity r in
    let mode = resolve_workflow_mode c r.workflow_mode in
    let effective = resolve_effective_workflow_mode c mode complexity in
    let phases = resolve_phases effective in
    record {
      session_id = r.session_id;
      query = r.query;
      workflow_mode = mode;
      effective_workflow_mode = effective;
      analysis_mode = or_else r.analysis_mode (resolve_analysis_mode c complexity);
      complexity = complexity;
      phases = number_phases 1 phases;
      skipped_phases = keep_if (λ p. not (includes phases p)) static_phases;
    }

abbrev pub phase_names : List PhasePlan → List Phase
phase_names [] = []
phase_names (p ∷ ps) = p.phase ∷ phase_names ps

start : String → List Phase → Result WorkflowState
start session [] = err "Workflow plan has no executable phases"
start session (first ∷ rest) = ok (record {
  session_id = session;
  current_phase = first;
  completed_phases = [];
  remaining_phases = rest;
})

unfoldable pub initial_state : Plan → Result WorkflowState
unfolding start
initial_state p = start p.session_id (phase_names p.phases)

unfoldable pub phase_text : Phase → String
phase_text understand = "understand"
phase_text design = "design"
phase_text plan = "plan"
phase_text implement_red = "implement-red"
phase_text build_green = "build-green"
phase_text refactor = "refactor"
phase_text review = "review"
phase_text verify = "verify"
phase_text deliver = "deliver"

transition_error : Phase → Phase → String
unfolding phase_text
transition_error from to =
    str_append "Invalid phase transition from '"
      (str_append (phase_text from) (str_append "' to '" (str_append (phase_text to) "'")))

advance : WorkflowState → Phase → List Phase → Result WorkflowState
advance s target [] = err "Workflow is already complete"
advance s target (next ∷ remaining) =
    if target == next
    then ok (record s {
      current_phase = target;
      completed_phases = s.completed_phases ++ s.current_phase ∷ [];
      remaining_phases = remaining;
    })
    else err (transition_error s.current_phase target)

unfoldable pub advance_state : WorkflowState → Phase → Result WorkflowState
unfolding advance transition_error
advance_state s target = advance s target s.remaining_phases
