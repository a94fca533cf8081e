-- ===== src/Examples.antt =====
-- Concrete inputs for the workflow (src/workflow) and the quality path (src/agents/expert.ts): a plan
-- of the engine, agents over a clock that counts, and a builder that always fails.
mod Workflow
mod Agents
mod Quality
mod Checkpoints
mod Hooks
mod Database
mod Skills
use agent_p.Common.{
  if◌then◌else◌, ℕ, suc, ◌*◌, String, Option, none, some, Bool, true, false, List, [], ◌∷◌, Result,
  ok, err,
}
use agent_p.Workflow.Results.{result_at, completed_result}
use agent_p.Agents.Types.{
  Analysis, BuilderPlan, TesterPlan, ReviewerAssessment, VerifierAssessment, GateDecision,
  PlanningRequest, expert, reviewer, verifier, scout, builder, Handoff, HandoffPriority,
}
use agent_p.Agents.Handoffs.{Office}
use agent_p.Agents.Quality.Types.{QualityPolicy, QualityRequest, ResolvedPolicy, one}
use agent_p.Agents.Quality.Policy.{whole}
use agent_p.Agents.Quality.Attempts.{QualityEnv, resolved, rejected, timed_out}
use agent_p.Workflow.Types.{
  Mode, Stage, Phase, PhasePlan, Plan, PlanRequest, RuntimeContext, RuntimeMetadata, PhaseResult,
  PhaseStatus, Checkpoint, CheckpointStatus,
}
use agent_p.Workflow.Engine.{default_engine_config, make_plan}
use agent_p.Workflow.Executor.Env.{Env}
use agent_p.Workflow.Executor.State.{Job, Run}
use agent_p.Workflow.Executor.Execute.{Start}

abbrev pub request : PlanRequest
request = record {
  session_id = "session-1";
  query = "add a login page and test it";
  workflow_mode = none;
  analysis_mode = none;
  file_paths = some ("src/login.ts" ∷ []);
  domains = none;
  file_count = none;
  pattern_count = none;
}

abbrev pub ticks : Office ℕ
ticks = record {
  now = λ w. (w, suc w);
  handoff_id_of = λ to session query time attempt. "h-sample-1";
}

abbrev pub found : Analysis
found = record {
  summary = "login";
  relevant_files = "src/login.ts" ∷ [];
  ranked_files = [];
  domains = [];
  notes = [];
  risks = [];
}

abbrev pub tests : TesterPlan
tests = record { summary = "tests"; commands = []; expected_checks = []; failure_handling = [] }

abbrev pub review : ReviewerAssessment
review = record { summary = "review"; findings = [] }

abbrev pub verdict : VerifierAssessment
verdict = record {
  summary = "verdict";
  trust_score = one;
  threshold = one;
  gate_decision = GateDecision.pass;
  checks = [];
  blockers = [];
  reason_codes = none;
}

-- No store is configured, so that saving does nothing.
abbrev pub env : Env ℕ
env = record {
  clock = λ w. (w, suc w);
  office = ticks;
  validate = λ h. ok h;
  scout_analyze = λ h w. (ok found, suc w);
  builder_plan = λ h w. (err "no builder", suc w);
  tester_plan = λ h w. (ok tests, suc w);
  reviewer_assess = λ h w. (ok review, suc w);
  verifier_assess = λ h trust w. (ok verdict, suc w);
  store = none;
}

abbrev pub understand_it : PhasePlan
understand_it = record {
  order = 1;
  stage = Stage.design;
  phase = Phase.understand;
  agent = scout;
  objective = "Understand";
}

abbrev pub build_it : PhasePlan
build_it = record {
  order = 2;
  stage = Stage.develop;
  phase = Phase.build_green;
  agent = builder;
  objective = "Build";
}

abbrev pub two_phases : Plan
two_phases = record (make_plan default_engine_config request) {
  phases = understand_it ∷ build_it ∷ [];
}

abbrev pub job : Job
job = record { plan = two_phases; continue_on_failure = false; trust_input = none }

abbrev pub no_context : RuntimeContext
no_context = record { file_paths = []; domains = []; analysis = none; parent_handoff_id = none }

-- A reindex is asked for from the order 2 on.
abbrev pub from_two : RuntimeMetadata
from_two = record {
  cache = record { enabled = true; hits = 0; misses = 0 };
  reindex = record {
    requested = true;
    applied = false;
    start_phase_order = some 2;
    start_phase = some Phase.build_green;
  };
}

abbrev pub fresh : Run ℕ
fresh = record { results = []; context = no_context; runtime = from_two; world = 0 }

-- A completed result of the phase `p`.
abbrev pub result_of : PhasePlan → PhaseResult
result_of p = record {
  order = p.order;
  stage = p.stage;
  phase = p.phase;
  agent = p.agent;
  status = PhaseStatus.completed;
  started_at = 0;
  ended_at = 1;
  handoff_id = "h-sample-0";
  parent_handoff_id = none;
  cache_hit = none;
  source = none;
  reindex_applied = none;
  artifact = none;
  error = none;
}

abbrev pub both_results : List PhaseResult
both_results = result_of understand_it ∷ result_of build_it ∷ []

-- A checkpoint of another session with both phases done.
abbrev pub checkpoint : Checkpoint
checkpoint = record {
  session_id = "session-0";
  plan = two_phases;
  continue_on_failure = false;
  next_phase_order = 3;
  phases = both_results;
  failures = [];
  context = no_context;
  runtime = from_two;
  status = CheckpointStatus.completed;
  updated_at = 7;
}

abbrev pub start : Start
start = record { results = []; context = no_context; runtime = from_two }

-- A store whose `save` refuses a checkpoint in which the first phase is completed.
abbrev pub unsaved_env : Env ℕ
unsaved_env = record env {
  store = some (record {
    load = λ session w. (ok none, w);
    load_reusable = none;
    save = λ c w.
        (if completed_result (result_at 1 c.phases) then err "artifact refused" else ok tt, suc w);
  });
}
