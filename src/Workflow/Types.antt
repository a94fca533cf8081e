-- ===== src/Workflow/Types.antt =====
-- The data of the D3 workflow (src/workflow/types.ts). Times and orders are whole numbers.
use agent_p.Common.{ℕ, String, Option, List, Bool, true, Eq, decided_by, nat_eqb, arith, ◌≡◌, ◌↔◌}
use agent_p.Agents.Types.{
  AgentRole, Analysis, BuilderPlan, TesterPlan, ReviewerAssessment, VerifierAssessment, TrustInput,
}

pub data Mode : Type 0 where
  static dynamic quick : Mode

-- `Exclude<D3WorkflowMode, "dynamic">`
pub data EffectiveMode : Type 0 where
  static quick : EffectiveMode

pub data AnalysisMode : Type 0 where
  quick deep : AnalysisMode

pub data Stage : Type 0 where
  design develop deliver : Stage

pub data Phase : Type 0 where
  understand design plan implement_red build_green refactor review verify deliver : Phase

-- What the engine reads of a finite number is its sign and its whole part.
pub data Number : Type 0 where
  non_finite : Number
  negative : ℕ → Number
  positive : ℕ → Number

pub record EngineConfig : Type 0 where
  pub default_mode : Mode
  pub static_override : Bool
  pub quick_threshold : ℕ
  pub deep_file_threshold : ℕ
  pub deep_pattern_threshold : ℕ

pub record Complexity : Type 0 where
  pub file_count : ℕ
  pub pattern_count : ℕ

pub record PlanRequest : Type 0 where
  pub session_id : String
  pub query : String
  pub workflow_mode : Option Mode
  pub analysis_mode : Option AnalysisMode
  pub file_paths : Option (List String)
  pub domains : Option (List String)
  pub file_count : Option Number
  pub pattern_count : Option Number

pub record PhasePlan : Type 0 where
  pub order : ℕ
  pub stage : Stage
  pub phase : Phase
  pub agent : AgentRole
  pub objective : String

pub record Plan : Type 0 where
  pub session_id : String
  pub query : String
  pub workflow_mode : Mode
  pub effective_workflow_mode : EffectiveMode
  pub analysis_mode : AnalysisMode
  pub complexity : Complexity
  pub phases : List PhasePlan
  pub skipped_phases : List Phase

pub record WorkflowState : Type 0 where
  pub session_id : String
  pub current_phase : Phase
  pub completed_phases : List Phase
  pub remaining_phases : List Phase

pub record RuntimeContext : Type 0 where
  pub file_paths : List String
  pub domains : List String
  pub analysis : Option Analysis
  pub parent_handoff_id : Option String

pub record CacheMetadata : Type 0 where
  pub enabled : Bool
  pub hits : ℕ
  pub misses : ℕ

pub record ReindexMetadata : Type 0 where
  pub requested : Bool
  pub applied : Bool
  pub start_phase_order : Option ℕ
  pub start_phase : Option Phase

pub record RuntimeMetadata : Type 0 where
  pub cache : CacheMetadata
  pub reindex : ReindexMetadata

pub data CheckpointStatus : Type 0 where
  in_progress completed failed : CheckpointStatus

pub data PhaseStatus : Type 0 where
  completed failed : PhaseStatus

pub data Source : Type 0 where
  runtime cache reindexed : Source

-- `D3WorkflowPhaseArtifact`: the union of what the five agents return.
pub data Artifact : Type 0 where
  scouted : Analysis → Artifact
  built : BuilderPlan → Artifact
  tested : TesterPlan → Artifact
  reviewed : ReviewerAssessment → Artifact
  verified : VerifierAssessment → Artifact

-- `D3WorkflowPhaseExecutionResult`
pub record PhaseResult : Type 0 where
  pub order : ℕ
  pub stage : Stage
  pub phase : Phase
  pub agent : AgentRole
  pub status : PhaseStatus
  pub started_at : ℕ
  pub ended_at : ℕ
  pub handoff_id : String
  pub parent_handoff_id : Option String
  pub cache_hit : Option Bool
  pub source : Option Source
  pub reindex_applied : Option Bool
  pub artifact : Option Artifact
  pub error : Option String

pub record Checkpoint : Type 0 where
  pub session_id : String
  pub plan : Plan
  pub continue_on_failure : Bool
  pub next_phase_order : ℕ
  pub phases : List PhaseResult
  pub failures : List PhaseResult
  pub context : RuntimeContext
  pub runtime : RuntimeMetadata
  pub status : CheckpointStatus
  pub updated_at : ℕ

pub record ExecutionRequest : Type 0 where
  pub plan : Option Plan
  pub resume_session_id : Option String
  pub file_paths : Option (List String)
  pub domains : Option (List String)
  pub continue_on_failure : Option Bool
  pub use_cache : Option Bool
  pub reindex : Option Bool
  pub verifier_trust_input : Option TrustInput

pub record ResumeMetadata : Type 0 where
  pub resumed : Bool
  pub session_id : String
  pub next_phase_order : ℕ
  pub checkpoint_status : CheckpointStatus

pub record ExecutionResult : Type 0 where
  pub session_id : String
  pub query : String
  pub workflow_mode : Mode
  pub effective_workflow_mode : EffectiveMode
  pub analysis_mode : AnalysisMode
  pub status : PhaseStatus
  pub phases : List PhaseResult
  pub completed_phases : List Phase
  pub failures : List PhaseResult
  pub failed_phase : Option Phase
  pub resume : ResumeMetadata
  pub runtime : RuntimeMetadata

-- Equality of the enumerations, by rank.
abbrev pub mode_rank : Mode → ℕ
mode_rank Mode.static = 0
mode_rank Mode.dynamic = 1
mode_rank Mode.quick = 2

abbrev pub effective_rank : EffectiveMode → ℕ
effective_rank EffectiveMode.static = 0
effective_rank EffectiveMode.quick = 1

abbrev pub analysis_rank : AnalysisMode → ℕ
analysis_rank AnalysisMode.quick = 0
analysis_rank AnalysisMode.deep = 1

abbrev pub stage_rank : Stage → ℕ
stage_rank Stage.design = 0
stage_rank Stage.develop = 1
stage_rank Stage.deliver = 2

abbrev pub phase_rank : Phase → ℕ
phase_rank Phase.understand = 0
phase_rank Phase.design = 1
phase_rank Phase.plan = 2
phase_rank Phase.implement_red = 3
phase_rank Phase.build_green = 4
phase_rank Phase.refactor = 5
phase_rank Phase.review = 6
phase_rank Phase.verify = 7
phase_rank Phase.deliver = 8

pub mode_eqb_iff : (a b : Mode) → (nat_eqb (mode_rank a) (mode_rank b) ≡ true) ↔ (a ≡ b)
mode_eqb_iff a b = ground arith

pub effective_eqb_iff :
    (a b : EffectiveMode) → (nat_eqb (effective_rank a) (effective_rank b) ≡ true) ↔ (a ≡ b)
effective_eqb_iff a b = ground arith

pub analysis_eqb_iff :
    (a b : AnalysisMode) → (nat_eqb (analysis_rank a) (analysis_rank b) ≡ true) ↔ (a ≡ b)
analysis_eqb_iff a b = ground arith

pub stage_eqb_iff : (a b : Stage) → (nat_eqb (stage_rank a) (stage_rank b) ≡ true) ↔ (a ≡ b)
stage_eqb_iff a b = ground arith

pub phase_eqb_iff : (a b : Phase) → (nat_eqb (phase_rank a) (phase_rank b) ≡ true) ↔ (a ≡ b)
phase_eqb_iff a b = ground arith

instance abbrev pub mode_eq : Eq Mode
mode_eq = decided_by (λ a b. nat_eqb (mode_rank a) (mode_rank b)) mode_eqb_iff

instance abbrev pub effective_eq : Eq EffectiveMode
effective_eq = decided_by (λ a b. nat_eqb (effective_rank a) (effective_rank b)) effective_eqb_iff

instance abbrev pub analysis_eq : Eq AnalysisMode
analysis_eq = decided_by (λ a b. nat_eqb (analysis_rank a) (analysis_rank b)) analysis_eqb_iff

instance abbrev pub stage_eq : Eq Stage
stage_eq = decided_by (λ a b. nat_eqb (stage_rank a) (stage_rank b)) stage_eqb_iff

instance abbrev pub phase_eq : Eq Phase
phase_eq = decided_by (λ a b. nat_eqb (phase_rank a) (phase_rank b)) phase_eqb_iff
