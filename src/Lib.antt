-- ===== src/Lib.antt =====
-- Verification of the core of agent-p: the D3 workflow with its checkpoint files (src/workflow), the
-- expert orchestrator with its quality path (src/agents), the policy engine and audit log of the
-- hooks (src/hooks), the skills (src/skills), and the check of SQL statements (src/db).
--
-- The program's parts. A workflow engine lays out the phases of a task as a plan and moves a state
-- through them. An executor runs a plan phase by phase: for each phase it writes a handoff, calls the
-- agent of the phase, keeps the result, updates the context for the next phases and saves a
-- checkpoint, from which a later run may start. The expert orchestrator writes the handoffs, and runs
-- a quality path of tester, reviewer and verifier with gates, retries, a rate limit and a circuit
-- breaker. The checkpoint store keeps a file for each session and an index by which a plan finds
-- the checkpoint of an equal plan. Before and after a tool is used, and before a session stops, hooks
-- ask the policy engine for a decision and log it. A SQL statement is checked before it runs.
-- Skills are registered from a manifest that is validated, and suggested for a query.
--
-- The files, and the code that they model:
--   Common                      what the modules share: tests, lists, stable sorting, decimal text
--   Agents/Types                the types of src/agents/types.ts
--   Agents/Handoffs             createHandoff, its five callers and composeQualityPath of
--                               src/agents/expert.ts; theorems in Handoffs/Path
--   Agents/Dangerous            src/agents/dangerous-patterns.ts; theorems in Dangerous/Matches
--   Agents/Quality              executeQualityPath of src/agents/expert.ts: its policy in
--                               Quality/Policy, its variables in Quality/State, one attempt at a stage
--                               in Quality/Attempts; theorems in Attempts/Settling,
--                               Quality/Steps, Quality/Path,
--                               Quality/Halts and Quality/Danger
--   Workflow/Types              the types of src/workflow/types.ts
--   Workflow/Engine             D3WorkflowEngine of src/workflow/engine.ts; theorems in Engine/Plans and
--                               Engine/Transitions
--   Workflow/Results            the helpers on results at the top of src/workflow/executor.ts; theorems
--                               in Results/Ordering and Results/Progress
--   Workflow/Executor/Env       what the executor calls outside, createPhaseHandoff and executePhase
--   Workflow/Executor/Context   updateContextFromArtifact and rebuildContextFromPhaseArtifacts
--   Workflow/Executor/State     the variables of executeInternal, its counters, saveCheckpoint
--   Workflow/Executor/Loop      the loop of executeInternal; theorems in the folder Loop
--   Workflow/Executor/Reuse     isReusableCheckpoint, resolveReusableCheckpoint, applyReindexPolicy and
--                               selectCrossSessionPlanningPhases; theorems in the folder Reuse
--   Workflow/Executor/Execute   execute, resumeFromCheckpoint and the frame of executeInternal; theorems
--                               in the folder Execute
--   Workflow/Checkpoints        FileD3WorkflowCheckpointStore of src/workflow/checkpoint-store.ts: its
--                               file names and cache keys in Checkpoints/Names, its index in
--                               Checkpoints/Index, and what the schema of src/workflow/types.ts
--                               trims in Checkpoints/Schema; theorems in Index/Bounds, Checkpoints/RoundTrip,
--                               Reuse/Found, Reuse/Fresh and, with the executor, Checkpoints/Runs
--   Hooks/Types, Hooks/Json     the types of src/hooks/types.ts and the values of src/hooks/audit.ts
--   Hooks/Policy                HookPolicyEngine of src/hooks/policy.ts: its configuration in
--                               Policy/Config, tool use before the fact in Policy itself, responses,
--                               stops and notifications in Policy/Responses; theorems in
--                               Policy/Permission and Responses/Blocks
--   Hooks/Audit                 HookAuditLogger over InMemoryHookAuditSink of src/hooks/audit.ts; theorems
--                               in Audit/Redaction
--   Hooks/Calls                 what the execute methods of the hooks share; lemmas in Calls/Checked
--   Hooks/PreToolUse, Hooks/PostToolUse, Hooks/Stop, Hooks/Notification
--                               the hooks of src/hooks/pre-tool-use.ts, post-tool-use.ts, stop.ts and
--                               notification.ts; theorems in PreToolUse/Outcome
--   Skills/Types                the types of src/skills/schema.ts
--   Skills/Validator            src/skills/validator.ts; theorems in Validator/Soundness
--   Skills/Registry             src/skills/registry.ts; lemmas in Registry/Entries
--   Skills/Matching, Skills/Activation
--                               src/skills/activation.ts, its matching of triggers and its suggestions;
--                               theorems in Activation/Suggested, lemmas in
--                               Matching/Words and Activation/Reasons
--   Database/SqlSafety          src/db/sql-safety.ts; theorems in SqlSafety/Quotes and
--                               SqlSafety/Statements
--   Database/Manager            src/db/database-manager.ts; theorems in Manager/Guarded
--   Database/Migrations         src/db/migration-runner.ts; theorems in Migrations/Runs, lemmas in
--                               Migrations/Fates
--   Examples                    concrete inputs, at which the theorems are applied
--
-- How code becomes definitions. A method that reads or changes something outside takes the world and
-- returns it with its answer; one that may throw returns a Result, with the message of the error. A
-- round of the executor's loop goes on, leaves the loop or throws, and carries the variables of the
-- loop in each case, since what was assigned before an exception stays. A method's optional fields
-- are options, and a promise that is awaited is its answer.
--
-- Parameters. The agents, the checkpoint store, the clock, the SHA-1 digest of a handoff id, the
-- check of a handoff by its schema, the regular-expression engine and the race of an agent's call
-- with its timer are fields of records over an arbitrary world. The file system below the workflow
-- root, the printing and parsing of checkpoints and index, the trimming of a text and the checks
-- that the schema of a checkpoint makes besides it are fields of Disk; the hypothesis WritesFiles
-- says that a file that was written has its text and that the other files keep theirs, and IsLawful
-- also that JSON that is printed is parsed again. The hooks take lower-casing, trimming, the pattern
-- of sensitive keys, the printing of JSON, the checks of the schemas of what they are given, log and
-- give back, and, but for the hook before tool use and the audit log, what these schemas make of it.
-- The skills take the normalization of Unicode with the removal of ANSI codes, lower-casing,
-- trimming and the order of ids in a locale. The hypothesis SavesAlways says that saving a
-- checkpoint does not throw, as when no store is configured; SavesFailed says that it does not throw
-- for a checkpoint without a completed result of a phase, and RefusesDone that it throws for one
-- with such a result, as where the schema refuses the result. The database manager takes the
-- creation of the directory, the opening of a database and the two drivers; the migrations take the
-- files and their contents, SHA-256 and the methods of the database.
--
-- Numbers. Times, orders and counters are whole numbers. A score or a threshold is a finite number
-- from 0 up, as a multiple of 2 ^ -1074. The numbers of a quality policy are finite; a number that
-- the engine reads is not finite, negative or not, with its whole part. Loops run over lists or over
-- the retries that are left, so that no fuel is needed; the decimal text of a number takes the
-- number as its fuel, which is enough since a number has at most as many digits as its value and one
-- more.
--
-- Not modelled: the zod schemas, but for what those of a checkpoint, of an audit event and of the
-- hook before a tool use trim and complete, the bodies of the five subagents, what an agent still
-- does after its call timed out, the hook at the start of a session, the audit log in a file,
-- memory, search, the loader of skills, container, configuration, telemetry, evaluations and the
-- command line.
pub mod Common
pub mod Agents
pub mod Workflow
pub mod Hooks
pub mod Skills
pub mod Database
pub mod Examples
