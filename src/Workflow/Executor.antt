-- ===== src/Workflow/Executor.antt =====
-- The executor of a workflow (`D3WorkflowExecutor`, src/workflow/executor.ts), in parts: what it has
-- from outside, the context of a run, the state and the rounds of the loop over the phases, the
-- reuse of checkpoints, and `execute` itself.
pub mod Env
pub mod Context
pub mod State
pub mod Loop
pub mod Reuse
pub mod Execute
