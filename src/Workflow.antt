-- ===== src/Workflow.antt =====
-- The D3 workflow: its planning engine, its executor and its checkpoints (src/workflow).
pub mod Types
pub mod Engine
pub mod Results
pub mod Executor
pub mod Checkpoints
