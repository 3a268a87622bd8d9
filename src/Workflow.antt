-- ===== src/Workflow.antt =====
-- internal/domain/workflows: the definitions, the runs and the state machine of workflows.
pub mod Model
pub mod Graph
pub mod Normalize
pub mod Validation
pub mod State
pub mod Verdict
pub mod Lifecycle
pub mod Loop
pub mod Protocol
