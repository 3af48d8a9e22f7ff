-- ===== src/CrWorkflow.antt =====
-- budget/cr-workflow/cr-workflow.service.ts: the validation of a version centre by centre.
pub mod Helpers
pub mod Transitions
pub mod Comite
pub mod Snapshot
