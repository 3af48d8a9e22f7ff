-- ===== src/Cycle.antt =====
-- The budget cycle of a bank: every call that writes a version, a centre's status or the snapshot, in
-- any order (referentiels/version/version-workflow.service.ts and version.service.ts,
-- budget/cr-workflow/cr-workflow.service.ts); in Publication also the launches of reforecasts
-- (reforecast/reforecast.service.ts).
pub mod Graph
pub mod VersionWrites
pub mod CrWrites
pub mod Requests
pub mod Life
pub mod Publication
pub mod StatutGraph
pub mod StatutWrites
pub mod SnapshotGraph
pub mod Untouched
pub mod PreValidation
pub mod Reopening
pub mod Coherence
pub mod LateSnapshot
