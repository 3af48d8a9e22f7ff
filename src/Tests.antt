-- ===== src/Tests.antt =====
-- Concrete inputs, runs of the services on them, and the theorems at them.
mod Fixtures
mod Cycles
mod Histories
mod Documents
mod Budget
mod Reforecast
mod Access
mod Auth
