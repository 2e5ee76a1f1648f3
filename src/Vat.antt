-- ===== src/Vat.antt =====
-- The sequence engine under DVH_Library: contexts, tasks, sequences and their runner.
pub mod Context
pub mod World
pub mod Task
pub mod Access
pub mod Outcomes
pub mod Polling
pub mod Travel
pub mod Readings
pub mod Sequence
pub mod Runner
pub mod Examples
