-- ===== src/Repository.antt =====
-- The repositories under DVH_Library, which keep what the tasks measured.
pub mod Async
pub mod Examples
