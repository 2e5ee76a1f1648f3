-- ===== src/Processor.antt =====
-- The vision processors, which ask the vision computer and keep its answers for the tasks.
pub mod Store
pub mod Layout
pub mod Slt
pub mod Memory
pub mod Examples
