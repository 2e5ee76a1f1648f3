-- ===== src/Vat/Examples.antt =====
-- Concrete runs of DVH_Library/src/AsyncSequenceRunner.cpp.
pub mod Runs
