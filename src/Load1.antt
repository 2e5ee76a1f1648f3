-- ===== src/Load1.antt =====
-- The tasks of the first loader, Equipment2015/DVH_VAT/Load1/Tasks.
pub mod MoveToStart
pub mod FovScanning
pub mod FocusScanning
pub mod FindAlign
pub mod Backlash
pub mod PcdScanning
pub mod HandPitch
pub mod PickerFov
pub mod PcdSequence
pub mod Calibration
pub mod Examples
