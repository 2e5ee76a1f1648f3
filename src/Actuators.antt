-- ===== src/Actuators.antt =====
-- The inputs and outputs of the machine, and the operator's switches, under Equipment2015/Actuators.
pub mod Dio
pub mod Io
pub mod Timer
pub mod Switch
pub mod Cylinder
pub mod Examples
