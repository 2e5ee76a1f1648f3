-- ===== src/Vision.antt =====
-- The communication library under VisionCom.
pub mod Framer
pub mod Framing
pub mod Stream
pub mod Bytes
pub mod Packet
pub mod Dispatcher
pub mod Link
pub mod Delivery
pub mod Wiring
pub mod Client
pub mod Sending
pub mod Scheduler
pub mod Examples
