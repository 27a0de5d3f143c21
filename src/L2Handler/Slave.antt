-- ===== src/L2Handler/Slave.antt =====
-- slave/src/l2_handler.rs: the threads that exchange cyclic data with the master.
pub mod Device
pub mod Receive
pub mod Send
pub mod Start
