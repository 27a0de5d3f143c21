-- ===== src/L2Handler/Master.antt =====
-- master/src/l2_handler.rs: the threads that exchange cyclic data with the slaves.
pub mod Controller
pub mod Receive
pub mod Send
pub mod Start
