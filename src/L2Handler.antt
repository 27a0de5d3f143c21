-- ===== src/L2Handler.antt =====
-- The cyclic data threads of both sides: slave/src/l2_handler.rs and master/src/l2_handler.rs.
pub mod Counter
pub mod Timing
pub mod Accepted
pub mod Slave
pub mod Master
pub mod Link
pub mod Delivery
