-- ===== src/L2.antt =====
-- common/src/l2_types.rs and l2_utils.rs: the cyclic data protocol.
pub mod Header
pub mod Frame
pub mod Gcd
pub mod Cycle
pub mod Metrics
