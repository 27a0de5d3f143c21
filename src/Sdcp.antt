-- ===== src/Sdcp.antt =====
-- common/src/discovery_types.rs: the messages of the discovery protocol, SDCP.
pub mod Header
pub mod Tlv
pub mod Payload
