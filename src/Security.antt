-- ===== src/Security.antt =====
-- common/src/security: the authentication footer of both protocols, the keyed tags, and the
-- authentication state of the discovery protocol.
pub mod Footer
pub mod Crypto
pub mod DiscoveryAuth
