-- ===== src/Traversal.antt =====
-- internal/nat: the messages with which two nodes behind address translators find each other.
pub mod Relay
pub mod Stun
