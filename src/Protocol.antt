-- ===== src/Protocol.antt =====
-- packages/protocol/src: the messages' fields, pairing tickets and session authorizations.
pub mod TextSafety
pub mod Identifier
pub mod Session
pub mod Identity
pub mod Status
pub mod Messages
pub mod Pattern
pub mod Reason
pub mod Authorization
