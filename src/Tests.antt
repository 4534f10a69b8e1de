-- ===== src/Tests.antt =====
-- Concrete inputs: the data that they share, tests of single functions, and an instance of each
-- theorem.
pub mod Data
pub mod Units
pub mod Sessions
pub mod Consent
pub mod Limits
pub mod Agent
