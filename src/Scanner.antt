-- ===== src/Scanner.antt =====
-- The grave-scanner program, programs/grave-scanner/src: which pools may be settled.
pub mod State
pub mod Errors
pub mod Constants
pub mod Criteria
pub mod Config
pub mod Adapters
pub mod Attestation
pub mod Pools
mod Fixtures
mod EvidenceTests
mod SignedTests
mod Tests
