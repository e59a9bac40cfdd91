-- ===== src/Snapshotter.antt =====
-- The grave-snapshotter crate, snapshotter/src: the off-chain producer of the Merkle root and the
-- claim proofs that the vault verifies.
pub mod Model
pub mod Balances
pub mod Builder
pub mod Locked
pub mod Artifact
pub mod Tree
mod BuilderTests
mod Tests
