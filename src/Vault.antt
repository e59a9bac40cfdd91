-- ===== src/Vault.antt =====
-- The grave-vault program, programs/grave-vault/src: settlement of a certified pool, the claims
-- of its LP holders, and the recovery of retained memecoin.
pub mod Errors
pub mod Constants
pub mod State
pub mod Config
pub mod Merkle
pub mod Claim
pub mod Cpi
pub mod Proceeds
pub mod Salvage
pub mod Dust
pub mod Lifecycle
mod Tests
mod CallTests
mod Witnesses
