-- ===== src/Vault/Salvage.antt =====
-- programs/grave-vault/src/instructions/salvage_pool.rs: the settlement of a certified pool.
pub mod Accounts
pub mod Preflight
pub mod Swap
pub mod Settlement
pub mod Handler
pub mod Effects
pub mod Conservation
pub mod Route
pub mod Slippage
