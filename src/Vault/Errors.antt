-- ===== src/Vault/Errors.antt =====
-- programs/grave-vault/src/errors.rs, and the failures that the framework and the runtime raise
-- for the vault's instructions.
pub data GraveVaultError : Type 0 where
  unauthorized invalid_eligibility_cert eligibility_cert_expired protocol_paused : GraveVaultError
  invalid_share_split protocol_share_exceeds_ceiling lp_holder_pool_unsweepable : GraveVaultError
  slippage_exceeded priority_fee_exceeds_ceiling math_overflow : GraveVaultError
  invalid_claim_proof claim_already_processed below_dust_threshold : GraveVaultError
  preflight_failed timelock_not_elapsed amm_redemption_failed : GraveVaultError
  jupiter_swap_failed amm_cpi_unimplemented invalid_snapshot_data : GraveVaultError
  unsupported_base_token dust_nothing_to_sweep dust_already_swept : GraveVaultError
  invariant_violation : GraveVaultError

-- `account_in_use` is what an `init` constraint gives on an account that is there,
-- `account_not_initialized` what an `Account` gives on one that is not, `constraint_violated` any
-- other account constraint with no error of its own, and `runtime` an error of the system or
-- token program that the handler passes on.
pub data VaultFailure : Type 0 where
  program : GraveVaultError → VaultFailure
  account_in_use account_not_initialized constraint_violated runtime : VaultFailure
