-- ===== src/Scanner/Errors.antt =====
-- programs/grave-scanner/src/errors.rs, and the failures that the framework raises for the
-- scanner's instructions, as in Vault/Errors.
pub data GraveScannerError : Type 0 where
  unauthorized pool_not_eligible launch_price_not_found unsupported_amm : GraveScannerError
  math_overflow invalid_clock invariant_violation amm_adapter_unimplemented : GraveScannerError
  locker_adapter_unimplemented pool_data_parse_error protocol_paused : GraveScannerError
  criteria_bitmap_mismatch anchor_not_found epoch_confirmation_pending : GraveScannerError
  anchor_invalidated anchor_not_stale cert_ttl_below_minimum : GraveScannerError
  locker_marker_account_required locker_lock_evidence_required : GraveScannerError
  invalid_locker_account locker_account_mismatch attestation_missing : GraveScannerError
  invalid_attestation_offsets attestation_oracle_mismatch : GraveScannerError
  attestation_binding_mismatch attestation_timestamp_invalid attestation_stale : GraveScannerError
  attestation_slot_hash_mismatch attestation_slot_invalid invalid_launch_price : GraveScannerError
  launch_price_mint_mismatch cert_still_valid : GraveScannerError

pub data ScannerFailure : Type 0 where
  program : GraveScannerError → ScannerFailure
  account_in_use account_not_initialized : ScannerFailure
