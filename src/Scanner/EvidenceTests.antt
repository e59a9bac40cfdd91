-- ===== src/Scanner/EvidenceTests.antt =====
-- Tests of the scanner's adapters and attestations on concrete bytes.
use graveyield_protocol.Prelude.{◌≡◌, refl, pos, ok}
use graveyield_protocol.Prelude.Bytes.{le_bytes, le_value, key_bytes, key_of_bytes}
use graveyield_protocol.Scanner.Attestation.{
  load_instruction_pair, verify_ed25519_offsets, verify_ed25519_offsets_at,
}
use graveyield_protocol.Scanner.Attestation.SlotHashes.{
  slot_hash_lookup, slot_hash_scan, slot_hash_entries, encode_slot_hashes,
}
use graveyield_protocol.Scanner.Attestation.LastSwap.{
  message_last_swap_unix_ts, message_issued_slot, verify_attestation_message,
  verify_last_swap_attestation,
}
use graveyield_protocol.Scanner.Attestation.Honest.{
  precompile_header, precompile_of, last_swap_message,
}
use graveyield_protocol.Scanner.Adapters.RaydiumV4.{
  raydium_v4_parse, read_pubkey, read_u64_le, read_token_account,
}
use graveyield_protocol.Scanner.Adapters.Dispatch.{extract_pool_data}
use graveyield_protocol.Scanner.Adapters.Locker.{
  kind_of, scan_kind, scan_accounts, marker_address, token_lock_address, uncx_locked_lp_amount,
  locked_lp_amount,
}
use graveyield_protocol.Scanner.Fixtures.{
  pda, pool_account, pool_accounts, lock_accounts, message, sysvars, pool_data,
}

-- The attestation passes in its own slot and later.
pub attested_at_five :
    verify_last_swap_attestation sysvars
      (record { msg = message; amm_program_id = 1; pool_address = 2; oracle = 50 })
      (pos 10000000)
      5
    ≡ ok (pos 1000)
unfolding verify_last_swap_attestation load_instruction_pair verify_ed25519_offsets
    verify_ed25519_offsets_at verify_attestation_message message_last_swap_unix_ts
    message_issued_slot slot_hash_lookup slot_hash_scan slot_hash_entries encode_slot_hashes
    precompile_header precompile_of last_swap_message le_bytes le_value key_bytes key_of_bytes
attested_at_five = refl

pub attested_at_seven :
    verify_last_swap_attestation sysvars
      (record { msg = message; amm_program_id = 1; pool_address = 2; oracle = 50 })
      (pos 10000000)
      7
    ≡ ok (pos 1000)
unfolding verify_last_swap_attestation load_instruction_pair verify_ed25519_offsets
    verify_ed25519_offsets_at verify_attestation_message message_last_swap_unix_ts
    message_issued_slot slot_hash_lookup slot_hash_scan slot_hash_entries encode_slot_hashes
    precompile_header precompile_of last_swap_message le_bytes le_value key_bytes key_of_bytes
attested_at_seven = refl

pub pool_test : extract_pool_data pool_account 2 pool_accounts ≡ ok pool_data
unfolding extract_pool_data raydium_v4_parse read_pubkey read_u64_le read_token_account le_bytes
    le_value key_bytes key_of_bytes
pool_test = refl

pub locker_test : locked_lp_amount pda 78 2 pool_accounts ≡ ok 0
unfolding locked_lp_amount uncx_locked_lp_amount scan_accounts scan_kind kind_of marker_address
    token_lock_address le_bytes le_value key_bytes key_of_bytes
locker_test = refl

locks_test : locked_lp_amount pda 78 2 lock_accounts ≡ ok 40
unfolding locked_lp_amount uncx_locked_lp_amount scan_accounts scan_kind kind_of marker_address
    token_lock_address le_bytes le_value key_bytes key_of_bytes
locks_test = refl
