-- ===== src/Scanner/SignedTests.antt =====
-- The theorems on the scanner's evidence at the fixtures: the precompile that accepts one signature
-- of one message, a pool without locks, and its second phase.
use graveyield_protocol.Prelude.{
  ℕ, ◌≡◌, ◌↔◌, refl, ap, ◌∙◌, pos, ok, some, none, List, [], length, ◌≤◌, ◌++◌, Option, replicate,
  arith, ◌==◌, Bool-cases, inl, inr, All, false,
}
use graveyield_protocol.Prelude.Bytes.{le_bytes, le_value, key_bytes, key_of_bytes}
use mathlib.Core.Path.{subst}
use graveyield_protocol.Scanner.State.{ProtocolConfig, LaunchPrice}
use graveyield_protocol.Scanner.Attestation.{
  TransactionInstruction, ed25519_program_id, load_instruction_pair, verify_ed25519_offsets_at,
}
use graveyield_protocol.Scanner.Attestation.SlotHashes.{
  slot_hash_lookup, encode_slot_hashes, find_hash, IsEntry, slot_hash_lookup-encode_slot_hashes,
}
use graveyield_protocol.Scanner.Attestation.LastSwap.{
  AttestationRef, IsAttested, message_last_swap_unix_ts, verify_attestation_message,
  verify_last_swap_attestation, Verdict, verify_attestation_message-Verdict,
}
use graveyield_protocol.Scanner.Attestation.LaunchPrices.{
  launch_price_ref, new_launch_price, IsBaseline, record_launch_price,
  verify_launch_price_attestation, verify_launch_price_message, launch_price_message_price,
  launch_price_message_first_swap_slot, launch_price_message_first_swap_ts,
  launch_price_message_issued_slot,
}
use graveyield_protocol.Scanner.Attestation.Signed.{
  IsPrecompiled, RuntimeChecks, SignedOrForeign, asked, baseline_record,
  verify_last_swap_attestation-OracleSigned, record_launch_price-OracleSigned,
}
use graveyield_protocol.Scanner.Attestation.Honest.{
  precompile_header, precompile_of, last_swap_message, verify_last_swap_attestation_honest,
}
use graveyield_protocol.Scanner.Adapters.RaydiumV4.{raydium_v4_id, IsBacked}
use graveyield_protocol.Scanner.Adapters.Dispatch.{extract_pool_data-IsBacked}
use graveyield_protocol.Scanner.Adapters.Locker.{locked_lp_amount}
use graveyield_protocol.Scanner.Adapters.Locker.Refinement.{
  IsLockerEvidence, locked_lp_amount_iff_IsLockerEvidence,
}
use graveyield_protocol.Scanner.EvidenceTests.{attested_at_five, pool_test}
use graveyield_protocol.Scanner.Fixtures.{
  pda, pool_account, pool_accounts, lock_accounts, pool_data, config, recorded, two_instructions,
  precompile_ix, scanner_ix, message, sysvars, entries, launch_message, launch_params,
  launch_sysvars, at_epoch,
}

-- A runtime that accepts one signature of one message.
abbrev Accepts : List ℕ → List ℕ → List ℕ → List ℕ → List ℕ → Type 0
Accepts s m key signature msg = (signature ≡ s) × (msg ≡ m)

two_instructions-RuntimeChecks :
    (V : List ℕ → List ℕ → List ℕ → Type 0) (first second : TransactionInstruction)
    (hashes : List ℕ)
    → (second.program_id == ed25519_program_id) ≡ false
    → IsPrecompiled V (two_instructions first second hashes) first
    → RuntimeChecks V (two_instructions first second hashes)
two_instructions-RuntimeChecks V first second hashes other p = record {
  few = λ i current. ground (arith, current);
  checked = λ i d loads program count. elim (Bool-cases (i == 0)) [
    | inl e ↦
        let same : first ≡ d = ground (arith, e, loads) in
        subst (IsPrecompiled V (two_instructions first second hashes)) same p
    | inr e ↦ elim (Bool-cases (i == 1)) [
      | inl f ↦
          let same : second ≡ d = ground (arith, e, f, loads) in
          let id : second.program_id ≡ ed25519_program_id = ap (λ x. x.program_id) same ∙ program in
          absurd (ground (arith, id, other))
      | inr f ↦ absurd (ground (arith, e, f, loads))
    ]
  ];
}

abbrev pub SwapAccepts : List ℕ → List ℕ → List ℕ → Type 0
SwapAccepts = Accepts (replicate 64 7) message

precompile_ix-IsPrecompiled : IsPrecompiled SwapAccepts sysvars precompile_ix
unfolding precompile_of precompile_header last_swap_message le_bytes le_value key_bytes
precompile_ix-IsPrecompiled = record {
  sig_data = precompile_ix.payload;
  key_data = precompile_ix.payload;
  msg_data = scanner_ix.payload;
  sig_at = refl;
  key_at = refl;
  msg_at = refl;
  verified = (refl, refl);
}

pub runtime : RuntimeChecks SwapAccepts sysvars
runtime =
    two_instructions-RuntimeChecks SwapAccepts precompile_ix scanner_ix (encode_slot_hashes entries)
      refl precompile_ix-IsPrecompiled

abbrev last_swap : AttestationRef
last_swap = record { msg = message; amm_program_id = 1; pool_address = 2; oracle = 50 }

verify_last_swap_attestation-OracleSigned_example :
    SignedOrForeign SwapAccepts sysvars 50 72 112 message
    × (pos 1000 ≡ message_last_swap_unix_ts message)
    × ((slot_hashes : List ℕ) × (sysvars.slot_hashes_data ≡ some slot_hashes)
        × IsAttested message 1 2 (pos 10000000) 5 slot_hashes)
verify_last_swap_attestation-OracleSigned_example =
    verify_last_swap_attestation-OracleSigned SwapAccepts sysvars last_swap (pos 10000000) 5
      (pos 1000) runtime attested_at_five

verify_attestation_message-Verdict_example :
    Verdict message 1 2
      (pos 10000000)
      5
      (encode_slot_hashes entries)
      (verify_attestation_message message 1 2 (pos 10000000) 5 (encode_slot_hashes entries))
verify_attestation_message-Verdict_example =
    verify_attestation_message-Verdict message 1 2 (pos 10000000) 5 (encode_slot_hashes entries)

entries-IsEntry : All IsEntry entries
entries-IsEntry = ((omega arith, omega arith), ((omega arith, omega arith), tt))

slot_hash_lookup-encode_slot_hashes_example :
    slot_hash_lookup (encode_slot_hashes entries) 5 ≡ find_hash entries 5
slot_hash_lookup-encode_slot_hashes_example =
    slot_hash_lookup-encode_slot_hashes entries 5 entries-IsEntry (omega arith)

scanner_ix_room : 184 ≤ length scanner_ix.payload
unfolding last_swap_message key_bytes le_bytes
scanner_ix_room = omega arith

verify_last_swap_attestation_honest_example :
    verify_last_swap_attestation sysvars last_swap (pos 10000000) 7 ≡ ok (pos 1000)
verify_last_swap_attestation_honest_example =
    verify_last_swap_attestation_honest 1 1 2 50 1000 5 123 10000000 7 (replicate 64 7) entries
      scanner_ix sysvars (omega arith) (omega arith) (omega arith) (omega arith) (omega arith)
      (omega arith) (omega arith) (omega arith) (omega arith) (omega arith) (omega arith)
      (omega arith) refl scanner_ix_room entries-IsEntry (omega arith) refl refl refl refl refl

abbrev launch_ix : TransactionInstruction
launch_ix = record { program_id = 7; payload = replicate 152 0 ++ launch_message }

abbrev launch_precompile : TransactionInstruction
launch_precompile = precompile_of 1 152 168 50 (replicate 64 9)

abbrev LaunchAccepts : List ℕ → List ℕ → List ℕ → Type 0
LaunchAccepts = Accepts (replicate 64 9) launch_message

launch_precompile-IsPrecompiled : IsPrecompiled LaunchAccepts launch_sysvars launch_precompile
unfolding precompile_of precompile_header le_bytes le_value key_bytes
launch_precompile-IsPrecompiled = record {
  sig_data = launch_precompile.payload;
  key_data = launch_precompile.payload;
  msg_data = launch_ix.payload;
  sig_at = refl;
  key_at = refl;
  msg_at = refl;
  verified = (refl, refl);
}

launch_runtime : RuntimeChecks LaunchAccepts launch_sysvars
launch_runtime =
    two_instructions-RuntimeChecks LaunchAccepts launch_precompile launch_ix [] refl
      launch_precompile-IsPrecompiled

record_test :
    record_launch_price (at_epoch 5) 255 launch_sysvars launch_params (some config) none
    ≡ ok recorded
unfolding record_launch_price launch_price_ref new_launch_price verify_launch_price_attestation
    verify_launch_price_message launch_price_message_price launch_price_message_first_swap_slot
    launch_price_message_first_swap_ts launch_price_message_issued_slot load_instruction_pair
    verify_ed25519_offsets_at precompile_of precompile_header le_bytes le_value key_bytes
    key_of_bytes
record_test = refl

record_launch_price-OracleSigned_example :
    (Path (Option LaunchPrice) none none)
    × ((cfg : ProtocolConfig) × (some config ≡ some cfg)
        × (cfg.paused ≡ false)
        × SignedOrForeign LaunchAccepts launch_sysvars cfg.launch_price_oracle 152 168
            launch_message
        × IsBaseline (asked launch_params cfg) (pos 10000000) 5
        × (recorded ≡ baseline_record (at_epoch 5) 255 launch_params))
record_launch_price-OracleSigned_example =
    record_launch_price-OracleSigned LaunchAccepts (at_epoch 5) 255 launch_sysvars launch_params
      (some config) none recorded launch_runtime record_test

extract_pool_data-IsBacked_example :
    (pool_account.key ≡ 2)
    × (pool_account.owner ≡ raydium_v4_id)
    × IsBacked pool_account pool_accounts pool_data
extract_pool_data-IsBacked_example =
    extract_pool_data-IsBacked pool_account 2 pool_accounts pool_data pool_test

locked_lp_amount_iff_IsLockerEvidence_example :
    (locked_lp_amount pda 78 2 lock_accounts ≡ ok 40) ↔ IsLockerEvidence pda 78 2 lock_accounts 40
locked_lp_amount_iff_IsLockerEvidence_example =
    locked_lp_amount_iff_IsLockerEvidence pda 78 2 lock_accounts 40
