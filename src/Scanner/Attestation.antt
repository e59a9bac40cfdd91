-- ===== src/Scanner/Attestation.antt =====
-- Oracle attestations, programs/grave-scanner/src/attestation.rs: the signature's instruction. The
-- runtime's precompile checks a signature over bytes that its instruction points at; the scanner
-- checks that these bytes stand at a message's place in the current instruction, and that the key is
-- the oracle's. The two sysvars are not
-- code of the repository: what their loaders return comes as `Sysvars`.
pub mod SlotHashes
pub mod LastSwap
pub mod LaunchPrices
pub mod Offsets
pub mod Signed
pub mod Honest
use graveyield_protocol.Prelude.{
  ℕ, ◌+◌, ◌-◌, Bool, ◌&&◌, Option, List, length, leb, ◌==◌, slice, le_value, key_of_bytes, Result,
  ok, ◌>>=◌, ◌>>◌, require, ok_or,
}
use graveyield_protocol.Scanner.Errors.{
  ScannerFailure, program, attestation_missing, invalid_attestation_offsets,
  attestation_oracle_mismatch,
}

abbrev pub ed25519_program_id : ℕ
ed25519_program_id = 0x37d46d67c93fbbe12f9428f838d40ff0570744927f48a64fcca704480000000

abbrev pub attestation_msg_len : ℕ
attestation_msg_len = 112

abbrev pub ed25519_header_len : ℕ
ed25519_header_len = 16

abbrev pub ed25519_sig_len : ℕ
ed25519_sig_len = 64

abbrev pub ed25519_pk_len : ℕ
ed25519_pk_len = 32

abbrev pub cur_instruction_index : ℕ
cur_instruction_index = 65535

abbrev pub ix_data_msg_offset : ℕ
ix_data_msg_offset = 8 + 32 + 32

abbrev pub ix_data_min_len : ℕ
ix_data_min_len = ix_data_msg_offset + attestation_msg_len

abbrev pub precompile_pk_offset : ℕ
precompile_pk_offset = ed25519_header_len

abbrev pub precompile_sig_offset : ℕ
precompile_sig_offset = ed25519_header_len + ed25519_pk_len

abbrev pub precompile_min_len : ℕ
precompile_min_len = ed25519_header_len + ed25519_pk_len + ed25519_sig_len

abbrev pub launch_price_msg_len : ℕ
launch_price_msg_len = 168

abbrev pub launch_price_msg_offset : ℕ
launch_price_msg_offset = 8 + 32 + 32 + 32 + 32 + 16

abbrev pub launch_price_ix_min_len : ℕ
launch_price_ix_min_len = launch_price_msg_offset + launch_price_msg_len

-- An instruction of the transaction, without its accounts.
pub record TransactionInstruction : Type 0 where
  pub program_id : ℕ
  pub payload : List ℕ

-- What the loaders of the instructions sysvar and the borrow of the slot hashes' data return:
-- nothing where they fail.
pub record Sysvars : Type 0 where
  pub load_current_index_checked : Option ℕ
  pub load_instruction_at_checked : ℕ → Option TransactionInstruction
  pub slot_hashes_data : Option (List ℕ)

-- `u16::from_le_bytes([d[i], d[i + 1]])`.
abbrev pub u16_at : List ℕ → ℕ → ℕ
u16_at d i = le_value (slice d i 2)

-- The two conditions of the signature and of the key: their place in the precompile's own data.
abbrev pub placed : List ℕ → ℕ → ℕ → ℕ → ℕ → Bool
placed d ix_index offset pinned len =
    ix_index == cur_instruction_index && offset == pinned && leb (offset + len) (length d)

-- `offset + len` is far below the range of usize: offsets are of 16 bits.
unfoldable pub verify_ed25519_offsets_at :
    TransactionInstruction → ℕ → List ℕ → ℕ → ℕ → ℕ → ℕ → Result ScannerFailure (Unit {0})
verify_ed25519_offsets_at precompile_ix scanner_ix_index scanner_ix_data oracle msg_offset msg_len
      min_scanner_data_len =
    let d = precompile_ix.payload in
    do
      require (precompile_ix.program_id == ed25519_program_id) (program attestation_missing)
      require (leb precompile_min_len (length d)) (program invalid_attestation_offsets)
      require (le_value (slice d 0 1) == 1) (program invalid_attestation_offsets)
      require (placed d (u16_at d 4) (u16_at d 2) precompile_sig_offset ed25519_sig_len)
          (program invalid_attestation_offsets)
      require (placed d (u16_at d 8) (u16_at d 6) precompile_pk_offset ed25519_pk_len)
          (program invalid_attestation_offsets)
      require (key_of_bytes (slice d (u16_at d 6) ed25519_pk_len) == oracle)
          (program attestation_oracle_mismatch)
      require (u16_at d 14 == scanner_ix_index) (program invalid_attestation_offsets)
      require (u16_at d 10 == msg_offset && u16_at d 12 == msg_len)
          (program invalid_attestation_offsets)
      require (leb min_scanner_data_len (length scanner_ix_data))
          (program invalid_attestation_offsets)

unfoldable pub verify_ed25519_offsets :
    TransactionInstruction → ℕ → List ℕ → ℕ → Result ScannerFailure (Unit {0})
verify_ed25519_offsets precompile_ix scanner_ix_index scanner_ix_data oracle =
    verify_ed25519_offsets_at precompile_ix scanner_ix_index scanner_ix_data oracle
      ix_data_msg_offset attestation_msg_len ix_data_min_len

pub record InstructionPair : Type 0 where
  pub precompile_ix : TransactionInstruction
  pub scanner_ix : TransactionInstruction
  pub current_index : ℕ

unfoldable pub load_instruction_pair : Sysvars → Result ScannerFailure InstructionPair
load_instruction_pair v = do
  index ← ok_or v.load_current_index_checked (program attestation_missing)
  require (leb 1 index) (program attestation_missing)
  scanner_ix ← ok_or (v.load_instruction_at_checked index) (program attestation_missing)
  precompile_ix ← ok_or (v.load_instruction_at_checked (index - 1)) (program attestation_missing)
  ok (record { precompile_ix = precompile_ix; scanner_ix = scanner_ix; current_index = index })
