-- ===== src/Scanner/Attestation/Offsets.antt =====
-- What the offset checks of programs/grave-scanner/src/attestation.rs pin down.
use graveyield_protocol.Prelude.{
  ℕ, ◌≤◌, ◌≡◌, List, length, leb, ◌==◌, ==→eq, slice, le_value, key_of_bytes, ok, require_ok, arith,
  ◌&&◌,
}
use graveyield_protocol.Scanner.Attestation.{
  TransactionInstruction, u16_at, placed, verify_ed25519_offsets_at, ed25519_program_id,
  ed25519_sig_len, ed25519_pk_len, precompile_min_len, precompile_sig_offset, precompile_pk_offset,
  cur_instruction_index,
}

-- An instruction of the precompile that passes the scanner's checks.
pub record IsPinned (d : TransactionInstruction) (scanner_index : ℕ) (scanner_data : List ℕ)
    (oracle msg_offset msg_len min_len : ℕ) : Type 0 where
  pub program : d.program_id ≡ ed25519_program_id
  pub count : le_value (slice d.payload 0 1) ≡ 1
  pub sig_offset : u16_at d.payload 2 ≡ 48
  pub sig_index : u16_at d.payload 4 ≡ cur_instruction_index
  pub key_offset : u16_at d.payload 6 ≡ 16
  pub key_index : u16_at d.payload 8 ≡ cur_instruction_index
  pub message_offset : u16_at d.payload 10 ≡ msg_offset
  pub message_size : u16_at d.payload 12 ≡ msg_len
  pub message_index : u16_at d.payload 14 ≡ scanner_index
  pub key : key_of_bytes (slice d.payload (u16_at d.payload 6) 32) ≡ oracle
  pub room : min_len ≤ length scanner_data

pub verify_ed25519_offsets_at-IsPinned :
    (d : TransactionInstruction) (i : ℕ) (bytes : List ℕ) (oracle offset len min_len : ℕ)
    → verify_ed25519_offsets_at d i bytes oracle offset len min_len ≡ ok tt
    → IsPinned d i bytes oracle offset len min_len
unfolding verify_ed25519_offsets_at
verify_ed25519_offsets_at-IsPinned d i bytes oracle offset len min_len h =
    let p = d.payload in
    require_ok (d.program_id == ed25519_program_id) _ _ h λ c1 h1.
      require_ok (leb precompile_min_len (length p)) _ _ h1 λ c2 h2.
        require_ok (le_value (slice p 0 1) == 1) _ _ h2 λ c3 h3.
          require_ok (placed p (u16_at p 4) (u16_at p 2) precompile_sig_offset ed25519_sig_len) _ _
            h3
            λ c4 h4.
              require_ok (placed p (u16_at p 8) (u16_at p 6) precompile_pk_offset ed25519_pk_len) _
                _ h4
                λ c5 h5.
                  require_ok (key_of_bytes (slice p (u16_at p 6) ed25519_pk_len) == oracle) _ _ h5
                    λ c6 h6. require_ok (u16_at p 14 == i) _ _ h6 λ c7 h7.
                      require_ok (u16_at p 10 == offset && u16_at p 12 == len) _ _ h7 λ c8 h8.
                        record {
                          program = ==→eq _ _ c1;
                          count = ==→eq _ _ c3;
                          sig_offset = ground (arith, c4);
                          sig_index = ground (arith, c4);
                          key_offset = ground (arith, c5);
                          key_index = ground (arith, c5);
                          message_offset = ground (arith, c8);
                          message_size = ground (arith, c8);
                          message_index = ==→eq _ _ c7;
                          key = ==→eq _ _ c6;
                          room = ground (arith, h8);
                        }
