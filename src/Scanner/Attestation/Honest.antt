-- ===== src/Scanner/Attestation/Honest.antt =====
-- The attestation that an honest client submits, laid out as the header comment of
-- programs/grave-scanner/src/attestation.rs says: the precompile's instruction with one signature
-- in its canonical place, and the message of 112 bytes.
use graveyield_protocol.Prelude.{
  ℕ, ◌+◌, ◌-◌, ◌≤◌, ◌<◌, ◌^◌, ◌≡◌, refl, ap, ◌∙◌, pos, i64_of_u64, i64_max_suc, some, List, ◌∷◌,
  ◌++◌, length, length-append, slice, key_bytes, key_of_bytes, ◌*◌, ◌/◌, ◌%◌, length-u64_bytes,
  length-key_bytes, le_value-le_bytes, key_of_bytes-key_bytes, slice-after, take-append, take_all,
  ok, arith, All,
}
use graveyield_protocol.Prelude.Bytes.{le_value, le_bytes}
use graveyield_protocol.Scanner.Attestation.{
  TransactionInstruction, Sysvars, load_instruction_pair, verify_ed25519_offsets_at,
  verify_ed25519_offsets, ed25519_program_id, ix_data_msg_offset, attestation_msg_len,
  ix_data_min_len,
}
use graveyield_protocol.Scanner.Attestation.SlotHashes.{
  encode_slot_hashes, find_hash, IsEntry, slot_hash_lookup, slot_hash_lookup-encode_slot_hashes,
}
use graveyield_protocol.Scanner.Attestation.LastSwap.{
  message_last_swap_unix_ts, message_issued_slot, verify_last_swap_attestation, IsAttested,
  IsAttested-ok,
}

-- The header of 16 bytes: one signature, at 48, the key at 16, both in the own data, and the
-- message in the data of another instruction.
unfoldable pub precompile_header : ℕ → ℕ → ℕ → List ℕ
precompile_header scanner_index msg_offset msg_len =
    1
    ∷ 0
    ∷ (le_bytes 2 48
        ++ (le_bytes 2 65535
            ++ (le_bytes 2 16
                ++ (le_bytes 2 65535
                    ++ (le_bytes 2 msg_offset
                        ++ (le_bytes 2 msg_len ++ le_bytes 2 scanner_index))))))

unfoldable pub precompile_of : ℕ → ℕ → ℕ → ℕ → List ℕ → TransactionInstruction
unfolding precompile_header
precompile_of scanner_index msg_offset msg_len oracle signature = record {
  program_id = ed25519_program_id;
  payload = precompile_header scanner_index msg_offset msg_len ++ (key_bytes oracle ++ signature);
}

unfoldable pub last_swap_message : ℕ → ℕ → ℕ → ℕ → ℕ → List ℕ
last_swap_message amm pool ts slot hash =
    key_bytes amm ++ (key_bytes pool ++ (le_bytes 8 ts ++ (le_bytes 8 slot ++ key_bytes hash)))

read_u16 : (n : ℕ) → n < 256 ^ 2 → n % 256 + 256 * (n / 256 % 256 + 256 * 0) ≡ n
unfolding le_value le_bytes
read_u16 n h = le_value-le_bytes 2 n h

verify-precompile_of :
    (i offset len min_len oracle : ℕ) (signature bytes : List ℕ)
    → i < 256 ^ 2
    → offset < 256 ^ 2
    → len < 256 ^ 2
    → oracle < 256 ^ 32
    → length signature ≡ 64
    → min_len ≤ length bytes
    → verify_ed25519_offsets_at
        (precompile_of i offset len oracle signature)
        i
        bytes
        oracle
        offset
        len
        min_len
      ≡ ok tt
unfolding verify_ed25519_offsets_at precompile_of precompile_header le_bytes le_value
verify-precompile_of i offset len min_len oracle signature bytes hi ho hl hk hs hb =
    let key = key_bytes oracle in
    let same_key : key_of_bytes (slice (key ++ signature) 0 32) ≡ oracle =
      ap key_of_bytes (take-append key signature 32 (length-key_bytes oracle))
      ∙ key_of_bytes-key_bytes oracle hk in
    ground (
      arith,
      same_key,
      read_u16 i hi,
      read_u16 offset ho,
      read_u16 len hl,
      length-append key signature,
      length-key_bytes oracle,
    )

-- The pair that the loader finds in a transaction with an instruction before the scanner's.
load_instruction_pair_ok :
    (v : Sysvars) (i : ℕ) (d s : TransactionInstruction)
    → 1 ≤ i
    → v.load_current_index_checked ≡ some i
    → v.load_instruction_at_checked i ≡ some s
    → v.load_instruction_at_checked (i - 1) ≡ some d
    → load_instruction_pair v ≡ ok (record { precompile_ix = d; scanner_ix = s; current_index = i })
unfolding load_instruction_pair
load_instruction_pair_ok v i d s h fi fs fd = ground (arith, h, fi, fs, fd)

-- The parts of a message.
record MessageParts (m : List ℕ) (amm pool ts slot hash : ℕ) : Type 0 where
  amm_bytes : slice m 0 32 ≡ key_bytes amm
  pool_bytes : slice m 32 32 ≡ key_bytes pool
  ts_bytes : slice m 64 8 ≡ le_bytes 8 ts
  slot_bytes : slice m 72 8 ≡ le_bytes 8 slot
  hash_bytes : slice m 80 32 ≡ key_bytes hash

message_parts :
    (amm pool ts slot hash : ℕ)
    → MessageParts (last_swap_message amm pool ts slot hash) amm pool ts slot hash
unfolding last_swap_message
message_parts amm pool ts slot hash =
    let k1 = key_bytes amm in
    let k2 = key_bytes pool in
    let b3 = le_bytes 8 ts in
    let b4 = le_bytes 8 slot in
    let k5 = key_bytes hash in
    let l1 = length-key_bytes amm in
    let l2 = length-key_bytes pool in
    let l3 = length-u64_bytes ts in
    let l4 = length-u64_bytes slot in
    let r4 = b4 ++ k5 in
    let r3 = b3 ++ r4 in
    let r2 = k2 ++ r3 in
    let skip2 : (o n : ℕ) → slice (k1 ++ r2) (32 + (32 + o)) n ≡ slice r3 o n =
      λ o n. slice-after k1 r2 32 (32 + o) n l1 ∙ slice-after k2 r3 32 o n l2 in
    record {
      amm_bytes = take-append k1 r2 32 l1;
      pool_bytes = slice-after k1 r2 32 0 32 l1 ∙ take-append k2 r3 32 l2;
      ts_bytes = skip2 0 8 ∙ take-append b3 r4 8 l3;
      slot_bytes = skip2 8 8 ∙ slice-after b3 r4 8 0 8 l3 ∙ take-append b4 k5 8 l4;
      hash_bytes =
          skip2 16 32
          ∙ slice-after b3 r4 8 8 32 l3
          ∙ slice-after b4 k5 8 0 32 l4
          ∙ take_all k5 32 (length-key_bytes hash);
    }

-- The values that the message's readers give.
last_swap_message-IsAttested :
    (amm pool ts slot hash now now_slot : ℕ) (slot_hashes : List ℕ)
    → amm < 256 ^ 32
    → pool < 256 ^ 32
    → hash < 256 ^ 32
    → 0 < ts
    → ts ≤ now
    → ts < i64_max_suc
    → 0 < slot
    → slot ≤ now_slot
    → slot < 256 ^ 8
    → slot_hash_lookup slot_hashes slot ≡ some hash
    → (message_last_swap_unix_ts (last_swap_message amm pool ts slot hash) ≡ pos ts)
      × IsAttested (last_swap_message amm pool ts slot hash) amm pool (pos now) now_slot slot_hashes
unfolding message_last_swap_unix_ts message_issued_slot
last_swap_message-IsAttested amm pool ts slot hash now now_slot slot_hashes ha hp hh t0 t1 t2 s0 s1
      s2 found =
    let m = last_swap_message amm pool ts slot hash in
    let parts = message_parts amm pool ts slot hash in
    let read_ts : le_value (slice m 64 8) ≡ ts =
      ap le_value parts.ts_bytes ∙ le_value-le_bytes 8 ts (omega arith) in
    let same_ts : i64_of_u64 (le_value (slice m 64 8)) ≡ pos ts = rw read_ts (ground (arith, t2)) in
    let same_slot : le_value (slice m 72 8) ≡ slot =
      ap le_value parts.slot_bytes ∙ le_value-le_bytes 8 slot s2 in
    let same_hash : key_of_bytes (slice m 80 32) ≡ hash =
      ap key_of_bytes parts.hash_bytes ∙ key_of_bytes-key_bytes hash hh in
    (
      same_ts,
      record {
        bound = (
          ap key_of_bytes parts.amm_bytes ∙ key_of_bytes-key_bytes amm ha,
          ap key_of_bytes parts.pool_bytes ∙ key_of_bytes-key_bytes pool hp,
        );
        timely = rw same_ts (omega (arith, t0), omega (arith, t1));
        slotted = rw same_slot (s0, s1);
        fresh = rw (same_slot, same_hash) found;
      },
    )

-- A client is served: the precompile's instruction with the oracle's key and any signature stands
-- just before the scanner's, points at 112 bytes in it, and the message has the AMM, the pool,
-- a positive timestamp that is not in the future, a positive slot that is not in the future, and
-- the hash that the sysvar's entries have for that slot. All values fit their width. The
-- attestation passes and gives the timestamp, whatever stands at those 112 bytes: the code does
-- not compare them with the message.
pub verify_last_swap_attestation_honest :
    (i amm pool oracle ts slot hash now now_slot : ℕ) (signature : List ℕ) (entries : List (ℕ × ℕ))
    (scanner_ix : TransactionInstruction) (v : Sysvars)
    → 1 ≤ i
    → i < 256 ^ 2
    → amm < 256 ^ 32
    → pool < 256 ^ 32
    → oracle < 256 ^ 32
    → hash < 256 ^ 32
    → 0 < ts
    → ts ≤ now
    → ts < i64_max_suc
    → 0 < slot
    → slot ≤ now_slot
    → slot < 256 ^ 8
    → length signature ≡ 64
    → ix_data_min_len ≤ length scanner_ix.payload
    → All IsEntry entries
    → length entries < 256 ^ 8
    → find_hash entries slot ≡ some hash
    → v.load_current_index_checked ≡ some i
    → v.load_instruction_at_checked i ≡ some scanner_ix
    → v.load_instruction_at_checked (i - 1)
      ≡ some (precompile_of i ix_data_msg_offset attestation_msg_len oracle signature)
    → v.slot_hashes_data ≡ some (encode_slot_hashes entries)
    → verify_last_swap_attestation v
        (record {
          msg = last_swap_message amm pool ts slot hash;
          amm_program_id = amm;
          pool_address = pool;
          oracle = oracle;
        })
        (pos now)
        now_slot
      ≡ ok (pos ts)
unfolding verify_last_swap_attestation verify_ed25519_offsets
verify_last_swap_attestation_honest i amm pool oracle ts slot hash now now_slot signature entries
      scanner_ix v h1 hi ha hp ho hh t0 t1 t2 s0 s1 s2 hl hd he hn found fi fs fd fh =
    let hashes = encode_slot_hashes entries in
    let (same_ts, attested) =
      last_swap_message-IsAttested amm pool ts slot hash now now_slot hashes ha hp hh t0 t1 t2 s0 s1
        s2 (slot_hash_lookup-encode_slot_hashes entries slot he hn ∙ found) in
    let passes =
      IsAttested-ok (last_swap_message amm pool ts slot hash) amm pool (pos now) now_slot hashes
        attested in
    let loads =
      load_instruction_pair_ok v i
        (precompile_of i ix_data_msg_offset attestation_msg_len oracle signature) scanner_ix h1 fi
        fs fd in
    let pinned =
      verify-precompile_of i ix_data_msg_offset attestation_msg_len ix_data_min_len oracle signature
        scanner_ix.payload hi (omega arith) (omega arith) ho hl hd in
    rw (loads, pinned, fh, passes, same_ts) refl
