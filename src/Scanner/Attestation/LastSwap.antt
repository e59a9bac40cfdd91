-- ===== src/Scanner/Attestation/LastSwap.antt =====
-- The last-swap attestation of programs/grave-scanner/src/attestation.rs: its message of 112 bytes,
-- the verification of the message and of the whole, and which attestations pass or fail.
use graveyield_protocol.Prelude.{
  ℕ, ◌≤◌, ◌<◌, ◌≡◌, ℤ, pos, ltb_ℤ, leb_ℤ, ◌≤ℤ◌, ◌<ℤ◌, i64_of_u64, Bool, true, false, ◌&&◌, ltb, leb,
  ◌==◌, ==→eq, Option, none, some, List, slice, le_value, key_of_bytes, Result, ok, err, ◌>>=◌,
  ◌>>◌, require, ok_or, require_split, arith, refl, ap, ◌∙◌,
}
use graveyield_protocol.Scanner.Errors.{
  ScannerFailure, program, attestation_missing, attestation_binding_mismatch,
  attestation_timestamp_invalid, attestation_slot_invalid, attestation_stale,
  attestation_slot_hash_mismatch,
}
use graveyield_protocol.Scanner.Attestation.{Sysvars, load_instruction_pair, verify_ed25519_offsets}
use graveyield_protocol.Scanner.Attestation.SlotHashes.{slot_hash_lookup}

unfoldable pub message_last_swap_unix_ts : List ℕ → ℤ
message_last_swap_unix_ts msg = i64_of_u64 (le_value (slice msg 64 8))

unfoldable pub message_issued_slot : List ℕ → ℕ
message_issued_slot msg = le_value (slice msg 72 8)

-- The conditions of the checks.
abbrev pub names_pool : List ℕ → ℕ → ℕ → Bool
names_pool msg amm pool =
    key_of_bytes (slice msg 0 32) == amm && key_of_bytes (slice msg 32 32) == pool

abbrev pub past_time : ℤ → ℤ → Bool
past_time ts now = ltb_ℤ (pos 0) ts && leb_ℤ ts now

abbrev pub past_slot : ℕ → ℕ → Bool
past_slot slot now = ltb 0 slot && leb slot now

-- The expected hash of a present one.
abbrev pub has_hash : Option ℕ → ℕ → Bool
has_hash none hash = false
has_hash (some h) hash = h == hash

abbrev pub is_some : {A : Type 0} → Option A → Bool
is_some none = false
is_some (some a) = true

unfoldable pub verify_attestation_message :
    List ℕ → ℕ → ℕ → ℤ → ℕ → List ℕ → Result ScannerFailure ℤ
verify_attestation_message msg amm_program_id pool_address now_unix_ts now_slot slot_hashes_data =
    let ts = message_last_swap_unix_ts msg in
    let issued_slot = message_issued_slot msg in
    let hash = slot_hash_lookup slot_hashes_data issued_slot in
    do
      require (names_pool msg amm_program_id pool_address) (program attestation_binding_mismatch)
      require (past_time ts now_unix_ts) (program attestation_timestamp_invalid)
      require (past_slot issued_slot now_slot) (program attestation_slot_invalid)
      require (is_some hash) (program attestation_stale)
      require (has_hash hash (key_of_bytes (slice msg 80 32)))
          (program attestation_slot_hash_mismatch)
      ok ts

pub record AttestationRef : Type 0 where
  pub msg : List ℕ
  pub amm_program_id : ℕ
  pub pool_address : ℕ
  pub oracle : ℕ

unfoldable pub verify_last_swap_attestation :
    Sysvars → AttestationRef → ℤ → ℕ → Result ScannerFailure ℤ
verify_last_swap_attestation v att now_unix_ts now_slot = do
  pair ← load_instruction_pair v
  verify_ed25519_offsets pair.precompile_ix pair.current_index pair.scanner_ix.payload att.oracle
  slot_hashes_data ← ok_or v.slot_hashes_data (program attestation_missing)
  verify_attestation_message att.msg att.amm_program_id att.pool_address now_unix_ts now_slot
      slot_hashes_data

-- The checks of a message, as statements.
module _ (msg : List ℕ) (amm pool : ℕ) (now : ℤ) (now_slot : ℕ) (slot_hashes : List ℕ) where
  abbrev pub IsBound : Type 0
  IsBound = (key_of_bytes (slice msg 0 32) ≡ amm) × (key_of_bytes (slice msg 32 32) ≡ pool)

  abbrev pub IsTimely : Type 0
  IsTimely = (pos 0 <ℤ message_last_swap_unix_ts msg) × (message_last_swap_unix_ts msg ≤ℤ now)

  abbrev pub HasSlot : Type 0
  HasSlot = (0 < message_issued_slot msg) × (message_issued_slot msg ≤ now_slot)

  -- A recent fork: the hash that the message gives is that of its slot.
  abbrev pub IsFresh : Type 0
  IsFresh =
      slot_hash_lookup slot_hashes (message_issued_slot msg) ≡ some (key_of_bytes (slice msg 80 32))

  -- A message that passes.
  pub record IsAttested : Type 0 where
    pub bound : IsBound
    pub timely : IsTimely
    pub slotted : HasSlot
    pub fresh : IsFresh

  -- The error of a message that fails: that of its first check that fails.
  pub data Refused : ScannerFailure → Type 0 where
    unbound : ¬ IsBound → Refused (program attestation_binding_mismatch)
    untimely : IsBound → ¬ IsTimely → Refused (program attestation_timestamp_invalid)
    unslotted : IsBound → IsTimely → ¬ HasSlot → Refused (program attestation_slot_invalid)
    stale :
        IsBound
        → IsTimely
        → HasSlot
        → slot_hash_lookup slot_hashes (message_issued_slot msg) ≡ none
        → Refused (program attestation_stale)
    forked :
        (hash : ℕ)
        → IsBound
        → IsTimely
        → HasSlot
        → slot_hash_lookup slot_hashes (message_issued_slot msg) ≡ some hash
        → ¬ (hash ≡ key_of_bytes (slice msg 80 32))
        → Refused (program attestation_slot_hash_mismatch)

-- What a message's verification answers.
abbrev pub Verdict : List ℕ → ℕ → ℕ → ℤ → ℕ → List ℕ → Result ScannerFailure ℤ → Type 0
Verdict msg amm pool now now_slot slot_hashes (ok ts) =
    (ts ≡ message_last_swap_unix_ts msg) × IsAttested msg amm pool now now_slot slot_hashes
Verdict msg amm pool now now_slot slot_hashes (err e) =
    Refused msg amm pool now now_slot slot_hashes e

-- The last two checks, by what the search for the slot's hash gives.
hash-Verdict :
    (msg : List ℕ) (amm pool : ℕ) (now : ℤ) (now_slot : ℕ) (slot_hashes : List ℕ) (found : Option ℕ)
    → IsBound msg amm pool now now_slot slot_hashes
    → IsTimely msg amm pool now now_slot slot_hashes
    → HasSlot msg amm pool now now_slot slot_hashes
    → slot_hash_lookup slot_hashes (message_issued_slot msg) ≡ found
    → Verdict msg amm pool now now_slot slot_hashes (
        require (is_some found) (program attestation_stale)
        >> (require
              (has_hash found (key_of_bytes (slice msg 80 32)))
              (program attestation_slot_hash_mismatch)
            >> ok (message_last_swap_unix_ts msg)))
hash-Verdict msg amm pool now now_slot slot_hashes none bound timely slotted e =
    stale bound timely slotted e
hash-Verdict msg amm pool now now_slot slot_hashes (some h) bound timely slotted e =
    require_split (Verdict msg amm pool now now_slot slot_hashes)
      (has_hash (some h) (key_of_bytes (slice msg 80 32))) _ _
      (λ same.
        let fresh : IsFresh msg amm pool now now_slot slot_hashes =
          e ∙ ap some (==→eq h (key_of_bytes (slice msg 80 32)) same) in
        (refl, record { bound = bound; timely = timely; slotted = slotted; fresh = fresh }))
      (λ other. forked h bound timely slotted e (λ x. ground (arith, other, x)))

-- The verification of a last-swap message accepts it only with the timestamp it carries, and where
-- it names the AMM and the pool, its timestamp is after 1970 and not in the future, its slot is
-- neither zero nor in the future and its hash is the one that the sysvar has for its slot; it
-- refuses with one of five errors, that of the first of these checks which the message fails.
pub verify_attestation_message-Verdict :
    (msg : List ℕ) (amm pool : ℕ) (now : ℤ) (now_slot : ℕ) (slot_hashes : List ℕ)
    → Verdict msg amm pool now now_slot slot_hashes
        (verify_attestation_message msg amm pool now now_slot slot_hashes)
unfolding verify_attestation_message
verify_attestation_message-Verdict msg amm pool now now_slot slot_hashes =
    let V = Verdict msg amm pool now now_slot slot_hashes in
    let slot = message_issued_slot msg in
    let ts = message_last_swap_unix_ts msg in
    require_split V (names_pool msg amm pool) _ _
      (λ b.
        let bound : IsBound msg amm pool now now_slot slot_hashes = ground (arith, b) in
        require_split V (past_time ts now) _ _
          (λ t.
            let timely : IsTimely msg amm pool now now_slot slot_hashes = ground (arith, t) in
            require_split V (past_slot slot now_slot) _ _
              (λ s.
                let slotted : HasSlot msg amm pool now now_slot slot_hashes = ground (arith, s) in
                hash-Verdict msg amm pool now now_slot slot_hashes
                  (slot_hash_lookup slot_hashes slot) bound timely slotted refl)
              (λ s. unslotted bound timely (λ x. ground (arith, s, x))))
          (λ t. untimely bound (λ x. ground (arith, t, x))))
      (λ b. unbound (λ x. ground (arith, b, x)))

-- A message that meets all checks passes with its timestamp.
pub IsAttested-ok :
    (msg : List ℕ) (amm pool : ℕ) (now : ℤ) (now_slot : ℕ) (slot_hashes : List ℕ)
    → IsAttested msg amm pool now now_slot slot_hashes
    → verify_attestation_message msg amm pool now now_slot slot_hashes
      ≡ ok (message_last_swap_unix_ts msg)
unfolding verify_attestation_message
IsAttested-ok msg amm pool now now_slot slot_hashes a =
    let (b1, b2) = a.bound in
    let (t1, t2) = a.timely in
    let (s1, s2) = a.slotted in ground (arith, b1, b2, t1, t2, s1, s2, a.fresh)
