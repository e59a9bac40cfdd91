-- ===== src/Scanner/Attestation/Signed.antt =====
-- What the two attestations of programs/grave-scanner/src/attestation.rs stand for: what the oracle
-- signed. The runtime's precompile is a parameter: `Verified key signature message` is its answer
-- on bytes.
use graveyield_protocol.Prelude.{
  ℕ, ◌-◌, ◌≤◌, ◌<◌, ◌≡◌, ℤ, Option, none, some, List, [], ◌∷◌, ◌≢◌, ◌⊎◌, inl, inr, Bool-cases,
  i64_of_u64, if◌then◌else◌, leb, ◌==◌, ==→eq, slice, le_value, key_of_bytes, ok, bind_ok, ok_or_ok,
  require_ok, arith, sym, not, refl, false,
}
use mathlib.Core.Path.{subst}
use graveyield_protocol.Vault.State.{Clock}
use graveyield_protocol.Scanner.State.{ProtocolConfig, LaunchPrice}
use graveyield_protocol.Scanner.Errors.{account_not_initialized}
use graveyield_protocol.Scanner.Attestation.{
  TransactionInstruction, Sysvars, InstructionPair, load_instruction_pair, u16_at,
  verify_ed25519_offsets, verify_ed25519_offsets_at, ed25519_program_id, cur_instruction_index,
  ix_data_msg_offset, attestation_msg_len, ix_data_min_len, launch_price_msg_offset,
  launch_price_msg_len, launch_price_ix_min_len,
}
use graveyield_protocol.Scanner.Attestation.LastSwap.{
  AttestationRef, verify_last_swap_attestation, IsAttested, message_last_swap_unix_ts, Verdict,
  verify_attestation_message-Verdict,
}
use graveyield_protocol.Scanner.Attestation.LaunchPrices.{
  RecordLaunchPriceParams, LaunchPriceAttestationRef, launch_price_ref, launch_price_message_price,
  launch_price_message_first_swap_slot, launch_price_message_first_swap_ts, new_launch_price,
  IsBaseline, verify_launch_price_attestation, message-IsBaseline, record_launch_price,
}
use graveyield_protocol.Scanner.Attestation.Offsets.{verify_ed25519_offsets_at-IsPinned}

-- The data that an index in the precompile's instruction names: its own, or another instruction's.
abbrev data_at : Sysvars → TransactionInstruction → ℕ → Option (List ℕ)
data_at v own i =
    if i == cur_instruction_index
    then some own.payload
    else elim (v.load_instruction_at_checked i) [ none ↦ none | some ix ↦ some ix.payload ]

module _ (Verified : List ℕ → List ℕ → List ℕ → Type 0) where
  -- The precompile accepted the first signature of its instruction: over the bytes to which the
  -- header of the instruction points.
  pub record IsPrecompiled (v : Sysvars) (d : TransactionInstruction) : Type 0 where
    pub sig_data : List ℕ
    pub key_data : List ℕ
    pub msg_data : List ℕ
    pub sig_at : data_at v d (u16_at d.payload 4) ≡ some sig_data
    pub key_at : data_at v d (u16_at d.payload 8) ≡ some key_data
    pub msg_at : data_at v d (u16_at d.payload 14) ≡ some msg_data
    pub verified :
        Verified
          (slice key_data (u16_at d.payload 6) 32)
          (slice sig_data (u16_at d.payload 2) 64)
          (slice msg_data (u16_at d.payload 10) (u16_at d.payload 12))

  -- What the runtime documents: a transaction reaches the scanner only if the precompile accepted
  -- its instructions, and has far fewer instructions than the index that is reserved.
  pub record RuntimeChecks (v : Sysvars) : Type 0 where
    pub few : (i : ℕ) → v.load_current_index_checked ≡ some i → i < cur_instruction_index
    pub checked :
        (i : ℕ) (d : TransactionInstruction)
        → v.load_instruction_at_checked i ≡ some d
        → d.program_id ≡ ed25519_program_id
        → 1 ≤ le_value (slice d.payload 0 1)
        → IsPrecompiled v d

  -- A signature by the oracle of a message.
  abbrev pub OracleSigned : ℕ → List ℕ → Type 0
  OracleSigned oracle msg =
      (key : List ℕ) × (signature : List ℕ) × (key_of_bytes key ≡ oracle)
      × Verified key signature msg

  -- The oracle signed other bytes than the message: those at the message's place in the data of
  -- the instruction that the sysvar names as current. The data are the program's own, and hold its
  -- params, where it runs at the top level; inside a call they are the caller's.
  pub record Foreign (v : Sysvars) (oracle offset len : ℕ) (msg : List ℕ) : Type 0 where
    pub index : ℕ
    pub current_ix : TransactionInstruction
    pub current : v.load_current_index_checked ≡ some index
    pub loaded : v.load_instruction_at_checked index ≡ some current_ix
    pub signed : OracleSigned oracle (slice current_ix.payload offset len)
    pub other : msg ≢ slice current_ix.payload offset len

  -- The message is signed, or other bytes are.
  abbrev pub SignedOrForeign : Sysvars → ℕ → ℕ → ℕ → List ℕ → Type 0
  SignedOrForeign v oracle offset len msg =
      OracleSigned oracle msg ⊎ Foreign v oracle offset len msg

same_or_other : (xs ys : List ℕ) → (xs ≡ ys) ⊎ (xs ≢ ys)
same_or_other [] [] = inl refl
same_or_other [] (y ∷ ys) = inr (λ e. absurd (cc))
same_or_other (x ∷ xs) [] = inr (λ e. absurd (cc))
same_or_other (x ∷ xs) (y ∷ ys) = elim (Bool-cases (x == y)) [
  | inr d ↦ inr (λ e. let heads : x ≡ y = cc in absurd (ground (arith, d, heads)))
  | inl d ↦
      let heads : x ≡ y = ==→eq x y d in
      elim (same_or_other xs ys) [
        | inl tails ↦ inl (cc)
        | inr other ↦ inr (λ e. let tails : xs ≡ ys = cc in other tails)
      ]
]

-- The pair that the loader gives.
record Loaded (v : Sysvars) (pair : InstructionPair) : Type 0 where
  current : v.load_current_index_checked ≡ some pair.current_index
  scanner : v.load_instruction_at_checked pair.current_index ≡ some pair.scanner_ix
  before : v.load_instruction_at_checked (pair.current_index - 1) ≡ some pair.precompile_ix

load_instruction_pair-Loaded :
    (v : Sysvars) (pair : InstructionPair) → load_instruction_pair v ≡ ok pair → Loaded v pair
unfolding load_instruction_pair
load_instruction_pair-Loaded v pair h = ok_or_ok v.load_current_index_checked _ _ h λ i fi h1.
    require_ok (leb 1 i) _ _ h1 λ c h2. ok_or_ok (v.load_instruction_at_checked i) _ _ h2 λ s fs h3.
      ok_or_ok (v.load_instruction_at_checked (i - 1)) _ _ h3 λ d fd h4.
        let same : Path InstructionPair
            (record { precompile_ix = d; scanner_ix = s; current_index = i }) pair =
          cc in
        subst (Loaded v) same (record { current = fi; scanner = fs; before = fd })

-- What the message must agree with, and what the record must be: the params and the message's
-- bytes.
abbrev pub asked : RecordLaunchPriceParams → ProtocolConfig → LaunchPriceAttestationRef
asked p cfg = record {
  msg = p.msg;
  amm_program_id = p.amm_program_id;
  pool_address = p.pool_address;
  base_mint = p.base_mint;
  quote_mint = p.quote_mint;
  launch_price_q64x64 = p.launch_price_q64x64;
  oracle = cfg.launch_price_oracle;
}

abbrev pub baseline_record : Clock → ℕ → RecordLaunchPriceParams → LaunchPrice
baseline_record clock bump p = record {
  amm_program_id = p.amm_program_id;
  pool_address = p.pool_address;
  base_mint = p.base_mint;
  quote_mint = p.quote_mint;
  launch_price_q64x64 = p.launch_price_q64x64;
  first_swap_slot = le_value (slice p.msg 128 8);
  first_swap_unix_ts = i64_of_u64 (le_value (slice p.msg 136 8));
  recorded_slot = clock.slot;
  recorded_at = clock.unix_timestamp;
  bump = bump;
}

module _ (Verified : List ℕ → List ℕ → List ℕ → Type 0) where
  -- What the precompile accepted, the oracle signed: the bytes of the current instruction.
  offsets-OracleSigned :
      (v : Sysvars) (pair : InstructionPair) (oracle offset len min_len : ℕ) (msg : List ℕ)
      → RuntimeChecks Verified v
      → load_instruction_pair v ≡ ok pair
      → verify_ed25519_offsets_at pair.precompile_ix pair.current_index pair.scanner_ix.payload
          oracle offset len min_len
        ≡ ok tt
      → SignedOrForeign Verified v oracle offset len msg
  offsets-OracleSigned v pair oracle offset len min_len msg runtime loads passes =
      let l = load_instruction_pair-Loaded v pair loads in
      let d = pair.precompile_ix in
      let pinned =
        verify_ed25519_offsets_at-IsPinned d pair.current_index pair.scanner_ix.payload oracle
          offset len min_len passes in
      let small = runtime.few pair.current_index l.current in
      let bytes = slice pair.scanner_ix.payload offset len in
      let r =
        runtime.checked (pair.current_index - 1) d l.before pinned.program
          (omega (arith, pinned.count)) in
      let own_key : d.payload ≡ r.key_data = ground (arith, r.key_at, pinned.key_index) in
      let its_msg : pair.scanner_ix.payload ≡ r.msg_data =
        ground (arith, r.msg_at, pinned.message_index, l.scanner) in
      let same_msg : slice r.msg_data (u16_at d.payload 10) (u16_at d.payload 12) ≡ bytes =
        rw (← its_msg, pinned.message_offset, pinned.message_size) refl in
      let signed : OracleSigned Verified oracle bytes = (
        slice r.key_data (u16_at d.payload 6) 32,
        slice r.sig_data (u16_at d.payload 2) 64,
        rw (← own_key) pinned.key,
        subst
            (Verified (slice r.key_data (u16_at d.payload 6) 32)
              (slice r.sig_data (u16_at d.payload 2) 64))
            same_msg r.verified,
      ) in
      elim (same_or_other msg bytes) [
        | inl same ↦ inl (subst (OracleSigned Verified oracle) (sym same) signed)
        | inr other ↦ inr (record {
          index = pair.current_index;
          current_ix = pair.scanner_ix;
          current = l.current;
          loaded = l.scanner;
          signed = signed;
          other = other;
        })
      ]

  -- Where the runtime runs the precompile as documented: an attestation that passes gives the
  -- timestamp of the message, which is for this AMM and pool, with a timestamp that is not in the
  -- future and a fork's slot that the sysvar confirms. The oracle signed the message, or the
  -- program runs inside a call and the oracle signed other bytes, which stand at the message's
  -- place, 72 to 183, in the data of the transaction's current instruction.
  pub verify_last_swap_attestation-OracleSigned :
      (v : Sysvars) (att : AttestationRef) (now : ℤ) (now_slot : ℕ) (ts : ℤ)
      → RuntimeChecks Verified v
      → verify_last_swap_attestation v att now now_slot ≡ ok ts
      → SignedOrForeign Verified v att.oracle ix_data_msg_offset attestation_msg_len att.msg
        × (ts ≡ message_last_swap_unix_ts att.msg)
        × ((slot_hashes : List ℕ) × (v.slot_hashes_data ≡ some slot_hashes)
            × IsAttested att.msg att.amm_program_id att.pool_address now now_slot slot_hashes)
  unfolding verify_last_swap_attestation verify_ed25519_offsets
  verify_last_swap_attestation-OracleSigned v att now now_slot ts runtime h =
      bind_ok (load_instruction_pair v) _ h λ pair loads h1.
        bind_ok
          (verify_ed25519_offsets pair.precompile_ix pair.current_index pair.scanner_ix.payload
            att.oracle)
          _ h1
          λ _ passes h2. ok_or_ok v.slot_hashes_data _ _ h2 λ hashes fh h3.
            let verdict =
              subst (Verdict att.msg att.amm_program_id att.pool_address now now_slot hashes) h3 (
                verify_attestation_message-Verdict att.msg att.amm_program_id att.pool_address now
                  now_slot hashes) in
            (
              offsets-OracleSigned v pair att.oracle ix_data_msg_offset attestation_msg_len
                  ix_data_min_len att.msg runtime loads passes,
              verdict.0,
              (hashes, fh, verdict.1),
            )

  -- Where the runtime runs the precompile as documented: a launch price is recorded only where
  -- there is none, in an unpaused scanner, and only for a message that names the AMM, the pool, both
  -- mints and the price of the params. The record has these, and that price is positive; the time
  -- and the slot of the first swap, neither 0 nor in the future, are the message's. The oracle of
  -- launch prices signed the message, or the program runs inside a call and the oracle signed
  -- other bytes, which stand at the message's place, 152 to 319, in the data of the transaction's
  -- current instruction.
  pub record_launch_price-OracleSigned :
      (clock : Clock) (bump : ℕ) (v : Sysvars) (p : RecordLaunchPriceParams)
      (config : Option ProtocolConfig) (old : Option LaunchPrice) (u : LaunchPrice)
      → RuntimeChecks Verified v
      → record_launch_price clock bump v p config old ≡ ok u
      → (old ≡ none)
        × ((cfg : ProtocolConfig) × (config ≡ some cfg)
            × (cfg.paused ≡ false)
            × SignedOrForeign Verified v cfg.launch_price_oracle launch_price_msg_offset
                launch_price_msg_len p.msg
            × IsBaseline (asked p cfg) clock.unix_timestamp clock.slot
            × (u ≡ baseline_record clock bump p))
  unfolding record_launch_price verify_launch_price_attestation launch_price_ref new_launch_price
      launch_price_message_price launch_price_message_first_swap_slot
      launch_price_message_first_swap_ts
  record_launch_price-OracleSigned clock bump v p config (some l) u runtime h = absurd (cc)
  record_launch_price-OracleSigned clock bump v p config none u runtime h =
      ok_or_ok config account_not_initialized _ h λ cfg fc h1.
        require_ok (not cfg.paused) _ _ h1 λ e1 h2.
          let ref = launch_price_ref p cfg in
          bind_ok (verify_launch_price_attestation v ref clock.unix_timestamp clock.slot) _ h2
            λ a fa h3. bind_ok (load_instruction_pair v) _ fa λ pair loads f1.
              bind_ok
                (verify_ed25519_offsets_at pair.precompile_ix pair.current_index
                  pair.scanner_ix.payload ref.oracle launch_price_msg_offset launch_price_msg_len
                  launch_price_ix_min_len)
                _ f1
                λ _ passes f2.
                  let (same, baseline) =
                    message-IsBaseline ref clock.unix_timestamp clock.slot a f2 in
                  (
                    refl,
                    (
                      cfg,
                      fc,
                      ground arith,
                      offsets-OracleSigned v pair cfg.launch_price_oracle launch_price_msg_offset
                          launch_price_msg_len launch_price_ix_min_len p.msg runtime loads passes,
                      baseline,
                      rw (← baseline.echoed) (cc (same, h3)),
                    ),
                  )
