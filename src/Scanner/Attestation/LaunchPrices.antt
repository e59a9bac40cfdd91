-- ===== src/Scanner/Attestation/LaunchPrices.antt =====
-- The launch-price attestation of programs/grave-scanner/src/attestation.rs, its message of 168
-- bytes, and the instruction that records it,
-- programs/grave-scanner/src/instructions/record_launch_price.rs.
use graveyield_protocol.Prelude.{
  ℕ, ◌≤◌, ◌<◌, ◌≡◌, ℤ, pos, i64_of_u64, ◌≤ℤ◌, ◌<ℤ◌, Bool, not, ◌&&◌, ltb, ◌==◌, ==→eq, true, ltb→lt,
  Option, none, some, List, slice, le_value, key_of_bytes, Result, ok, err, ◌>>=◌, ◌>>◌, require,
  ok_or, require_ok, arith,
}
use graveyield_protocol.Vault.State.{Clock}
use graveyield_protocol.Scanner.Errors.{
  ScannerFailure, program, account_in_use, account_not_initialized, protocol_paused,
  attestation_binding_mismatch, invalid_launch_price, attestation_timestamp_invalid,
  attestation_slot_invalid,
}
use graveyield_protocol.Scanner.State.{ProtocolConfig, LaunchPrice}
use graveyield_protocol.Scanner.Attestation.{
  Sysvars, load_instruction_pair, verify_ed25519_offsets_at, launch_price_msg_offset,
  launch_price_msg_len, launch_price_ix_min_len,
}
use graveyield_protocol.Scanner.Attestation.LastSwap.{past_time, past_slot, names_pool}

unfoldable pub launch_price_message_price : List ℕ → ℕ
launch_price_message_price msg = le_value (slice msg 144 16)

unfoldable pub launch_price_message_first_swap_slot : List ℕ → ℕ
launch_price_message_first_swap_slot msg = le_value (slice msg 128 8)

unfoldable pub launch_price_message_first_swap_ts : List ℕ → ℤ
launch_price_message_first_swap_ts msg = i64_of_u64 (le_value (slice msg 136 8))

unfoldable pub launch_price_message_issued_slot : List ℕ → ℕ
launch_price_message_issued_slot msg = le_value (slice msg 160 8)

pub record LaunchPriceAttestationRef : Type 0 where
  pub msg : List ℕ
  pub amm_program_id : ℕ
  pub pool_address : ℕ
  pub base_mint : ℕ
  pub quote_mint : ℕ
  pub launch_price_q64x64 : ℕ
  pub oracle : ℕ

-- The price, the first swap's slot and its time.
pub record Attested : Type 0 where
  pub price : ℕ
  pub first_swap_slot : ℕ
  pub first_swap_ts : ℤ

abbrev pub attested : List ℕ → Attested
unfolding launch_price_message_price launch_price_message_first_swap_slot
    launch_price_message_first_swap_ts
attested msg = record {
  price = launch_price_message_price msg;
  first_swap_slot = launch_price_message_first_swap_slot msg;
  first_swap_ts = launch_price_message_first_swap_ts msg;
}

abbrev pub names_mints : List ℕ → ℕ → ℕ → Bool
names_mints msg base quote =
    key_of_bytes (slice msg 64 32) == base && key_of_bytes (slice msg 96 32) == quote

unfoldable pub verify_launch_price_message :
    LaunchPriceAttestationRef → ℤ → ℕ → Result ScannerFailure Attested
verify_launch_price_message att now_unix_ts now_slot =
    let msg = att.msg in
    let price = launch_price_message_price msg in
    let first_swap_ts = launch_price_message_first_swap_ts msg in
    let first_swap_slot = launch_price_message_first_swap_slot msg in
    let issued_slot = launch_price_message_issued_slot msg in
    do
      require (names_pool msg att.amm_program_id att.pool_address)
          (program attestation_binding_mismatch)
      require (names_mints msg att.base_mint att.quote_mint) (program attestation_binding_mismatch)
      require (price == att.launch_price_q64x64) (program attestation_binding_mismatch)
      require (ltb 0 price) (program invalid_launch_price)
      require (past_time first_swap_ts now_unix_ts) (program attestation_timestamp_invalid)
      require (past_slot first_swap_slot now_slot) (program attestation_slot_invalid)
      require (past_slot issued_slot now_slot) (program attestation_slot_invalid)
      ok (attested msg)

unfoldable pub verify_launch_price_attestation :
    Sysvars → LaunchPriceAttestationRef → ℤ → ℕ → Result ScannerFailure Attested
verify_launch_price_attestation v att now_unix_ts now_slot = do
  pair ← load_instruction_pair v
  verify_ed25519_offsets_at pair.precompile_ix pair.current_index pair.scanner_ix.payload att.oracle
      launch_price_msg_offset launch_price_msg_len launch_price_ix_min_len
  verify_launch_price_message att now_unix_ts now_slot

pub record RecordLaunchPriceParams : Type 0 where
  pub amm_program_id : ℕ
  pub pool_address : ℕ
  pub base_mint : ℕ
  pub quote_mint : ℕ
  pub launch_price_q64x64 : ℕ
  pub msg : List ℕ

-- What the params say, with the oracle that the config names.
unfoldable pub launch_price_ref :
    RecordLaunchPriceParams → ProtocolConfig → LaunchPriceAttestationRef
launch_price_ref p cfg = record {
  msg = p.msg;
  amm_program_id = p.amm_program_id;
  pool_address = p.pool_address;
  base_mint = p.base_mint;
  quote_mint = p.quote_mint;
  launch_price_q64x64 = p.launch_price_q64x64;
  oracle = cfg.launch_price_oracle;
}

-- The account as written.
unfoldable pub new_launch_price : Clock → ℕ → RecordLaunchPriceParams → Attested → LaunchPrice
new_launch_price clock bump p a = record {
  amm_program_id = p.amm_program_id;
  pool_address = p.pool_address;
  base_mint = p.base_mint;
  quote_mint = p.quote_mint;
  launch_price_q64x64 = a.price;
  first_swap_slot = a.first_swap_slot;
  first_swap_unix_ts = a.first_swap_ts;
  recorded_slot = clock.slot;
  recorded_at = clock.unix_timestamp;
  bump = bump;
}

-- The handler, on the pool's launch-price account: what it writes there.
unfoldable pub record_launch_price :
    Clock
    → ℕ
    → Sysvars
    → RecordLaunchPriceParams
    → Option ProtocolConfig
    → Option LaunchPrice
    → Result ScannerFailure LaunchPrice
record_launch_price clock bump v p config (some old) = err account_in_use
record_launch_price clock bump v p config none = do
  cfg ← ok_or config account_not_initialized
  require (not cfg.paused) (program protocol_paused)
  a ← verify_launch_price_attestation v (launch_price_ref p cfg) clock.unix_timestamp clock.slot
  ok (new_launch_price clock bump p a)

-- A launch-price message that passes: it names the AMM, the pool, the mints and the price of the
-- params, and its price, times and slots are sane.
pub record IsBaseline (att : LaunchPriceAttestationRef) (now : ℤ) (now_slot : ℕ) : Type 0 where
  pub amm : key_of_bytes (slice att.msg 0 32) ≡ att.amm_program_id
  pub pool : key_of_bytes (slice att.msg 32 32) ≡ att.pool_address
  pub base : key_of_bytes (slice att.msg 64 32) ≡ att.base_mint
  pub quote : key_of_bytes (slice att.msg 96 32) ≡ att.quote_mint
  pub echoed : le_value (slice att.msg 144 16) ≡ att.launch_price_q64x64
  pub positive : 0 < le_value (slice att.msg 144 16)
  pub after_1970 : pos 0 <ℤ i64_of_u64 (le_value (slice att.msg 136 8))
  pub past : i64_of_u64 (le_value (slice att.msg 136 8)) ≤ℤ now
  pub slot_positive : 0 < le_value (slice att.msg 128 8)
  pub slot_past : le_value (slice att.msg 128 8) ≤ now_slot
  pub issued_positive : 0 < le_value (slice att.msg 160 8)
  pub issued_past : le_value (slice att.msg 160 8) ≤ now_slot

past_time-split : (t now : ℤ) → past_time t now ≡ true → (pos 0 <ℤ t) × (t ≤ℤ now)
past_time-split t now c = (ground (arith, c), ground (arith, c))

past_slot-split : (slot now : ℕ) → past_slot slot now ≡ true → (0 < slot) × (slot ≤ now)
past_slot-split slot now c = (ground (arith, c), ground (arith, c))

pub message-IsBaseline :
    (att : LaunchPriceAttestationRef) (now : ℤ) (now_slot : ℕ) (a : Attested)
    → verify_launch_price_message att now now_slot ≡ ok a
    → (a ≡ attested att.msg) × IsBaseline att now now_slot
unfolding verify_launch_price_message launch_price_message_price
    launch_price_message_first_swap_slot launch_price_message_first_swap_ts
    launch_price_message_issued_slot
message-IsBaseline att now now_slot a h =
    require_ok (names_pool att.msg att.amm_program_id att.pool_address) _ _ h λ c1 h1.
      require_ok (names_mints att.msg att.base_mint att.quote_mint) _ _ h1 λ c2 h2.
        require_ok (launch_price_message_price att.msg == att.launch_price_q64x64) _ _ h2 λ c3 h3.
          require_ok (ltb 0 (launch_price_message_price att.msg)) _ _ h3 λ c4 h4.
            require_ok (past_time (launch_price_message_first_swap_ts att.msg) now) _ _ h4 λ c5 h5.
              require_ok (past_slot (launch_price_message_first_swap_slot att.msg) now_slot) _ _ h5
                λ c6 h6.
                  require_ok (past_slot (launch_price_message_issued_slot att.msg) now_slot) _ _ h6
                    λ c7 h7.
                      let same : a ≡ attested att.msg = cc in
                      (
                        same,
                        record {
                          amm = ground (arith, c1);
                          pool = ground (arith, c1);
                          base = ground (arith, c2);
                          quote = ground (arith, c2);
                          echoed = ==→eq _ _ c3;
                          positive = ltb→lt 0 _ c4;
                          after_1970 = (past_time-split _ now c5).0;
                          past = (past_time-split _ now c5).1;
                          slot_positive = (past_slot-split _ now_slot c6).0;
                          slot_past = (past_slot-split _ now_slot c6).1;
                          issued_positive = (past_slot-split _ now_slot c7).0;
                          issued_past = (past_slot-split _ now_slot c7).1;
                        },
                      )
