-- ===== src/Scanner/Pools.antt =====
-- The life of a pool in the scanner: programs/grave-scanner/src/instructions/
-- {evaluate_pool_phase1,evaluate_pool_phase2,invalidate_anchor,sweep_stale_anchor}.rs. The phases
-- call the attestation, the pool adapter and the locker adapter on the instruction's `Evidence`.
-- Rents are not modelled.
pub mod Effects
pub mod Lifecycle
pub mod Evidenced
pub mod Baseline
use graveyield_protocol.Prelude.{
  ℕ, ◌+◌, ◌-◌, ◌*◌, ◌/◌, ◌%◌, ◌^◌, ℤ, pos, checked_add_i64, Bool, true, false, not, ◌&&◌, List,
  Option, none, some, leb, ltb, max, ◌==◌, if◌then◌else◌, u64_mod, u128_mod, checked_add,
  checked_div, saturating_add, Result, ok, err, ◌>>=◌, ◌>>◌, require, ok_or,
}
use graveyield_protocol.Vault.State.{Clock}
use graveyield_protocol.Scanner.Errors.{
  ScannerFailure, program, account_in_use, account_not_initialized, unauthorized, math_overflow,
  pool_data_parse_error, protocol_paused, criteria_bitmap_mismatch, anchor_invalidated,
  anchor_not_stale, launch_price_mint_mismatch, cert_still_valid,
}
use graveyield_protocol.Scanner.Constants.{
  min_anchor_staleness_seconds, approx_epoch_duration_seconds,
}
use graveyield_protocol.Scanner.State.{
  ProtocolConfig, LaunchPrice, EligibilityAnchor, EligibilityCert, is_expired,
}
use graveyield_protocol.Vault.Cpi.{AccountInfo}
use graveyield_protocol.Scanner.Attestation.{Sysvars}
use graveyield_protocol.Scanner.Attestation.LastSwap.{verify_last_swap_attestation}
use graveyield_protocol.Scanner.Attestation.LaunchPrices.{
  RecordLaunchPriceParams, record_launch_price,
}
use graveyield_protocol.Scanner.Adapters.{current_price_q64x64}
use graveyield_protocol.Scanner.Adapters.Dispatch.{extract_pool_data}
use graveyield_protocol.Scanner.Adapters.Locker.{FindProgramAddress, locked_lp_amount}
use graveyield_protocol.Scanner.Criteria.{
  CriteriaInputs, CriteriaThresholds, Phase, one, two, evaluate,
}

-- A table by AMM program and pool.
abbrev pub ByPool : Type 0 → Type 0
ByPool A = ℕ → ℕ → Option A

abbrev pub put_pool : {A : Type 0} → ByPool A → ℕ → ℕ → Option A → ByPool A
put_pool t amm pool o a p = if a == amm && p == pool then o else t a p

pub record Scanner : Type 0 where
  pub config : Option ProtocolConfig
  pub launch_prices : ByPool LaunchPrice
  pub anchors : ByPool EligibilityAnchor
  pub certs : ByPool EligibilityCert

-- What an instruction brings as evidence: the sysvars, the attestation of its params, the pool's
-- account and the remaining accounts.
pub record Evidence : Type 0 where
  pub sysvars : Sysvars
  pub msg : List ℕ
  pub pool_account : AccountInfo
  pub remaining_accounts : List AccountInfo

-- The thresholds of a config.
unfoldable pub thresholds : ProtocolConfig → CriteriaThresholds
thresholds cfg = record {
  inactivity_seconds = cfg.inactivity_seconds;
  price_collapse_bps = cfg.price_collapse_bps;
  min_tvl_lamports = cfg.min_tvl_lamports;
  lp_burn_dust_threshold = cfg.lp_burn_dust_threshold;
}

-- The inputs of either phase, from the attestation to the end of the locker's check. `pda` is
-- `Pubkey::find_program_address`.
unfoldable pub criteria_inputs :
    FindProgramAddress
    → Clock
    → ProtocolConfig
    → LaunchPrice
    → Option ℕ
    → ℕ
    → ℕ
    → Evidence
    → Result ScannerFailure CriteriaInputs
unfolding current_price_q64x64
criteria_inputs pda clock cfg launch anchor_epoch amm pool e = do
  last_swap ←
      verify_last_swap_attestation e.sysvars
        (record {
          msg = e.msg;
          amm_program_id = amm;
          pool_address = pool;
          oracle = cfg.activity_oracle;
        })
        clock.unix_timestamp clock.slot
  d ← extract_pool_data e.pool_account pool e.remaining_accounts
  require (launch.base_mint == d.base_mint && launch.quote_mint == d.quote_mint)
      (program launch_price_mint_mismatch)
  locked ← locked_lp_amount pda d.lp_mint pool e.remaining_accounts
  price ← current_price_q64x64 d
  ok (record {
    last_swap_unix_ts = last_swap;
    current_unix_ts = clock.unix_timestamp;
    launch_price_q64x64 = launch.launch_price_q64x64;
    current_price_q64x64 = price;
    current_tvl_lamports = d.quote_reserve;
    lp_supply = d.lp_supply;
    lp_locked_amount = locked;
    current_epoch = clock.epoch;
    anchor_first_eligible_epoch = anchor_epoch;
  })

abbrev pub vacant : {A : Type 0} → Option A → Bool
vacant o = elim o [ none ↦ true | some a ↦ false ]

-- The anchor as written.
unfoldable pub new_anchor : Clock → ℕ → ℕ → ℕ → ℕ → ℕ → EligibilityAnchor
new_anchor clock bump writer amm pool bitmap = record {
  amm_program_id = amm;
  pool_address = pool;
  writer = writer;
  first_eligible_epoch = clock.epoch;
  written_at = clock.unix_timestamp;
  invalidated = false;
  criteria_bitmap = bitmap;
  bump = bump;
}

-- The account of a launch price stands at the address of its params' AMM and pool.
unfoldable pub record_price :
    Clock → ℕ → Sysvars → RecordLaunchPriceParams → Scanner → Result ScannerFailure Scanner
record_price clock bump v p s = do
  l ← record_launch_price clock bump v p s.config (s.launch_prices p.amm_program_id p.pool_address)
  ok (record s {
    launch_prices = put_pool s.launch_prices p.amm_program_id p.pool_address (some l);
  })

unfoldable pub evaluate_pool_phase1 :
    FindProgramAddress → Clock → ℕ → ℕ → ℕ → ℕ → Evidence → Scanner → Result ScannerFailure Scanner
evaluate_pool_phase1 pda clock bump writer amm pool e s = do
  cfg ← ok_or s.config account_not_initialized
  require (vacant (s.anchors amm pool)) account_in_use
  launch ← ok_or (s.launch_prices amm pool) account_not_initialized
  require (not cfg.paused) (program protocol_paused)
  inputs ← criteria_inputs pda clock cfg launch none amm pool e
  bitmap ← evaluate inputs (thresholds cfg) one
  ok (record s {
    anchors = put_pool s.anchors amm pool (some (new_anchor clock bump writer amm pool bitmap));
  })

-- The certificate that `init_if_needed` gives: the one that is there, or zeroes.
abbrev pub cert_or_zero : Option EligibilityCert → EligibilityCert
cert_or_zero (some c) = c
cert_or_zero none = record {
  amm_program_id = 0;
  pool_address = 0;
  writer = 0;
  anchor_epoch = 0;
  cert_epoch = 0;
  issued_at = pos 0;
  expires_at = pos 0;
  criteria_bitmap = 0;
  reissue_generation = 0;
  bump = 0;
}

-- The certificate as written over the old one, given its end.
unfoldable pub new_cert : Clock → ℕ → ℕ → ℕ → ℕ → EligibilityAnchor → ℕ → ℤ → ℕ → EligibilityCert
new_cert clock bump writer amm pool anchor bitmap expires generation = record {
  amm_program_id = amm;
  pool_address = pool;
  writer = writer;
  anchor_epoch = anchor.first_eligible_epoch;
  cert_epoch = clock.epoch;
  issued_at = clock.unix_timestamp;
  expires_at = expires;
  criteria_bitmap = bitmap;
  reissue_generation = generation;
  bump = bump;
}

unfoldable pub evaluate_pool_phase2 :
    FindProgramAddress → Clock → ℕ → ℕ → ℕ → ℕ → Evidence → Scanner → Result ScannerFailure Scanner
evaluate_pool_phase2 pda clock bump writer amm pool e s = do
  cfg ← ok_or s.config account_not_initialized
  anchor ← ok_or (s.anchors amm pool) account_not_initialized
  launch ← ok_or (s.launch_prices amm pool) account_not_initialized
  let old = cert_or_zero (s.certs amm pool)
  require (not cfg.paused) (program protocol_paused)
  require (not anchor.invalidated) (program anchor_invalidated)
  inputs ← criteria_inputs pda clock cfg launch (some anchor.first_eligible_epoch) amm pool e
  bitmap ← evaluate inputs (thresholds cfg) two
  require (bitmap == anchor.criteria_bitmap) (program criteria_bitmap_mismatch)
  require (is_expired old clock.unix_timestamp) (program cert_still_valid)
  expires ←
      ok_or (checked_add_i64 clock.unix_timestamp cfg.cert_ttl_seconds) (program math_overflow)
  generation ← ok_or (checked_add u64_mod old.reissue_generation 1) (program math_overflow)
  ok (record s {
    certs =
        put_pool s.certs amm pool
          (some (new_cert clock bump writer amm pool anchor bitmap expires generation));
  })

-- `signer` signed as `authority`.
unfoldable pub invalidate_anchor : ℕ → ℕ → ℕ → Scanner → Result ScannerFailure Scanner
invalidate_anchor signer amm pool s = do
  cfg ← ok_or s.config account_not_initialized
  anchor ← ok_or (s.anchors amm pool) account_not_initialized
  require (cfg.authority == signer) (program unauthorized)
  require (not anchor.invalidated) (program anchor_invalidated)
  ok (record s {
    anchors = put_pool s.anchors amm pool (some (record anchor { invalidated = true }));
  })

unfoldable pub sweep_gate : ℕ → ℕ → ℕ → Result ScannerFailure (Unit {0})
sweep_gate first_eligible_epoch configured_staleness_seconds current_epoch =
    let staleness_seconds = max configured_staleness_seconds min_anchor_staleness_seconds in
    do
      staleness_epochs ←
          ok_or
            (checked_div
              (saturating_add u64_mod staleness_seconds (approx_epoch_duration_seconds - 1))
              approx_epoch_duration_seconds)
            (program math_overflow)
      earliest ←
          ok_or (checked_add u64_mod first_eligible_epoch staleness_epochs) (program math_overflow)
      require (ltb earliest current_epoch) (program anchor_not_stale)

-- The handler, with the account closed at its end.
unfoldable pub sweep_stale_anchor : Clock → ℕ → ℕ → ℕ → Scanner → Result ScannerFailure Scanner
unfolding sweep_gate
sweep_stale_anchor clock anchor_writer amm pool s = do
  cfg ← ok_or s.config account_not_initialized
  anchor ← ok_or (s.anchors amm pool) account_not_initialized
  require (anchor.writer == anchor_writer) (program unauthorized)
  sweep_gate anchor.first_eligible_epoch cfg.anchor_staleness_seconds clock.epoch
  ok (record s { anchors = put_pool s.anchors amm pool none })
