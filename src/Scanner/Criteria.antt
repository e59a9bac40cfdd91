-- ===== src/Scanner/Criteria.antt =====
-- programs/grave-scanner/src/criteria.rs: the six criteria. The flags are distinct bits, so `|=` of
-- a flag that is not yet set is an addition.
pub mod Laws
use graveyield_protocol.Prelude.{
  ℕ, ◌+◌, ◌-◌, ℤ, pos_part, neg_part, leb_ℤ, Option, leb, ltb, ◌==◌, if◌then◌else◌, u128_mod,
  checked_sub, checked_mul, checked_div, as_u16, Result, ok, err, ◌>>=◌, ◌>>◌, require, ok_or,
}
use graveyield_protocol.Scanner.Errors.{
  ScannerFailure, program, math_overflow, invalid_clock, pool_not_eligible, launch_price_not_found,
  anchor_not_found, epoch_confirmation_pending,
}
use graveyield_protocol.Scanner.Constants.{
  min_epoch_confirmation, criterion_inactivity, criterion_price_collapse, criterion_min_tvl,
  criterion_lp_not_burned, criterion_no_lock, criterion_epoch_confirmed, all_criteria_mask,
}

pub record CriteriaInputs : Type 0 where
  pub last_swap_unix_ts : ℤ
  pub current_unix_ts : ℤ
  pub launch_price_q64x64 : ℕ
  pub current_price_q64x64 : ℕ
  pub current_tvl_lamports : ℕ
  pub lp_supply : ℕ
  pub lp_locked_amount : ℕ
  pub current_epoch : ℕ
  pub anchor_first_eligible_epoch : Option ℕ

pub record CriteriaThresholds : Type 0 where
  pub inactivity_seconds : ℕ
  pub price_collapse_bps : ℕ
  pub min_tvl_lamports : ℕ
  pub lp_burn_dust_threshold : ℕ

pub data Phase : Type 0 where
  one two : Phase

unfoldable pub compute_drop_bps : ℕ → ℕ → Result ScannerFailure ℕ
compute_drop_bps launch current = if leb launch current then ok 0 else do
  delta ← ok_or (checked_sub launch current) (program math_overflow)
  scaled ← ok_or (checked_mul u128_mod delta 10000) (program math_overflow)
  bps ← ok_or (checked_div scaled launch) (program math_overflow)
  ok (if ltb 10000 bps then 10000 else as_u16 bps)

-- The difference of two timestamps where the first is not earlier; in i128 it cannot overflow.
abbrev pub elapsed_seconds : ℤ → ℤ → ℕ
elapsed_seconds now then_ts = (pos_part now + neg_part then_ts) - (pos_part then_ts + neg_part now)

-- The flag of the sixth criterion. Phase 1 sets it without a test.
unfoldable pub epoch_criterion : Phase → CriteriaInputs → Result ScannerFailure ℕ
epoch_criterion one i = ok criterion_epoch_confirmed
epoch_criterion two i = do
  anchor_epoch ← ok_or i.anchor_first_eligible_epoch (program anchor_not_found)
  require (leb min_epoch_confirmation (i.current_epoch - anchor_epoch))
      (program epoch_confirmation_pending)
  ok criterion_epoch_confirmed

unfoldable pub evaluate : CriteriaInputs → CriteriaThresholds → Phase → Result ScannerFailure ℕ
evaluate i t phase = do
  require (leb_ℤ i.last_swap_unix_ts i.current_unix_ts) (program invalid_clock)
  require (leb t.inactivity_seconds (elapsed_seconds i.current_unix_ts i.last_swap_unix_ts))
      (program pool_not_eligible)
  let b1 = 0 + criterion_inactivity
  require (ltb 0 i.launch_price_q64x64) (program launch_price_not_found)
  drop_bps ← compute_drop_bps i.launch_price_q64x64 i.current_price_q64x64
  require (leb t.price_collapse_bps drop_bps) (program pool_not_eligible)
  let b2 = b1 + criterion_price_collapse
  require (leb t.min_tvl_lamports i.current_tvl_lamports) (program pool_not_eligible)
  let b3 = b2 + criterion_min_tvl
  require (ltb t.lp_burn_dust_threshold i.lp_supply) (program pool_not_eligible)
  let b4 = b3 + criterion_lp_not_burned
  require (i.lp_locked_amount == 0) (program pool_not_eligible)
  let b5 = b4 + criterion_no_lock
  flag ← epoch_criterion phase i
  let bitmap = b5 + flag
  require (bitmap == all_criteria_mask) (program pool_not_eligible)
  ok bitmap
