-- ===== src/Vault/Proceeds.antt =====
-- The arithmetic of programs/grave-vault/src/instructions/salvage_pool.rs: the settlement split,
-- the slippage cap, and the lowest floor that a salvor may submit.
pub mod Laws
use graveyield_protocol.Prelude.{
  ℕ, ◌+◌, ◌-◌, ◌*◌, Bool, Option, none, some, leb, ltb, min, if◌then◌else◌, Result, ok, err, ◌>>=◌,
  ◌>>◌, require, ok_or, u128_mod, checked_mul, checked_div, checked_sub, as_u64,
}
use graveyield_protocol.Vault.Errors.{VaultFailure, program, math_overflow}
use graveyield_protocol.Vault.Constants.{bps_denominator, hard_max_slippage_bps}

-- `effective_slippage_cap_bps`.
unfoldable pub effective_slippage_cap_bps : ℕ → Option ℕ → ℕ
effective_slippage_cap_bps config_bps none = min config_bps hard_max_slippage_bps
effective_slippage_cap_bps config_bps (some o) = min (min config_bps hard_max_slippage_bps) o

-- `(total as u128).checked_mul(bps)?.checked_div(10_000)? as u64`.
unfoldable pub bps_share : ℕ → ℕ → Result VaultFailure ℕ
bps_share total bps = do
  product ← ok_or (checked_mul u128_mod total bps) (program math_overflow)
  quotient ← ok_or (checked_div product bps_denominator) (program math_overflow)
  ok (as_u64 quotient)

-- `total.checked_sub(a).and_then(|x| x.checked_sub(b))`.
abbrev pub sub_both : ℕ → ℕ → ℕ → Option ℕ
sub_both total a b = elim (checked_sub total a) [ none ↦ none | some x ↦ checked_sub x b ]

-- The salvor's, the LP holders' and the protocol's amounts.
unfoldable pub split_proceeds : ℕ → ℕ → ℕ → Result VaultFailure (ℕ × ℕ × ℕ)
unfolding bps_share
split_proceeds total salvor_share_bps lp_holder_share_bps = do
  salvor ← bps_share total salvor_share_bps
  lp ← bps_share total lp_holder_share_bps
  protocol ← ok_or (sub_both total salvor lp) (program math_overflow)
  ok (salvor, lp, protocol)

-- The pool-implied conversion of the memecoin received, less the cap.
unfoldable pub minimum_floor : ℕ → ℕ → ℕ → ℕ → Result VaultFailure ℕ
minimum_floor memecoin_received wsol_reserve memecoin_reserve cap_bps = do
  require (ltb 0 memecoin_reserve) (program math_overflow)
  product ← ok_or (checked_mul u128_mod memecoin_received wsol_reserve) (program math_overflow)
  implied ← ok_or (checked_div product memecoin_reserve) (program math_overflow)
  scaled ← ok_or (checked_mul u128_mod implied (bps_denominator - cap_bps)) (program math_overflow)
  ok_or (checked_div scaled bps_denominator) (program math_overflow)
