-- ===== src/Vault/Config.antt =====
-- The three instructions that write the vault's configuration:
-- programs/grave-vault/src/instructions/{initialize,update_protocol_config,emergency_pause}.rs.
pub mod Invariant
use graveyield_protocol.Prelude.{
  ℕ, ◌+◌, ℤ, pos, eqb_ℤ, Bool, true, false, not, Option, none, some, leb, ◌==◌, same, if◌then◌else◌,
  Result, ok, err, ◌>>=◌, ◌>>◌, require, ok_or,
}
use graveyield_protocol.Vault.Errors.{
  VaultFailure, program, account_in_use, account_not_initialized, unauthorized, invalid_share_split,
  protocol_share_exceeds_ceiling, slippage_exceeded, invariant_violation,
}
use graveyield_protocol.Vault.Constants.{
  protocol_share_bps_ceiling, default_protocol_share_bps, default_lp_holder_share_bps,
  default_salvor_share_bps, default_max_priority_fee_ceiling_lamports, default_max_slippage_bps,
  default_jupiter_dust_threshold_lamports, default_timelock_seconds,
}
use graveyield_protocol.Vault.State.{ProtocolConfig, Vault}

pub record InitializeParams : Type 0 where
  pub authority : ℕ
  pub lp_holder_share_bps : ℕ
  pub salvor_share_bps : ℕ
  pub protocol_share_bps : ℕ
  pub max_priority_fee_ceiling_lamports : ℕ
  pub max_slippage_bps : ℕ
  pub jupiter_dust_threshold_lamports : ℕ
  pub timelock_seconds : ℤ

pub record UpdateProtocolConfigParams : Type 0 where
  pub lp_holder_share_bps : Option ℕ
  pub salvor_share_bps : Option ℕ
  pub protocol_share_bps : Option ℕ
  pub max_priority_fee_ceiling_lamports : Option ℕ
  pub max_slippage_bps : Option ℕ
  pub jupiter_dust_threshold_lamports : Option ℕ
  pub timelock_seconds : Option ℤ

-- `if params.x == 0 { DEFAULT } else { params.x }`.
abbrev pub or_default : ℕ → ℕ → ℕ
or_default v default = if v == 0 then default else v

-- `if let Some(v) = params.x { cfg.x = v; }`.
abbrev pub assign {ℓ} : {A : Type ℓ} → Option A → A → A
assign none old = old
assign (some v) old = v

-- `if let Some(v) = params.x { require!(v <= bound, e); ... }`.
abbrev pub require_at_most : Option ℕ → ℕ → VaultFailure → Result VaultFailure (Unit {0})
require_at_most none bound e = ok tt
require_at_most (some v) bound e = require (leb v bound) e

-- The configuration that `initialize` writes, before its two checks.
initial_config : ℕ → InitializeParams → ProtocolConfig
initial_config bump p = record {
  authority = p.authority;
  pending_authority = 0;
  pending_authority_eta = pos 0;
  lp_holder_share_bps = or_default p.lp_holder_share_bps default_lp_holder_share_bps;
  salvor_share_bps = or_default p.salvor_share_bps default_salvor_share_bps;
  protocol_share_bps = or_default p.protocol_share_bps default_protocol_share_bps;
  max_priority_fee_ceiling_lamports =
      or_default p.max_priority_fee_ceiling_lamports default_max_priority_fee_ceiling_lamports;
  max_slippage_bps = or_default p.max_slippage_bps default_max_slippage_bps;
  jupiter_dust_threshold_lamports =
      or_default p.jupiter_dust_threshold_lamports default_jupiter_dust_threshold_lamports;
  timelock_seconds =
      if eqb_ℤ p.timelock_seconds (pos 0) then default_timelock_seconds else p.timelock_seconds;
  emergency_paused = false;
  bump = bump;
}

-- The sum in u32 of three u16 shares, which cannot wrap.
abbrev pub share_total : ProtocolConfig → ℕ
share_total c = c.lp_holder_share_bps + c.salvor_share_bps + c.protocol_share_bps

unfoldable pub initialize :
    ℕ → InitializeParams → Option ProtocolConfig → Result VaultFailure ProtocolConfig
unfolding initial_config
initialize bump p (some c) = err account_in_use
initialize bump p none =
    let cfg = initial_config bump p in
    do
      require (leb cfg.protocol_share_bps protocol_share_bps_ceiling)
          (program protocol_share_exceeds_ceiling)
      require (share_total cfg == 10000) (program invalid_share_split)
      ok cfg

-- The shares after the first three assignments of `update_protocol_config`.
with_shares : UpdateProtocolConfigParams → ProtocolConfig → ProtocolConfig
with_shares p cfg = record cfg {
  lp_holder_share_bps = assign p.lp_holder_share_bps cfg.lp_holder_share_bps;
  salvor_share_bps = assign p.salvor_share_bps cfg.salvor_share_bps;
  protocol_share_bps = assign p.protocol_share_bps cfg.protocol_share_bps;
}

with_limits : UpdateProtocolConfigParams → ProtocolConfig → ProtocolConfig
with_limits p cfg = record cfg {
  max_priority_fee_ceiling_lamports =
      assign p.max_priority_fee_ceiling_lamports cfg.max_priority_fee_ceiling_lamports;
  max_slippage_bps = assign p.max_slippage_bps cfg.max_slippage_bps;
  jupiter_dust_threshold_lamports =
      assign p.jupiter_dust_threshold_lamports cfg.jupiter_dust_threshold_lamports;
  timelock_seconds = assign p.timelock_seconds cfg.timelock_seconds;
}

-- `signer` is the key that signed as `authority`.
unfoldable pub update_protocol_config :
    ℕ → UpdateProtocolConfigParams → Option ProtocolConfig → Result VaultFailure ProtocolConfig
unfolding with_shares with_limits
update_protocol_config signer p none = err account_not_initialized
update_protocol_config signer p (some old) =
    let cfg = with_shares p old in
    do
      require (old.authority == signer) (program unauthorized)
      require_at_most p.protocol_share_bps protocol_share_bps_ceiling
          (program protocol_share_exceeds_ceiling)
      require (share_total cfg == 10000) (program invalid_share_split)
      require_at_most p.max_slippage_bps 10000 (program slippage_exceeded)
      ok (with_limits p cfg)

unfoldable pub emergency_pause :
    ℕ → Bool → Option ProtocolConfig → Result VaultFailure ProtocolConfig
emergency_pause signer paused none = err account_not_initialized
emergency_pause signer paused (some cfg) = do
  require (cfg.authority == signer) (program unauthorized)
  require (not (same cfg.emergency_paused paused)) (program invariant_violation)
  ok (record cfg { emergency_paused = paused })
