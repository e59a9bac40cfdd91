-- ===== src/Scanner/Config.antt =====
-- The three instructions that write the scanner's configuration:
-- programs/grave-scanner/src/instructions/{initialize,update_protocol_config,emergency_pause}.rs.
pub mod Invariant
use graveyield_protocol.Prelude.{
  ℕ, ℤ, pos, eqb_ℤ, leb_ℤ, Bool, true, false, not, Option, none, some, leb, ◌==◌, same,
  if◌then◌else◌, Result, ok, err, ◌>>=◌, ◌>>◌, require,
}
use graveyield_protocol.Scanner.Errors.{
  ScannerFailure, program, account_in_use, account_not_initialized, unauthorized,
  invariant_violation, cert_ttl_below_minimum,
}
use graveyield_protocol.Scanner.Constants.{
  default_inactivity_seconds, default_price_collapse_bps, default_min_tvl_lamports,
  default_lp_burn_dust_threshold, default_anchor_staleness_seconds, default_cert_ttl_seconds,
  min_cert_ttl_seconds, min_anchor_staleness_seconds,
}
use graveyield_protocol.Scanner.State.{ProtocolConfig}

pub record InitializeParams : Type 0 where
  pub authority : ℕ
  pub inactivity_seconds : ℕ
  pub price_collapse_bps : ℕ
  pub min_tvl_lamports : ℕ
  pub anchor_staleness_seconds : ℕ
  pub lp_burn_dust_threshold : ℕ
  pub cert_ttl_seconds : ℤ

pub record UpdateProtocolConfigParams : Type 0 where
  pub inactivity_seconds : Option ℕ
  pub price_collapse_bps : Option ℕ
  pub min_tvl_lamports : Option ℕ
  pub anchor_staleness_seconds : Option ℕ
  pub lp_burn_dust_threshold : Option ℕ
  pub cert_ttl_seconds : Option ℤ
  pub activity_oracle : Option ℕ
  pub launch_price_oracle : Option ℕ

abbrev pub or_default : ℕ → ℕ → ℕ
or_default v default = if v == 0 then default else v

abbrev pub assign {ℓ} : {A : Type ℓ} → Option A → A → A
assign none old = old
assign (some v) old = v

-- `if let Some(v) = params.x { require!(test(v), e); ... }`.
abbrev pub require_each :
    {A : Type 0} → Option A → (A → Bool) → ScannerFailure → Result ScannerFailure (Unit {0})
require_each none test e = ok tt
require_each (some v) test e = require (test v) e

-- The window as submitted, or the default.
abbrev pub initial_staleness : ℕ → Result ScannerFailure ℕ
initial_staleness v =
    if v == 0
    then ok default_anchor_staleness_seconds
    else require (leb min_anchor_staleness_seconds v) (program invariant_violation) >> ok v

abbrev pub initial_ttl : ℤ → ℤ
initial_ttl v = if eqb_ℤ v (pos 0) then default_cert_ttl_seconds else v

unfoldable pub initialize :
    ℕ → InitializeParams → Option ProtocolConfig → Result ScannerFailure ProtocolConfig
initialize bump p (some c) = err account_in_use
initialize bump p none = do
  staleness ← initial_staleness p.anchor_staleness_seconds
  require (leb_ℤ min_cert_ttl_seconds (initial_ttl p.cert_ttl_seconds))
      (program cert_ttl_below_minimum)
  ok (record {
    authority = p.authority;
    pending_authority = 0;
    pending_authority_eta = pos 0;
    inactivity_seconds = or_default p.inactivity_seconds default_inactivity_seconds;
    price_collapse_bps = or_default p.price_collapse_bps default_price_collapse_bps;
    min_tvl_lamports = or_default p.min_tvl_lamports default_min_tvl_lamports;
    anchor_staleness_seconds = staleness;
    lp_burn_dust_threshold = or_default p.lp_burn_dust_threshold default_lp_burn_dust_threshold;
    cert_ttl_seconds = initial_ttl p.cert_ttl_seconds;
    paused = false;
    activity_oracle = p.authority;
    launch_price_oracle = p.authority;
    bump = bump;
  })

unfoldable pub apply_config_update :
    UpdateProtocolConfigParams → ProtocolConfig → Result ScannerFailure ProtocolConfig
apply_config_update p cfg = do
  require_each p.price_collapse_bps (λ v. leb v 10000) (program invariant_violation)
  require_each p.anchor_staleness_seconds (leb min_anchor_staleness_seconds)
      (program invariant_violation)
  require_each p.cert_ttl_seconds (leb_ℤ min_cert_ttl_seconds) (program cert_ttl_below_minimum)
  ok (record cfg {
    inactivity_seconds = assign p.inactivity_seconds cfg.inactivity_seconds;
    price_collapse_bps = assign p.price_collapse_bps cfg.price_collapse_bps;
    min_tvl_lamports = assign p.min_tvl_lamports cfg.min_tvl_lamports;
    anchor_staleness_seconds = assign p.anchor_staleness_seconds cfg.anchor_staleness_seconds;
    lp_burn_dust_threshold = assign p.lp_burn_dust_threshold cfg.lp_burn_dust_threshold;
    cert_ttl_seconds = assign p.cert_ttl_seconds cfg.cert_ttl_seconds;
    activity_oracle = assign p.activity_oracle cfg.activity_oracle;
    launch_price_oracle = assign p.launch_price_oracle cfg.launch_price_oracle;
  })

-- `signer` is the key that signed as `authority`.
unfoldable pub update_protocol_config :
    ℕ → UpdateProtocolConfigParams → Option ProtocolConfig → Result ScannerFailure ProtocolConfig
update_protocol_config signer p none = err account_not_initialized
update_protocol_config signer p (some cfg) = do
  require (cfg.authority == signer) (program unauthorized)
  apply_config_update p cfg

unfoldable pub emergency_pause :
    ℕ → Bool → Option ProtocolConfig → Result ScannerFailure ProtocolConfig
emergency_pause signer paused none = err account_not_initialized
emergency_pause signer paused (some cfg) = do
  require (cfg.authority == signer) (program unauthorized)
  require (not (same cfg.paused paused)) (program invariant_violation)
  ok (record cfg { paused = paused })
