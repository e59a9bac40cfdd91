-- ===== src/Scanner/State.antt =====
-- programs/grave-scanner/src/state/: the four account types, without their reserved bytes.
use graveyield_protocol.Prelude.{ℕ, ℤ, Bool, leb_ℤ}

pub record ProtocolConfig : Type 0 where
  pub authority : ℕ
  pub pending_authority : ℕ
  pub pending_authority_eta : ℤ
  pub inactivity_seconds : ℕ
  pub price_collapse_bps : ℕ
  pub min_tvl_lamports : ℕ
  pub anchor_staleness_seconds : ℕ
  pub lp_burn_dust_threshold : ℕ
  pub cert_ttl_seconds : ℤ
  pub paused : Bool
  pub activity_oracle : ℕ
  pub launch_price_oracle : ℕ
  pub bump : ℕ

pub record LaunchPrice : Type 0 where
  pub amm_program_id : ℕ
  pub pool_address : ℕ
  pub base_mint : ℕ
  pub quote_mint : ℕ
  pub launch_price_q64x64 : ℕ
  pub first_swap_slot : ℕ
  pub first_swap_unix_ts : ℤ
  pub recorded_slot : ℕ
  pub recorded_at : ℤ
  pub bump : ℕ

pub record EligibilityAnchor : Type 0 where
  pub amm_program_id : ℕ
  pub pool_address : ℕ
  pub writer : ℕ
  pub first_eligible_epoch : ℕ
  pub written_at : ℤ
  pub invalidated : Bool
  pub criteria_bitmap : ℕ
  pub bump : ℕ

pub record EligibilityCert : Type 0 where
  pub amm_program_id : ℕ
  pub pool_address : ℕ
  pub writer : ℕ
  pub anchor_epoch : ℕ
  pub cert_epoch : ℕ
  pub issued_at : ℤ
  pub expires_at : ℤ
  pub criteria_bitmap : ℕ
  pub reissue_generation : ℕ
  pub bump : ℕ

-- `EligibilityCert::is_expired`, at and after the end of its window.
unfoldable pub is_expired : EligibilityCert → ℤ → Bool
is_expired cert now = leb_ℤ cert.expires_at now
