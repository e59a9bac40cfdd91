-- ===== src/Vault/State.antt =====
-- programs/grave-vault/src/state/: the four account types, without their reserved bytes, and the
-- part of the chain that the vault's instructions read and write.
use graveyield_protocol.Prelude.{
  ℕ, ◌-◌, ℤ, Bool, Option, List, [], ◌∷◌, ◌+◌, ◌&&◌, ◌||◌, false, leb, ◌==◌, if◌then◌else◌, Table,
}

pub record ProtocolConfig : Type 0 where
  pub authority : ℕ
  pub pending_authority : ℕ
  pub pending_authority_eta : ℤ
  pub lp_holder_share_bps : ℕ
  pub salvor_share_bps : ℕ
  pub protocol_share_bps : ℕ
  pub max_priority_fee_ceiling_lamports : ℕ
  pub max_slippage_bps : ℕ
  pub jupiter_dust_threshold_lamports : ℕ
  pub timelock_seconds : ℤ
  pub emergency_paused : Bool
  pub bump : ℕ

pub record PoolRegistry : Type 0 where
  pub amm_program_id : ℕ
  pub pool_address : ℕ
  pub salvor : ℕ
  pub lp_snapshot_merkle_root : ℕ
  pub lp_total_supply_at_snapshot : ℕ
  pub lp_holder_pool_total_lamports : ℕ
  pub lp_holder_pool_claimed_lamports : ℕ
  pub salvaged_at_slot : ℕ
  pub salvaged_at_ts : ℤ
  pub bump : ℕ

-- `PoolRegistry::remaining_lamports`; ℕ subtraction saturates at 0.
unfoldable pub remaining_lamports : PoolRegistry → ℕ
remaining_lamports r = r.lp_holder_pool_total_lamports - r.lp_holder_pool_claimed_lamports

-- `PoolRegistry::is_fully_claimed`.
unfoldable pub is_fully_claimed : PoolRegistry → Bool
is_fully_claimed r = leb r.lp_holder_pool_total_lamports r.lp_holder_pool_claimed_lamports

pub record SalvageReceipt : Type 0 where
  pub pool_address : ℕ
  pub salvor : ℕ
  pub lp_holder_amount_lamports : ℕ
  pub salvor_amount_lamports : ℕ
  pub protocol_amount_lamports : ℕ
  pub total_proceeds_lamports : ℕ
  pub issued_at_slot : ℕ
  pub issued_at_ts : ℤ
  pub memecoin_mint : ℕ
  pub dust_memecoin_lamports : ℕ
  pub dust_swept_at_ts : ℤ
  pub bump : ℕ

pub record ClaimRecord : Type 0 where
  pub pool_address : ℕ
  pub lp_holder : ℕ
  pub amount_lamports : ℕ
  pub lp_balance_at_snapshot : ℕ
  pub claimed_at_slot : ℕ
  pub claimed_at_ts : ℤ
  pub bump : ℕ

-- `Clock::get()`.
pub record Clock : Type 0 where
  pub slot : ℕ
  pub epoch : ℕ
  pub unix_timestamp : ℤ

-- The accounts by what derives their address: the config is a singleton, registries, receipts
-- and the two native-SOL accounts go by pool, claim records by pool and holder (both are fields
-- of the record), wallets and token accounts by key. A token account's entry is its amount.
pub record Vault : Type 0 where
  pub config : Option ProtocolConfig
  pub registries : Table PoolRegistry
  pub receipts : Table SalvageReceipt
  pub claims : List ClaimRecord
  pub lp_holder_pool : ℕ → ℕ
  pub sol_holding : ℕ → ℕ
  pub treasury : ℕ
  pub wallets : ℕ → ℕ
  pub tokens : Table ℕ

-- Whether the account at the seeds of a claim record exists.
abbrev pub claimed_already : ℕ → ℕ → List ClaimRecord → Bool
claimed_already pool holder [] = false
claimed_already pool holder (c ∷ cs) =
    (c.pool_address == pool && c.lp_holder == holder) || claimed_already pool holder cs

-- The lamports that a pool's claim records say were paid.
abbrev pub paid : ℕ → List ClaimRecord → ℕ
paid pool [] = 0
paid pool (c ∷ cs) = (if c.pool_address == pool then c.amount_lamports else 0) + paid pool cs

-- Lamports at one address replaced.
abbrev pub set_lamports : (ℕ → ℕ) → ℕ → ℕ → ℕ → ℕ
set_lamports f k n j = if j == k then n else f j
