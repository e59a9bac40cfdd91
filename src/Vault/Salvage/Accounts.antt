-- ===== src/Vault/Salvage/Accounts.antt =====
-- programs/grave-vault/src/instructions/salvage_pool.rs: the parameters and the account list. An
-- account of which only the address is used is its key. Addresses that the framework derives are
-- inputs; the lamports at the derived native-SOL addresses are kept in the state by pool.
use graveyield_protocol.Prelude.{ℕ, Option, List, Table}
use graveyield_protocol.Vault.State.{Clock}
use graveyield_protocol.Vault.Cpi.{AccountInfo}

pub record SalvagePoolParams : Type 0 where
  pub amm_program_id : ℕ
  pub pool_address : ℕ
  pub lp_snapshot_merkle_root : ℕ
  pub lp_total_supply_at_snapshot : ℕ
  pub min_quote_output_lamports : ℕ
  pub salvor_lp_amount : ℕ
  pub jupiter_route_data : List ℕ
  pub max_slippage_bps_override : Option ℕ
  pub jupiter_route_accounts_len : ℕ

pub record SalvagePool : Type 0 where
  pub protocol_config : ℕ
  pub eligibility_cert : ℕ
  pub pool_registry : ℕ
  pub salvage_receipt : ℕ
  pub lp_holder_pool_vault : ℕ
  pub protocol_treasury : ℕ
  pub salvor : ℕ
  pub pool : AccountInfo
  pub amm_program : AccountInfo
  pub jupiter_program : ℕ
  pub vault_authority : ℕ
  pub vault_sol_holding_account : ℕ
  pub salvor_lp_token_account : ℕ
  pub vault_base_token_account : ℕ
  pub vault_memecoin_token_account : ℕ
  pub lp_mint : ℕ
  pub lp_mint_supply : ℕ
  pub memecoin_mint : ℕ
  pub token_program : ℕ
  pub remaining_accounts : List AccountInfo
  pub registry_bump : ℕ
  pub receipt_bump : ℕ

-- What surrounds a transaction: the clock, the minimum balance of an account without data, and the
-- token program's closing of a WSOL account (its key, the destination and the authority): the token
-- balances after it and the lamports that the destination got, or `none` where it fails.
pub record Runtime : Type 0 where
  pub clock : Clock
  pub minimum_balance : ℕ
  pub close_account : ℕ → ℕ → ℕ → Table ℕ → Option (Table ℕ × ℕ)
