-- ===== src/Vault/Salvage/Swap.antt =====
-- programs/grave-vault/src/instructions/salvage_pool.rs: the remove-liquidity call's input and
-- the conversion leg, with the vetting of the route and both slippage checks.
use graveyield_protocol.Prelude.{
  ℕ, Bool, true, false, not, ◌&&◌, ◌||◌, List, [], ◌∷◌, take, drop, leb, ◌==◌, if◌then◌else◌,
  checked_sub, Table, Result, ok, ◌>>=◌, ◌>>◌, require, ok_or,
}
use graveyield_protocol.Vault.Errors.{
  VaultFailure, program, preflight_failed, slippage_exceeded, math_overflow,
}
use graveyield_protocol.Vault.Constants.{raydium_v4_withdraw_remaining_accounts_required}
use graveyield_protocol.Vault.State.{ProtocolConfig}
use graveyield_protocol.Vault.Proceeds.{effective_slippage_cap_bps, minimum_floor}
use graveyield_protocol.Vault.Cpi.{
  AccountInfo, Invoke, read_token_amount, key_at, RemoveLiquidityInput, RemoveLiquidityOutput,
  JupiterSwapInput,
}
use graveyield_protocol.Vault.Cpi.Raydium.{amm_coin_vault_index, amm_pc_vault_index}
use graveyield_protocol.Vault.Cpi.Jupiter.{swap}
use graveyield_protocol.Vault.Salvage.Accounts.{SalvagePoolParams, SalvagePool}

-- The two parts of the remaining accounts.
abbrev pub raydium_remaining : SalvagePool → List AccountInfo
raydium_remaining a = take raydium_v4_withdraw_remaining_accounts_required a.remaining_accounts

abbrev pub jupiter_remaining : SalvagePool → List AccountInfo
jupiter_remaining a = drop raydium_v4_withdraw_remaining_accounts_required a.remaining_accounts

unfoldable pub removal_input : SalvagePool → SalvagePoolParams → Bool → RemoveLiquidityInput
removal_input accounts p base_is_coin_side = record {
  pool = accounts.pool;
  amm_program = accounts.amm_program.key;
  user_lp_token_account = accounts.salvor_lp_token_account;
  user_owner = accounts.salvor;
  vault_base_token_account = accounts.vault_base_token_account;
  vault_memecoin_token_account = accounts.vault_memecoin_token_account;
  lp_mint = accounts.lp_mint;
  token_program = accounts.token_program;
  lp_amount = p.salvor_lp_amount;
  base_is_coin_side = base_is_coin_side;
  remaining_accounts = raydium_remaining accounts;
}

-- `FORBIDDEN`, as the keys of the nine accounts.
abbrev pub forbidden : SalvagePool → List ℕ
forbidden a =
    a.pool_registry ∷ a.salvage_receipt ∷ a.lp_holder_pool_vault ∷ a.protocol_treasury
    ∷ a.vault_sol_holding_account ∷ a.protocol_config ∷ a.eligibility_cert ∷ a.salvor
    ∷ a.salvor_lp_token_account ∷ []

abbrev pub mentions : List ℕ → ℕ → Bool
mentions [] k = false
mentions (x ∷ xs) k = k == x || mentions xs k

-- The loop over the route's accounts.
abbrev pub avoids : List ℕ → List AccountInfo → Bool
avoids keys [] = true
avoids keys (a ∷ rest) = not (mentions keys a.key) && avoids keys rest

abbrev pub includes : ℕ → List AccountInfo → Bool
includes key [] = false
includes key (a ∷ rest) = a.key == key || includes key rest

unfoldable pub route_checks : SalvagePool → Result VaultFailure (Unit {0})
route_checks accounts = do
  require (avoids (forbidden accounts) (jupiter_remaining accounts)) (program preflight_failed)
  require (includes accounts.vault_base_token_account (jupiter_remaining accounts))
      (program preflight_failed)

-- The submitted floor against the pool's reserves after the withdraw.
unfoldable pub floor_check :
    ProtocolConfig
    → SalvagePool
    → SalvagePoolParams
    → Bool
    → ℕ
    → Table ℕ
    → Result VaultFailure (Unit {0})
floor_check cfg accounts p base_is_coin_side memecoin_received tokens = do
  coin ←
      read_token_amount tokens (key_at (raydium_remaining accounts) amm_coin_vault_index)
        (program preflight_failed)
  pc ←
      read_token_amount tokens (key_at (raydium_remaining accounts) amm_pc_vault_index)
        (program preflight_failed)
  min_floor ←
      minimum_floor memecoin_received (if base_is_coin_side then coin else pc)
        (if base_is_coin_side then pc else coin)
        (effective_slippage_cap_bps cfg.max_slippage_bps p.max_slippage_bps_override)
  require (leb min_floor p.min_quote_output_lamports) (program slippage_exceeded)

unfoldable pub swap_input : SalvagePool → SalvagePoolParams → JupiterSwapInput
swap_input accounts p = record {
  jupiter_program = accounts.jupiter_program;
  vault_authority = accounts.vault_authority;
  destination_token_account = accounts.vault_base_token_account;
  route_accounts = jupiter_remaining accounts;
  route_data = p.jupiter_route_data;
}

-- The token balances after the conversion.
unfoldable pub convert :
    Invoke
    → ProtocolConfig
    → SalvagePool
    → SalvagePoolParams
    → Bool
    → RemoveLiquidityOutput
    → Table ℕ
    → Result VaultFailure (Table ℕ)
unfolding route_checks floor_check swap_input
convert invoke cfg accounts p base_is_coin_side removal tokens = do
  route_checks accounts
  floor_check cfg accounts p base_is_coin_side removal.memecoin_received tokens
  (output, after) ← swap invoke (swap_input accounts p) tokens
  amount ← read_token_amount after accounts.vault_base_token_account (program preflight_failed)
  swap_only_output ← ok_or (checked_sub amount removal.base_received) (program math_overflow)
  require (leb p.min_quote_output_lamports swap_only_output) (program slippage_exceeded)
  ok after

-- The leg is skipped below the threshold.
unfoldable pub swap_leg :
    Invoke
    → ProtocolConfig
    → SalvagePool
    → SalvagePoolParams
    → Bool
    → RemoveLiquidityOutput
    → Table ℕ
    → Result VaultFailure (Table ℕ)
unfolding convert
swap_leg invoke cfg accounts p base_is_coin_side removal tokens =
    if leb cfg.jupiter_dust_threshold_lamports removal.memecoin_received
    then convert invoke cfg accounts p base_is_coin_side removal tokens
    else ok tokens
