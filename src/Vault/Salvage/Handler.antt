-- ===== src/Vault/Salvage/Handler.antt =====
-- programs/grave-vault/src/instructions/salvage_pool.rs: the account constraints and the handler.
use graveyield_protocol.Prelude.{
  ℕ, Bool, true, false, Option, none, some, ltb, ◌==◌, put, Table, Result, ok, ◌>>=◌, ◌>>◌, require,
  ok_or,
}
use graveyield_protocol.Scanner.State.{EligibilityCert}
use graveyield_protocol.Vault.Errors.{
  VaultFailure, program, account_in_use, account_not_initialized, constraint_violated,
  amm_redemption_failed, preflight_failed,
}
use graveyield_protocol.Vault.Constants.{jupiter_v6_program_id}
use graveyield_protocol.Vault.State.{ProtocolConfig, Vault, set_lamports}
use graveyield_protocol.Vault.Proceeds.{split_proceeds}
use graveyield_protocol.Vault.Cpi.{Invoke, read_token_amount}
use graveyield_protocol.Vault.Cpi.Raydium.{dispatch_remove_liquidity}
use graveyield_protocol.Vault.Salvage.Accounts.{SalvagePoolParams, SalvagePool, Runtime}
use graveyield_protocol.Vault.Salvage.Preflight.{
  preflight, lazy_init_system_pda, pool_orientation, submission_checks,
}
use graveyield_protocol.Vault.Salvage.Swap.{removal_input, swap_leg}
use graveyield_protocol.Vault.Salvage.Settlement.{
  share_checks, unwrapped, distribute, new_registry, new_receipt,
}

-- Whether there is an account.
abbrev pub absent : {A : Type 0} → Option A → Bool
absent o = elim o [ none ↦ true | some a ↦ false ]

-- The token balances once `init_if_needed` has run for one account.
abbrev pub init_if_needed : ℕ → Table ℕ → Table ℕ
init_if_needed key tokens = elim (tokens key) [ none ↦ put tokens key 0 | some n ↦ tokens ]

-- The account constraints: `init` of the registry and the receipt, and the pinned program.
unfoldable pub salvage_constraints :
    SalvagePool → SalvagePoolParams → Vault → Result VaultFailure (Unit {0})
salvage_constraints accounts p v = do
  require (absent (v.registries p.pool_address)) account_in_use
  require (absent (v.receipts p.pool_address)) account_in_use
  require (accounts.jupiter_program == jupiter_v6_program_id) constraint_violated

-- Both native-SOL accounts of the pool are funded, and both token accounts are there.
unfoldable pub prepared : Runtime → SalvagePool → ℕ → Vault → Result VaultFailure Vault
unfolding lazy_init_system_pda
prepared rt accounts pool v = do
  (lp_pool, wallet1) ←
      lazy_init_system_pda rt.minimum_balance (v.lp_holder_pool pool) (v.wallets accounts.salvor)
  (holding, wallet2) ← lazy_init_system_pda rt.minimum_balance (v.sol_holding pool) wallet1
  ok (record v {
    lp_holder_pool = set_lamports v.lp_holder_pool pool lp_pool;
    sol_holding = set_lamports v.sol_holding pool holding;
    wallets = set_lamports v.wallets accounts.salvor wallet2;
    tokens =
        init_if_needed accounts.vault_memecoin_token_account
          (init_if_needed accounts.vault_base_token_account v.tokens);
  })

-- The withdraw and the conversion: the token balances after both.
unfoldable pub redeem :
    Invoke
    → ProtocolConfig
    → SalvagePool
    → SalvagePoolParams
    → Table ℕ
    → Result VaultFailure (Table ℕ)
unfolding removal_input
redeem invoke cfg accounts p tokens = do
  (base_is_coin_side, memecoin_mint, lp_mint) ← pool_orientation accounts
  submission_checks accounts p memecoin_mint lp_mint
  (removal, withdrawn) ←
      dispatch_remove_liquidity invoke (removal_input accounts p base_is_coin_side) tokens
  swap_leg invoke cfg accounts p base_is_coin_side removal withdrawn

-- The unwrapping, the distribution and the records, from the token balances in the state.
unfoldable pub settle :
    Runtime → ProtocolConfig → SalvagePool → SalvagePoolParams → Vault → Result VaultFailure Vault
unfolding unwrapped new_registry new_receipt
settle rt cfg accounts p v = do
  total ← read_token_amount v.tokens accounts.vault_base_token_account (program preflight_failed)
  require (ltb 0 total) (program amm_redemption_failed)
  unwrapped_state ← unwrapped rt accounts p.pool_address v
  share_checks cfg
  shares ← split_proceeds total cfg.salvor_share_bps cfg.lp_holder_share_bps
  v' ← distribute p.pool_address accounts.salvor shares unwrapped_state
  dust ←
      read_token_amount v'.tokens accounts.vault_memecoin_token_account (program preflight_failed)
  ok (record v' {
    registries = put v'.registries p.pool_address (new_registry rt.clock accounts p shares.1);
    receipts = put v'.receipts p.pool_address (new_receipt rt.clock accounts p shares total dust);
  })

-- `certs` is what the scanner program holds, by AMM program and pool; `accounts.salvor` signed.
unfoldable pub salvage_pool :
    Invoke
    → Runtime
    → (ℕ → ℕ → Option EligibilityCert)
    → SalvagePool
    → SalvagePoolParams
    → Vault
    → Result VaultFailure Vault
salvage_pool invoke rt certs accounts p v = do
  cfg ← ok_or v.config account_not_initialized
  cert ← ok_or (certs p.amm_program_id p.pool_address) account_not_initialized
  salvage_constraints accounts p v
  preflight cfg cert rt.clock accounts p
  v1 ← prepared rt accounts p.pool_address v
  tokens ← redeem invoke cfg accounts p v1.tokens
  settle rt cfg accounts p (record v1 { tokens = tokens })
