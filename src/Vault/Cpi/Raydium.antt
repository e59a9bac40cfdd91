-- ===== src/Vault/Cpi/Raydium.antt =====
-- programs/grave-vault/src/cpi/raydium_v4.rs and the dispatch of cpi/mod.rs. Wire order and flags
-- of the 22 accounts are the source's.
use graveyield_protocol.Prelude.{
  ℕ, Bool, true, false, List, [], ◌∷◌, length, ltb, ◌==◌, if◌then◌else◌, checked_sub, le_bytes,
  Table, Result, ok, err, ◌>>=◌, ◌>>◌, require, ok_or,
}
use graveyield_protocol.Vault.Errors.{
  VaultFailure, program, preflight_failed, amm_redemption_failed, amm_cpi_unimplemented,
  math_overflow,
}
use graveyield_protocol.Vault.Constants.{
  raydium_v4_program_id, raydium_v4_amm_authority, raydium_v4_instruction_tag_withdraw,
  raydium_v4_withdraw_remaining_accounts_required, raydium_clmm_program_id,
  orca_whirlpool_program_id, pump_swap_program_id,
}
use graveyield_protocol.Vault.Cpi.{
  AccountMeta, Instruction, Invoke, read_token_amount, key_at, RemoveLiquidityOutput,
  RemoveLiquidityInput,
}

-- `ra_idx`.
abbrev pub amm_authority_index : ℕ
amm_authority_index = 0

abbrev pub amm_coin_vault_index : ℕ
amm_coin_vault_index = 3

abbrev pub amm_pc_vault_index : ℕ
amm_pc_vault_index = 4

-- `AccountMeta::new` and `AccountMeta::new_readonly`.
abbrev writable : ℕ → Bool → AccountMeta
writable key signer = record { pubkey = key; is_signer = signer; is_writable = true }

abbrev read_only : ℕ → Bool → AccountMeta
read_only key signer = record { pubkey = key; is_signer = signer; is_writable = false }

-- The coin and the pc destination of the withdraw.
unfoldable pub user_accounts : RemoveLiquidityInput → ℕ × ℕ
user_accounts input =
    if input.base_is_coin_side
    then (input.vault_base_token_account, input.vault_memecoin_token_account)
    else (input.vault_memecoin_token_account, input.vault_base_token_account)

unfoldable pub withdraw_metas : RemoveLiquidityInput → List AccountMeta
unfolding user_accounts
withdraw_metas input =
    let rest = key_at input.remaining_accounts in
    let users = user_accounts input in
    read_only input.token_program false
    ∷ writable input.pool.key false
    ∷ read_only (rest 0) false
    ∷ writable (rest 1) false
    ∷ writable (rest 2) false
    ∷ writable input.lp_mint false
    ∷ writable (rest 3) false
    ∷ writable (rest 4) false
    ∷ writable input.pool.key false
    ∷ writable input.pool.key false
    ∷ read_only (rest 5) false
    ∷ writable (rest 6) false
    ∷ writable (rest 7) false
    ∷ writable (rest 8) false
    ∷ read_only (rest 9) false
    ∷ writable input.user_lp_token_account false
    ∷ writable users.0 false
    ∷ writable users.1 false
    ∷ writable input.user_owner true
    ∷ writable (rest 10) false
    ∷ writable (rest 11) false
    ∷ writable (rest 12) false
    ∷ []

-- The nine bytes of the payload: the tag, then the amount.
unfoldable pub withdraw_instruction : RemoveLiquidityInput → Instruction
unfolding withdraw_metas
withdraw_instruction input = record {
  program_id = raydium_v4_program_id;
  accounts = withdraw_metas input;
  payload = raydium_v4_instruction_tag_withdraw ∷ le_bytes 8 input.lp_amount;
}

unfoldable pub withdraw_checks : RemoveLiquidityInput → Result VaultFailure (Unit {0})
withdraw_checks input = do
  require (length input.remaining_accounts == raydium_v4_withdraw_remaining_accounts_required)
      (program preflight_failed)
  require (input.pool.owner == raydium_v4_program_id) (program preflight_failed)
  require (input.amm_program == raydium_v4_program_id) (program preflight_failed)
  require (key_at input.remaining_accounts amm_authority_index == raydium_v4_amm_authority)
      (program preflight_failed)

-- The token balances after the call come with the amounts received.
unfoldable pub remove_liquidity :
    Invoke → RemoveLiquidityInput → Table ℕ → Result VaultFailure (RemoveLiquidityOutput × Table ℕ)
unfolding withdraw_checks withdraw_instruction
remove_liquidity invoke input tokens = do
  withdraw_checks input
  pre_base ← read_token_amount tokens input.vault_base_token_account (program amm_redemption_failed)
  pre_memecoin ←
      read_token_amount tokens input.vault_memecoin_token_account (program amm_redemption_failed)
  after ← ok_or (invoke (withdraw_instruction input) tokens) (program amm_redemption_failed)
  post_base ← read_token_amount after input.vault_base_token_account (program amm_redemption_failed)
  post_memecoin ←
      read_token_amount after input.vault_memecoin_token_account (program amm_redemption_failed)
  base ← ok_or (checked_sub post_base pre_base) (program math_overflow)
  memecoin ← ok_or (checked_sub post_memecoin pre_memecoin) (program math_overflow)
  require (ltb 0 base) (program amm_redemption_failed)
  ok (record { base_received = base; memecoin_received = memecoin }, after)

-- The stubs of `raydium_clmm`, `orca_whirlpool` and `pump_swap` all fail in one way.
abbrev pub unimplemented : {A : Type 0} → Result VaultFailure A
unimplemented = err (program amm_cpi_unimplemented)

unfoldable pub dispatch_remove_liquidity :
    Invoke → RemoveLiquidityInput → Table ℕ → Result VaultFailure (RemoveLiquidityOutput × Table ℕ)
unfolding remove_liquidity
dispatch_remove_liquidity invoke input tokens =
    if input.pool.owner == raydium_v4_program_id
    then remove_liquidity invoke input tokens
    else (if input.pool.owner == raydium_clmm_program_id
        then unimplemented
        else (if input.pool.owner == orca_whirlpool_program_id
            then unimplemented
            else (if input.pool.owner == pump_swap_program_id
                then unimplemented
                else unimplemented)))
