-- ===== src/Vault/Dust.antt =====
-- programs/grave-vault/src/instructions/sweep_dust.rs. The token program is `invoke`: its transfer
-- and its closing of the account are two calls. The address of an owner's associated token account
-- for a mint is `ata`, which belongs to another program.
pub mod Laws
use graveyield_protocol.Prelude.{
  ℕ, Bool, true, false, Option, none, some, List, [], ◌∷◌, ℤ, pos, eqb_ℤ, ltb, ◌==◌, le_bytes, put,
  Table, Result, ok, err, ◌>>=◌, ◌>>◌, require, ok_or,
}
use graveyield_protocol.Vault.Errors.{
  VaultFailure, program, constraint_violated, account_not_initialized, runtime, preflight_failed,
  dust_already_swept, dust_nothing_to_sweep,
}
use graveyield_protocol.Vault.Constants.{
  grave_vault_id, vault_authority_seed, protocol_treasury_seed,
}
use graveyield_protocol.Vault.State.{SalvageReceipt, Clock, Vault, set_lamports}
use graveyield_protocol.Vault.Cpi.{AccountMeta, Instruction, Invoke}
use graveyield_protocol.Vault.Salvage.Handler.{init_if_needed}

pub record SweepDustParams : Type 0 where
  pub pool_address : ℕ

-- The keys of the submitted accounts; the sweeper signed.
pub record SweepDust : Type 0 where
  pub vault_authority : ℕ
  pub protocol_treasury : ℕ
  pub vault_memecoin_token_account : ℕ
  pub protocol_treasury_token_account : ℕ
  pub memecoin_mint : ℕ
  pub sweeper : ℕ
  pub token_program : ℕ

-- The associated token account of an owner and a mint, `Pubkey::find_program_address` on seeds
-- and program, and the id that `Program<Token>` checks.
pub record Platform : Type 0 where
  pub ata : ℕ → ℕ → ℕ
  pub find_program_address : List (List ℕ) → ℕ → ℕ
  pub token_program_id : ℕ

abbrev meta : ℕ → Bool → Bool → AccountMeta
meta key signer writable = record { pubkey = key; is_signer = signer; is_writable = writable }

-- `token::transfer` of the whole balance, signed by the vault authority.
unfoldable pub transfer_instruction : SweepDust → ℕ → Instruction
transfer_instruction a dust = record {
  program_id = a.token_program;
  accounts =
      meta a.vault_memecoin_token_account false true
      ∷ meta a.protocol_treasury_token_account false true
      ∷ meta a.vault_authority true false
      ∷ [];
  payload = 3 ∷ le_bytes 8 dust;
}

-- `token::close_account`, whose rent goes to the sweeper.
unfoldable pub close_instruction : SweepDust → Instruction
close_instruction a = record {
  program_id = a.token_program;
  accounts =
      meta a.vault_memecoin_token_account false true
      ∷ meta a.sweeper false true
      ∷ meta a.vault_authority true false
      ∷ [];
  payload = 9 ∷ [];
}

-- The account constraints after the receipt's: the token program, both addresses derived from the
-- vault, and both associated token accounts.
unfoldable pub sweep_constraints : Platform → SweepDust → Result VaultFailure (Unit {0})
sweep_constraints platform a = do
  require (a.token_program == platform.token_program_id) constraint_violated
  require
      (a.vault_authority
        == platform.find_program_address (vault_authority_seed ∷ []) grave_vault_id)
      constraint_violated
  require (a.vault_memecoin_token_account == platform.ata a.vault_authority a.memecoin_mint)
      constraint_violated
  require
      (a.protocol_treasury
        == platform.find_program_address (protocol_treasury_seed ∷ []) grave_vault_id)
      constraint_violated
  require (a.protocol_treasury_token_account == platform.ata a.protocol_treasury a.memecoin_mint)
      constraint_violated

-- The three checks of the handler, given the balance of the vault's account.
unfoldable pub sweep_checks : SweepDust → SalvageReceipt → ℕ → Result VaultFailure (Unit {0})
sweep_checks a receipt dust = do
  require (a.memecoin_mint == receipt.memecoin_mint) (program preflight_failed)
  require (eqb_ℤ receipt.dust_swept_at_ts (pos 0)) (program dust_already_swept)
  require (ltb 0 dust) (program dust_nothing_to_sweep)

unfoldable pub sweep_dust :
    Invoke → Platform → Clock → SweepDust → SweepDustParams → Vault → Result VaultFailure Vault
unfolding sweep_constraints sweep_checks transfer_instruction close_instruction
sweep_dust invoke platform clock a p v = do
  receipt ← ok_or (v.receipts p.pool_address) account_not_initialized
  dust ← ok_or (v.tokens a.vault_memecoin_token_account) account_not_initialized
  sweep_constraints platform a
  let tokens = init_if_needed a.protocol_treasury_token_account v.tokens
  sweep_checks a receipt dust
  moved ← ok_or (invoke (transfer_instruction a dust) tokens) runtime
  closed ← ok_or (invoke (close_instruction a) moved) runtime
  ok (record v {
    tokens = closed;
    receipts =
        put v.receipts p.pool_address (record receipt { dust_swept_at_ts = clock.unix_timestamp });
  })
