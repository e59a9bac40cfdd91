-- ===== src/Vault/Cpi/Jupiter.antt =====
-- programs/grave-vault/src/cpi/jupiter.rs. `signer_seeds` make the vault authority a signer of
-- the call; in the instruction that is the flag which `mark_signer` sets.
use graveyield_protocol.Prelude.{
  ℕ, true, List, [], ◌∷◌, ltb, length, ◌==◌, if◌then◌else◌, checked_sub, Table, Result, ok, ◌>>=◌,
  ◌>>◌, require, ok_or,
}
use graveyield_protocol.Vault.Errors.{
  VaultFailure, program, jupiter_swap_failed, preflight_failed, math_overflow,
}
use graveyield_protocol.Vault.Constants.{jupiter_v6_program_id}
use graveyield_protocol.Vault.Cpi.{
  AccountInfo, AccountMeta, Instruction, Invoke, read_token_amount, JupiterSwapInput,
}

-- The metas as forwarded, with the authority's occurrences marked as signers.
unfoldable pub route_metas : ℕ → List AccountInfo → List AccountMeta
route_metas authority [] = []
route_metas authority (a ∷ rest) =
    record {
      pubkey = a.key;
      is_signer = if a.key == authority then true else a.is_signer;
      is_writable = a.is_writable;
    }
    ∷ route_metas authority rest

unfoldable pub swap_instruction : JupiterSwapInput → Instruction
unfolding route_metas
swap_instruction input = record {
  program_id = jupiter_v6_program_id;
  accounts = route_metas input.vault_authority input.route_accounts;
  payload = input.route_data;
}

-- The output amount and the token balances after the call.
unfoldable pub swap : Invoke → JupiterSwapInput → Table ℕ → Result VaultFailure (ℕ × Table ℕ)
unfolding swap_instruction
swap invoke input tokens = do
  require (ltb 0 (length input.route_data)) (program jupiter_swap_failed)
  require (input.jupiter_program == jupiter_v6_program_id) (program preflight_failed)
  pre ← read_token_amount tokens input.destination_token_account (program jupiter_swap_failed)
  after ← ok_or (invoke (swap_instruction input) tokens) (program jupiter_swap_failed)
  post ← read_token_amount after input.destination_token_account (program jupiter_swap_failed)
  output ← ok_or (checked_sub post pre) (program math_overflow)
  ok (output, after)
