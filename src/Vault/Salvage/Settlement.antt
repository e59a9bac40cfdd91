-- ===== src/Vault/Salvage/Settlement.antt =====
-- programs/grave-vault/src/instructions/salvage_pool.rs: the unwrapping of the WSOL, the split,
-- the three transfers, and the two records.
use graveyield_protocol.Prelude.{
  ℕ, ◌+◌, ◌-◌, pos, leb, ◌==◌, if◌then◌else◌, u16_mod, checked_add, Result, ok, err, ◌>>=◌, ◌>>◌,
  require, ok_or,
}
use graveyield_protocol.Vault.Errors.{
  VaultFailure, program, math_overflow, invalid_share_split, protocol_share_exceeds_ceiling,
  runtime,
}
use graveyield_protocol.Vault.Constants.{bps_denominator, protocol_share_bps_ceiling}
use graveyield_protocol.Vault.State.{
  ProtocolConfig, PoolRegistry, SalvageReceipt, Clock, Vault, set_lamports,
}
use graveyield_protocol.Vault.Salvage.Accounts.{SalvagePoolParams, SalvagePool, Runtime}

-- The three shares re-checked.
unfoldable pub share_checks : ProtocolConfig → Result VaultFailure (Unit {0})
share_checks cfg = do
  lp_and_salvor ←
      ok_or (checked_add u16_mod cfg.lp_holder_share_bps cfg.salvor_share_bps)
        (program math_overflow)
  share_sum ←
      ok_or (checked_add u16_mod lp_and_salvor cfg.protocol_share_bps) (program math_overflow)
  require (share_sum == bps_denominator) (program invalid_share_split)
  require (leb cfg.protocol_share_bps protocol_share_bps_ceiling)
      (program protocol_share_exceeds_ceiling)

-- `transfer_from_vault_sol_holding`: the lamports of the source and of the destination after it.
-- The system program refuses an amount above the source's lamports.
unfoldable pub transfer_from_vault_sol_holding : ℕ → ℕ → ℕ → Result VaultFailure (ℕ × ℕ)
transfer_from_vault_sol_holding source to amount =
    if amount == 0
    then ok (source, to)
    else (if leb amount source
        then ok (source - amount, to + amount)
        else err (program math_overflow))

-- The WSOL account is closed into the pool's holding account.
unfoldable pub unwrapped : Runtime → SalvagePool → ℕ → Vault → Result VaultFailure Vault
unwrapped rt accounts pool v = do
  (tokens, lamports) ←
      ok_or
        (rt.close_account accounts.vault_base_token_account accounts.vault_sol_holding_account
          accounts.vault_authority v.tokens)
        runtime
  ok (record v {
    tokens = tokens;
    sol_holding = set_lamports v.sol_holding pool (v.sol_holding pool + lamports);
  })

-- The three transfers, in the source's order: salvor, LP holders, treasury.
unfoldable pub distribute : ℕ → ℕ → ℕ × ℕ × ℕ → Vault → Result VaultFailure Vault
unfolding transfer_from_vault_sol_holding
distribute pool salvor (salvor_share, lp_holder_share, protocol_share) v = do
  (held1, wallet) ←
      transfer_from_vault_sol_holding (v.sol_holding pool) (v.wallets salvor) salvor_share
  (held2, lp_pool) ← transfer_from_vault_sol_holding held1 (v.lp_holder_pool pool) lp_holder_share
  (held3, treasury) ← transfer_from_vault_sol_holding held2 v.treasury protocol_share
  ok (record v {
    sol_holding = set_lamports v.sol_holding pool held3;
    wallets = set_lamports v.wallets salvor wallet;
    lp_holder_pool = set_lamports v.lp_holder_pool pool lp_pool;
    treasury = treasury;
  })

-- The registry as populated.
unfoldable pub new_registry : Clock → SalvagePool → SalvagePoolParams → ℕ → PoolRegistry
new_registry clock accounts p lp_holder_share = record {
  amm_program_id = p.amm_program_id;
  pool_address = p.pool_address;
  salvor = accounts.salvor;
  lp_snapshot_merkle_root = p.lp_snapshot_merkle_root;
  lp_total_supply_at_snapshot = p.lp_total_supply_at_snapshot;
  lp_holder_pool_total_lamports = lp_holder_share;
  lp_holder_pool_claimed_lamports = 0;
  salvaged_at_slot = clock.slot;
  salvaged_at_ts = clock.unix_timestamp;
  bump = accounts.registry_bump;
}

-- The receipt as populated: the three amounts, their total and the memecoin that is left.
unfoldable pub new_receipt :
    Clock → SalvagePool → SalvagePoolParams → ℕ × ℕ × ℕ → ℕ → ℕ → SalvageReceipt
new_receipt clock accounts p (salvor_share, lp_holder_share, protocol_share) total dust = record {
  pool_address = p.pool_address;
  salvor = accounts.salvor;
  lp_holder_amount_lamports = lp_holder_share;
  salvor_amount_lamports = salvor_share;
  protocol_amount_lamports = protocol_share;
  total_proceeds_lamports = total;
  issued_at_slot = clock.slot;
  issued_at_ts = clock.unix_timestamp;
  memecoin_mint = accounts.memecoin_mint;
  dust_memecoin_lamports = dust;
  dust_swept_at_ts = pos 0;
  bump = accounts.receipt_bump;
}
