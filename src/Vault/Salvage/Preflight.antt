-- ===== src/Vault/Salvage/Preflight.antt =====
-- programs/grave-vault/src/instructions/salvage_pool.rs: the checks before any call, the
-- orientation of the pool, and the lazily created native-SOL accounts.
use graveyield_protocol.Prelude.{
  ℕ, ◌+◌, ◌-◌, Bool, true, false, not, ◌&&◌, List, leb, ltb, ◌==◌, if◌then◌else◌, length, slice,
  key_of_bytes, Result, ok, err, ◌>>◌, require,
}
use graveyield_protocol.Scanner.State.{EligibilityCert, is_expired}
use graveyield_protocol.Vault.Errors.{
  VaultFailure, program, runtime, protocol_paused, eligibility_cert_expired,
  invalid_eligibility_cert, preflight_failed, unsupported_base_token, invalid_snapshot_data,
}
use graveyield_protocol.Vault.Constants.{
  wsol_mint, raydium_v4_program_id, raydium_v4_amm_info_size, raydium_v4_off_coin_mint,
  raydium_v4_off_pc_mint, raydium_v4_off_lp_mint, raydium_v4_withdraw_remaining_accounts_required,
}
use graveyield_protocol.Vault.State.{ProtocolConfig, Clock}
use graveyield_protocol.Vault.Cpi.{AccountInfo}
use graveyield_protocol.Vault.Salvage.Accounts.{SalvagePoolParams, SalvagePool}

-- `ALL_CRITERIA_MASK`, six bits.
abbrev pub all_criteria_mask : ℕ
all_criteria_mask = 63

-- The checks of the pause flag, the certificate, the pool and its program.
unfoldable pub preflight :
    ProtocolConfig
    → EligibilityCert
    → Clock
    → SalvagePool
    → SalvagePoolParams
    → Result VaultFailure (Unit {0})
preflight cfg cert clock accounts p = do
  require (not cfg.emergency_paused) (program protocol_paused)
  require (not (is_expired cert clock.unix_timestamp)) (program eligibility_cert_expired)
  require (cert.criteria_bitmap == all_criteria_mask) (program invalid_eligibility_cert)
  require (cert.amm_program_id == p.amm_program_id) (program invalid_eligibility_cert)
  require (cert.pool_address == p.pool_address) (program invalid_eligibility_cert)
  require (accounts.pool.key == p.pool_address) (program preflight_failed)
  require accounts.amm_program.executable (program preflight_failed)
  require (accounts.amm_program.key == accounts.pool.owner) (program preflight_failed)

-- The lamports of the account and of the payer afterwards. Nothing happens to an account that has
-- lamports; otherwise the payer funds it with the minimum balance.
unfoldable pub lazy_init_system_pda : ℕ → ℕ → ℕ → Result VaultFailure (ℕ × ℕ)
lazy_init_system_pda rent lamports payer =
    if ltb 0 lamports
    then ok (lamports, payer)
    else (if leb rent payer then ok (lamports + rent, payer - rent) else err runtime)

-- `read_mint`.
abbrev pub read_mint : List ℕ → ℕ → ℕ
read_mint bytes off = key_of_bytes (slice bytes off 32)

-- Whether the base is on the coin side, the memecoin's mint and the LP mint.
unfoldable pub derive_pool_orientation : AccountInfo → Result VaultFailure (Bool × ℕ × ℕ)
derive_pool_orientation pool = do
  require (length pool.bytes == raydium_v4_amm_info_size) (program preflight_failed)
  let coin_mint = read_mint pool.bytes raydium_v4_off_coin_mint
  let pc_mint = read_mint pool.bytes raydium_v4_off_pc_mint
  let lp_mint = read_mint pool.bytes raydium_v4_off_lp_mint
  if coin_mint == wsol_mint && not (pc_mint == wsol_mint)
      then ok (true, pc_mint, lp_mint)
      else (if pc_mint == wsol_mint && not (coin_mint == wsol_mint)
          then ok (false, coin_mint, lp_mint)
          else err (program unsupported_base_token))

-- The same for any pool: the bytes are read only where Raydium V4 owns it.
unfoldable pub pool_orientation : SalvagePool → Result VaultFailure (Bool × ℕ × ℕ)
unfolding derive_pool_orientation
pool_orientation accounts =
    if accounts.pool.owner == raydium_v4_program_id
    then derive_pool_orientation accounts.pool
    else ok (true, accounts.memecoin_mint, accounts.lp_mint)

-- The submitted mints are the pool's, the supply is the snapshot's, there is LP to burn and the
-- accounts after the 13 of the withdraw are as many as announced.
unfoldable pub submission_checks :
    SalvagePool → SalvagePoolParams → ℕ → ℕ → Result VaultFailure (Unit {0})
submission_checks accounts p pool_memecoin_mint pool_lp_mint = do
  require (accounts.memecoin_mint == pool_memecoin_mint) (program preflight_failed)
  require (accounts.lp_mint == pool_lp_mint) (program preflight_failed)
  require (accounts.lp_mint_supply == p.lp_total_supply_at_snapshot) (program invalid_snapshot_data)
  require (ltb 0 p.salvor_lp_amount) (program preflight_failed)
  require
      (length accounts.remaining_accounts
        == raydium_v4_withdraw_remaining_accounts_required + p.jupiter_route_accounts_len)
      (program preflight_failed)
