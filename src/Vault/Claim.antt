-- ===== src/Vault/Claim.antt =====
-- programs/grave-vault/src/instructions/claim_lp_proceeds.rs. The account constraints come
-- first: the registry must be there and the claim record must not.
pub mod Conservation
pub mod Success
pub mod Fairness
use graveyield_protocol.Prelude.{
  ℕ, ◌+◌, ◌-◌, Bool, not, Option, none, some, List, [], ◌∷◌, leb, ltb, if◌then◌else◌, Result, ok,
  err, ◌>>=◌, ◌>>◌, require, ok_or, u64_mod, u128_mod, checked_add, checked_mul, checked_div,
  try_u64, put,
}
use graveyield_protocol.Vault.Errors.{
  VaultFailure, program, account_in_use, account_not_initialized, runtime, invalid_claim_proof,
  math_overflow,
}
use graveyield_protocol.Vault.State.{
  PoolRegistry, ClaimRecord, Clock, Vault, claimed_already, set_lamports,
}
use graveyield_protocol.Vault.Merkle.{Hash, compute_leaf, verify_proof}

pub record ClaimLpProceedsParams : Type 0 where
  pub pool_address : ℕ
  pub lp_balance_at_snapshot : ℕ
  pub merkle_proof : List ℕ

-- The claim's amount and the registry's new claimed total.
unfoldable pub claim_amount : PoolRegistry → ℕ → Result VaultFailure (ℕ × ℕ)
claim_amount registry balance = do
  product ←
      ok_or (checked_mul u128_mod registry.lp_holder_pool_total_lamports balance)
        (program math_overflow)
  amount ← ok_or (checked_div product registry.lp_total_supply_at_snapshot) (program math_overflow)
  amount_u64 ← ok_or (try_u64 amount) (program math_overflow)
  new_claimed ←
      ok_or (checked_add u64_mod registry.lp_holder_pool_claimed_lamports amount_u64)
        (program math_overflow)
  require (leb new_claimed registry.lp_holder_pool_total_lamports) (program math_overflow)
  ok (amount_u64, new_claimed)

-- The lamports that the system program's transfer moves from the pool's account to the holder.
unfoldable pub moved_to_holder : ℕ → ℕ → ℕ → Vault → Vault
moved_to_holder pool holder amount v = record v {
  lp_holder_pool = set_lamports v.lp_holder_pool pool (v.lp_holder_pool pool - amount);
  wallets = set_lamports v.wallets holder (v.wallets holder + amount);
}

-- The transfer fails on too few lamports; none is made for an amount of 0.
unfoldable pub pay_holder : ℕ → ℕ → ℕ → Vault → Result VaultFailure Vault
unfolding moved_to_holder
pay_holder pool holder amount v =
    if ltb 0 amount
    then (if leb amount (v.lp_holder_pool pool)
        then ok (moved_to_holder pool holder amount v)
        else err runtime)
    else ok v

-- The three checks before the amount: the balance and the supply are not 0 and the proof holds.
unfoldable pub claim_checks :
    Hash → ℕ → ClaimLpProceedsParams → PoolRegistry → Result VaultFailure (Unit {0})
claim_checks hash holder p registry = do
  require (ltb 0 p.lp_balance_at_snapshot) (program invalid_claim_proof)
  require (ltb 0 registry.lp_total_supply_at_snapshot) (program invalid_claim_proof)
  require
      (verify_proof hash registry.lp_snapshot_merkle_root
        (compute_leaf hash holder p.lp_balance_at_snapshot) p.merkle_proof)
      (program invalid_claim_proof)

claim_record : Clock → ℕ → ℕ → ClaimLpProceedsParams → ℕ → ClaimRecord
claim_record clock bump holder p amount = record {
  pool_address = p.pool_address;
  lp_holder = holder;
  amount_lamports = amount;
  lp_balance_at_snapshot = p.lp_balance_at_snapshot;
  claimed_at_slot = clock.slot;
  claimed_at_ts = clock.unix_timestamp;
  bump = bump;
}

-- `holder` signed as `lp_holder`.
unfoldable pub claim_lp_proceeds :
    Hash → Clock → ℕ → ℕ → ClaimLpProceedsParams → Vault → Result VaultFailure Vault
unfolding claim_record
claim_lp_proceeds hash clock bump holder p v = do
  registry ← ok_or (v.registries p.pool_address) account_not_initialized
  require (not (claimed_already p.pool_address holder v.claims)) account_in_use
  claim_checks hash holder p registry
  (amount, new_claimed) ← claim_amount registry p.lp_balance_at_snapshot
  v' ← pay_holder p.pool_address holder amount v
  ok (record v' {
    registries =
        put v'.registries p.pool_address
          (record registry { lp_holder_pool_claimed_lamports = new_claimed });
    claims = claim_record clock bump holder p amount ∷ v'.claims;
  })

-- The holder's wallet less the rent of the claim record.
abbrev pub rent_paid : ℕ → ℕ → Vault → Vault
rent_paid rent holder v = record v {
  wallets = set_lamports v.wallets holder (v.wallets holder - rent);
}

-- `init` of the claim record with the holder as payer: the system program refuses a wallet that has
-- less than the rent.
unfoldable pub init_claim_record : ℕ → ℕ → Vault → Result VaultFailure Vault
init_claim_record rent holder v =
    if leb rent (v.wallets holder) then ok (rent_paid rent holder v) else err runtime

-- A claim with the rent that its account constraint takes. Where several things are wrong, the
-- source may give another of the errors first.
unfoldable pub claim_with_rent :
    Hash → Clock → ℕ → ℕ → ℕ → ClaimLpProceedsParams → Vault → Result VaultFailure Vault
unfolding init_claim_record claim_lp_proceeds
claim_with_rent hash clock bump rent holder p v =
    init_claim_record rent holder v >>= claim_lp_proceeds hash clock bump holder p
