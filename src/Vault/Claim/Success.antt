-- ===== src/Vault/Claim/Success.antt =====
-- When a claim of programs/grave-vault/src/instructions/claim_lp_proceeds.rs succeeds.
use graveyield_protocol.Prelude.{
  ℕ, ◌+◌, ◌*◌, ◌/◌, ◌≤◌, ◌<◌, ◌≡◌, refl, inl, inr, false, some, arith, ltb, Bool-cases, le→leb,
  true, ok, Succeeds-value, u64_mod, u128_mod,
}
use native.Mathlib.Nat.{le_trans, mul-le-mul_left, le_of_mul-le-mul_right, div-mul-le_self}
use graveyield_protocol.Vault.State.{PoolRegistry, Clock, Vault, claimed_already}
use graveyield_protocol.Vault.Merkle.{Hash, compute_leaf, verify_proof}
use graveyield_protocol.Vault.Claim.{
  ClaimLpProceedsParams, claim_amount, pay_holder, moved_to_holder, claim_checks, claim_lp_proceeds,
  rent_paid, init_claim_record,
}

-- The products of two 64-bit words fit 128 bits.
product_fits : (a b : ℕ) → a < u64_mod → b < u64_mod → a * b < u128_mod
product_fits a b ha hb = grind arith

div_bound : (t b s : ℕ) → 0 < s → b ≤ s → t * b / s ≤ t
div_bound t b s hs hb = grind arith

-- The share of one more holder still fits: `c` is claimed of `t` for `d` of the supply `s`.
pub share_fits :
    (t s c d b : ℕ)
    → 0 < s
    → c * s ≤ t * d
    → d + b ≤ s
    → (c + t * b / s ≤ t) × ((c + t * b / s) * s ≤ t * (d + b))
share_fits t s c d b hs hc hd =
    let e : (c + t * b / s) * s ≤ t * (d + b) = omega (arith, div-mul-le_self (t * b) s) in
    (le_of_mul-le-mul_right (le_trans e (mul-le-mul_left t hd)) hs, e)

-- A claim with its checks met, whose amount fits what is left and what the account holds.
claim_amount_ok :
    (r : PoolRegistry) (b : ℕ)
    → r.lp_holder_pool_total_lamports < u64_mod
    → r.lp_total_supply_at_snapshot < u64_mod
    → 0 < r.lp_total_supply_at_snapshot
    → b ≤ r.lp_total_supply_at_snapshot
    → let a = r.lp_holder_pool_total_lamports * b / r.lp_total_supply_at_snapshot in
      r.lp_holder_pool_claimed_lamports + a ≤ r.lp_holder_pool_total_lamports
      → claim_amount r b ≡ ok (a, r.lp_holder_pool_claimed_lamports + a)
unfolding claim_amount
claim_amount_ok r b ht hs pos hb within =
    let t = r.lp_holder_pool_total_lamports in
    let s = r.lp_total_supply_at_snapshot in
    ground (arith, product_fits t b ht (omega arith), div_bound t b s pos hb)

pay_holder_ok :
    (pool holder a : ℕ) (v : Vault)
    → a ≤ v.lp_holder_pool pool
    → (w : Vault) × (pay_holder pool holder a v ≡ ok w)
unfolding pay_holder
pay_holder_ok pool holder a v h = elim (Bool-cases (ltb 0 a)) [
  | inr none_due ↦ (v, rw none_due)
  | inl due ↦ (moved_to_holder pool holder a v, rw (due, le→leb a (v.lp_holder_pool pool) h) refl)
]

pub claim_checks_ok :
    (hash : Hash) (holder : ℕ) (p : ClaimLpProceedsParams) (r : PoolRegistry)
    → 0 < p.lp_balance_at_snapshot
    → 0 < r.lp_total_supply_at_snapshot
    → verify_proof hash r.lp_snapshot_merkle_root
        (compute_leaf hash holder p.lp_balance_at_snapshot)
        p.merkle_proof
      ≡ true
    → claim_checks hash holder p r ≡ ok tt
unfolding claim_checks
claim_checks_ok hash holder p r positive supply accepted =
    ground (arith, positive, supply, accepted)

-- What a claim needs at a registry `r` with `d` of the supply's tokens already claimed for.
pub record CanClaim (hash : Hash) (pool d : ℕ) (v : Vault) (r : PoolRegistry) : Type 0 where
  pub found : v.registries pool ≡ some r
  pub total_fits : r.lp_holder_pool_total_lamports < u64_mod
  pub supply_fits : r.lp_total_supply_at_snapshot < u64_mod
  pub supply_pos : 0 < r.lp_total_supply_at_snapshot
  pub in_account :
      r.lp_holder_pool_total_lamports ≤ r.lp_holder_pool_claimed_lamports + v.lp_holder_pool pool
  pub claimed_share :
      r.lp_holder_pool_claimed_lamports * r.lp_total_supply_at_snapshot
      ≤ r.lp_holder_pool_total_lamports * d

pub CanClaim-charged :
    (hash : Hash) (pool rent d holder : ℕ) (v : Vault) (r : PoolRegistry)
    → CanClaim hash pool d v r
    → CanClaim hash pool d (rent_paid rent holder v) r
CanClaim-charged hash pool rent d holder v r c = record {
  found = c.found;
  total_fits = c.total_fits;
  supply_fits = c.supply_fits;
  supply_pos = c.supply_pos;
  in_account = c.in_account;
  claimed_share = c.claimed_share;
}

pub init_claim_record_ok :
    (rent holder : ℕ) (v : Vault)
    → rent ≤ v.wallets holder
    → init_claim_record rent holder v ≡ ok (rent_paid rent holder v)
unfolding init_claim_record
init_claim_record_ok rent holder v affords = rw (le→leb rent (v.wallets holder) affords) refl

pub claim_succeeds :
    (hash : Hash) (clock : Clock) (bump holder d : ℕ) (p : ClaimLpProceedsParams) (v : Vault)
    (r : PoolRegistry)
    → CanClaim hash p.pool_address d v r
    → claimed_already p.pool_address holder v.claims ≡ false
    → claim_checks hash holder p r ≡ ok tt
    → d + p.lp_balance_at_snapshot ≤ r.lp_total_supply_at_snapshot
    → (w : Vault) × (claim_lp_proceeds hash clock bump holder p v ≡ ok w)
unfolding claim_lp_proceeds
claim_succeeds hash clock bump holder d p v r c unclaimed checked room =
    let t = r.lp_holder_pool_total_lamports in
    let s = r.lp_total_supply_at_snapshot in
    let b = p.lp_balance_at_snapshot in
    let fits =
      share_fits t s r.lp_holder_pool_claimed_lamports d b c.supply_pos c.claimed_share room in
    let amount = claim_amount_ok r b c.total_fits c.supply_fits c.supply_pos (omega arith) fits.0 in
    let covered : t * b / s ≤ v.lp_holder_pool p.pool_address =
      omega (arith, fits.0, c.in_account) in
    let (w, paid_by) = pay_holder_ok p.pool_address holder (t * b / s) v covered in
    Succeeds-value (claim_lp_proceeds hash clock bump holder p v)
      (rw (c.found, unclaimed, checked, amount, paid_by) tt)
