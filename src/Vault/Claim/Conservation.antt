-- ===== src/Vault/Claim/Conservation.antt =====
-- A claim pays the pro-rata share once, and never more than the pool's account owes and holds.
use graveyield_protocol.Prelude.{
  ℕ, ◌+◌, ◌-◌, ◌*◌, ◌/◌, ◌≤◌, ◌≡◌, true, false, not, Option, none, some, List, arith, ◌==◌,
  if◌then◌else◌, ◌&&◌, ◌||◌, ok, err, bind_ok, ok_or_ok, require_ok,
}
use graveyield_protocol.Vault.Errors.{account_in_use, account_not_initialized}
use graveyield_protocol.Vault.State.{PoolRegistry, ClaimRecord, Clock, Vault, claimed_already, paid}
use graveyield_protocol.Vault.Merkle.{Hash, compute_leaf, verify_proof}
use graveyield_protocol.Vault.Claim.{
  ClaimLpProceedsParams, claim_amount, pay_holder, claim_checks, claim_record, claim_lp_proceeds,
}

-- What a pool's accounts satisfy: without a registry nothing was claimed; with one, the claimed
-- total is what the claim records say, is at most what was set aside, and the rest is in the
-- pool's account.
abbrev pub RegistrySolvent : ℕ → List ClaimRecord → ℕ → Option PoolRegistry → Type 0
RegistrySolvent pool claims lamports none = paid pool claims ≡ 0
RegistrySolvent pool claims lamports (some r) =
    (r.lp_holder_pool_claimed_lamports ≤ r.lp_holder_pool_total_lamports)
    × (r.lp_holder_pool_claimed_lamports ≡ paid pool claims)
    × (r.lp_holder_pool_total_lamports ≤ r.lp_holder_pool_claimed_lamports + lamports)

abbrev pub PoolSolvent : Vault → ℕ → Type 0
PoolSolvent v pool = RegistrySolvent pool v.claims (v.lp_holder_pool pool) (v.registries pool)

claim_amount-eq-ok :
    (r : PoolRegistry) (b a c : ℕ)
    → claim_amount r b ≡ ok (a, c)
    → (a ≡ r.lp_holder_pool_total_lamports * b / r.lp_total_supply_at_snapshot)
      × (c ≡ r.lp_holder_pool_claimed_lamports + a)
      × (c ≤ r.lp_holder_pool_total_lamports)
unfolding claim_amount
claim_amount-eq-ok r b a c h = ground arith

pay_holder-eq-ok :
    (pool holder a : ℕ) (v w : Vault)
    → pay_holder pool holder a v ≡ ok w
    → (a ≤ v.lp_holder_pool pool)
      × (w.registries ≡ v.registries)
      × (w.claims ≡ v.claims)
      × ((q : ℕ)
          → w.lp_holder_pool q
            ≡ (if q == pool then v.lp_holder_pool pool - a else v.lp_holder_pool q))
      × ((q : ℕ) → w.wallets q ≡ (if q == holder then v.wallets holder + a else v.wallets q))
      × (w.config ≡ v.config)
      × (w.receipts ≡ v.receipts)
unfolding pay_holder
pay_holder-eq-ok pool holder a v w h = (
  ground arith,
  ground arith,
  ground arith,
  λ q. ground arith,
  λ q. ground arith,
  ground arith,
  ground arith,
)

-- What a successful claim did to the state `v`, as its comment at `claim-Claimed` says.
pub record Claimed (hash : Hash) (holder : ℕ) (p : ClaimLpProceedsParams) (v w : Vault)
    : Type 0 where
  pub registry : PoolRegistry
  pub amount : ℕ
  pub found : v.registries p.pool_address ≡ some registry
  pub first : claimed_already p.pool_address holder v.claims ≡ false
  pub proved :
      verify_proof hash registry.lp_snapshot_merkle_root
        (compute_leaf hash holder p.lp_balance_at_snapshot)
        p.merkle_proof
      ≡ true
  pub pro_rata :
      amount
      ≡ registry.lp_holder_pool_total_lamports * p.lp_balance_at_snapshot
        / registry.lp_total_supply_at_snapshot
  pub covered : amount ≤ v.lp_holder_pool p.pool_address
  pub within :
      registry.lp_holder_pool_claimed_lamports + amount ≤ registry.lp_holder_pool_total_lamports
  pub registries :
      (q : ℕ)
      → w.registries q ≡ (
          if q == p.pool_address
          then some (record registry {
            lp_holder_pool_claimed_lamports = registry.lp_holder_pool_claimed_lamports + amount;
          })
          else v.registries q)
  pub pools :
      (q : ℕ)
      → w.lp_holder_pool q ≡ (
          if q == p.pool_address
          then v.lp_holder_pool p.pool_address - amount
          else v.lp_holder_pool q)
  pub wallets :
      (q : ℕ) → w.wallets q ≡ (if q == holder then v.wallets holder + amount else v.wallets q)
  pub record_written :
      (q h : ℕ)
      → claimed_already q h w.claims
        ≡ ((p.pool_address == q && holder == h) || claimed_already q h v.claims)
  pub config : w.config ≡ v.config
  pub receipts : w.receipts ≡ v.receipts
  pub paid_out :
      (q : ℕ) → paid q w.claims ≡ (if p.pool_address == q then amount else 0) + paid q v.claims

claim_checks-eq-ok :
    (hash : Hash) (holder : ℕ) (p : ClaimLpProceedsParams) (r : PoolRegistry)
    → claim_checks hash holder p r ≡ ok tt
    → verify_proof hash r.lp_snapshot_merkle_root
        (compute_leaf hash holder p.lp_balance_at_snapshot)
        p.merkle_proof
      ≡ true
unfolding claim_checks
claim_checks-eq-ok hash holder p r h = ground arith

-- A successful claim is the holder's first on a pool that has a registry, its Merkle proof holds,
-- and its amount is the floor of the pool's total times the balance over the supply. The pool's
-- account covers the amount and shrinks by it, the signer's wallet grows by it, the registry's
-- claimed total grows by it, stays within the pool's total and is the only field of the registry
-- that changes, and one claim record is written. No other registry, pool or wallet changes, and
-- neither do the config and the receipts.
pub claim-Claimed :
    (hash : Hash) (clock : Clock) (bump holder : ℕ) (p : ClaimLpProceedsParams) (v w : Vault)
    → claim_lp_proceeds hash clock bump holder p v ≡ ok w
    → Claimed hash holder p v w
unfolding claim_lp_proceeds claim_record
claim-Claimed hash clock bump holder p v w h =
    ok_or_ok (v.registries p.pool_address) account_not_initialized _ h λ r found h1.
      require_ok (not (claimed_already p.pool_address holder v.claims)) account_in_use _ h1
        λ unclaimed h2. bind_ok (claim_checks hash holder p r) _ h2 λ _ checked h3.
          bind_ok (claim_amount r p.lp_balance_at_snapshot) _ h3 λ ac f3 h4.
            bind_ok (pay_holder p.pool_address holder ac.0 v) _ h4 λ v' f4 h5.
              let amounts = claim_amount-eq-ok r p.lp_balance_at_snapshot ac.0 ac.1 f3 in
              let paid_by = pay_holder-eq-ok p.pool_address holder ac.0 v v' f4 in
              record {
                registry = r;
                amount = ac.0;
                found = found;
                first = ground arith;
                proved = claim_checks-eq-ok hash holder p r checked;
                pro_rata = amounts.0;
                covered = paid_by.0;
                within = omega arith;
                registries = λ q. ground arith;
                pools = λ q. ground (arith, paid_by.3 q);
                wallets = λ q. ground (arith, paid_by.4 q);
                record_written = λ q h. ground arith;
                config = ground (arith, paid_by.5);
                receipts = ground (arith, paid_by.6);
                paid_out = λ q. ground arith;
              }

-- A successful claim keeps every pool solvent.
pub claim-PoolSolvent :
    (hash : Hash) (clock : Clock) (bump holder : ℕ) (p : ClaimLpProceedsParams) (v w : Vault)
    → claim_lp_proceeds hash clock bump holder p v ≡ ok w
    → ((q : ℕ) → PoolSolvent v q)
    → (q : ℕ) → PoolSolvent w q
claim-PoolSolvent hash clock bump holder p v w h solvent q =
    let c = claim-Claimed hash clock bump holder p v w h in
    ground (arith, solvent q, c.found, c.covered, c.within, c.registries q, c.pools q, c.paid_out q)

-- After a successful claim any further claim of the same holder on the same pool is refused,
-- whatever balance and proof it brings, and by the account constraint alone.
pub claim_once :
    (hash : Hash) (clock clock' : Clock) (bump bump' holder : ℕ) (p p' : ClaimLpProceedsParams)
    (v w : Vault)
    → claim_lp_proceeds hash clock bump holder p v ≡ ok w
    → p'.pool_address ≡ p.pool_address
    → claim_lp_proceeds hash clock' bump' holder p' w ≡ err account_in_use
unfolding claim_lp_proceeds
claim_once hash clock clock' bump bump' holder p p' v w h same =
    let c = claim-Claimed hash clock bump holder p v w h in
    ground (arith, c.registries p'.pool_address, c.record_written p'.pool_address holder)
