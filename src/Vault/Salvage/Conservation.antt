-- ===== src/Vault/Salvage/Conservation.antt =====
-- A settlement as a whole: who gets what, that a pool is settled once, and that it stays solvent.
use graveyield_protocol.Prelude.{
  ℕ, ◌+◌, ◌≡◌, ℤ, ◌<ℤ◌, ◌≢◌, false, Option, none, some, arith, ◌==◌, if◌then◌else◌, Table, ok, err,
  bind_ok, ok_or_ok,
}
use graveyield_protocol.Scanner.State.{EligibilityCert, is_expired}
use graveyield_protocol.Vault.Errors.{account_in_use, account_not_initialized}
use graveyield_protocol.Vault.State.{ProtocolConfig, Vault}
use graveyield_protocol.Vault.Claim.Conservation.{PoolSolvent}
use graveyield_protocol.Vault.Cpi.{Invoke}
use graveyield_protocol.Vault.Salvage.Accounts.{SalvagePoolParams, SalvagePool, Runtime}
use graveyield_protocol.Vault.Salvage.Preflight.{preflight}
use graveyield_protocol.Vault.Salvage.Settlement.{new_registry}
use graveyield_protocol.Vault.Salvage.Handler.{salvage_constraints, prepared, redeem, salvage_pool}
use graveyield_protocol.Vault.Salvage.Effects.{
  preflight-eq-ok, salvage_constraints-eq-ok, prepared-eq-ok, Settled, settle-Settled, rent_due,
}

not_expired : (c : EligibilityCert) (now : ℤ) → is_expired c now ≡ false → now <ℤ c.expires_at
unfolding is_expired
not_expired c now h = ground (arith, h)

-- What a settlement found and did, as the comment at `salvage-Salvaged` says. `middle` is the
-- state after the accounts were funded, with the token balances after the calls.
pub record Salvaged (invoke : Invoke) (rt : Runtime) (certs : ℕ → ℕ → Option EligibilityCert)
    (a : SalvagePool) (p : SalvagePoolParams) (v w : Vault) : Type 0 where
  pub cfg : ProtocolConfig
  pub cert : EligibilityCert
  pub rent1 : ℕ
  pub rent2 : ℕ
  pub first_rent : rent1 ≡ rent_due rt.minimum_balance (v.lp_holder_pool p.pool_address)
  pub second_rent : rent2 ≡ rent_due rt.minimum_balance (v.sol_holding p.pool_address)
  pub before : Table ℕ
  pub middle : Vault
  pub config_found : v.config ≡ some cfg
  pub cert_found : certs p.amm_program_id p.pool_address ≡ some cert
  pub unpaused : cfg.emergency_paused ≡ false
  pub live : rt.clock.unix_timestamp <ℤ cert.expires_at
  pub six_criteria : cert.criteria_bitmap ≡ 63
  pub no_registry : v.registries p.pool_address ≡ none
  pub no_receipt : v.receipts p.pool_address ≡ none
  pub redeemed : redeem invoke cfg a p before ≡ ok middle.tokens
  pub settled : Settled rt cfg a p middle w
  pub config_kept : w.config ≡ v.config
  pub claims_kept : w.claims ≡ v.claims
  pub registries_kept : middle.registries ≡ v.registries
  pub receipts_kept : middle.receipts ≡ v.receipts
  pub treasury_after : w.treasury ≡ v.treasury + settled.protocol_share
  pub wallet_after : w.wallets a.salvor + rent1 + rent2 ≡ v.wallets a.salvor + settled.salvor_share
  pub pools_after :
      (q : ℕ)
      → w.lp_holder_pool q ≡ (
          if q == p.pool_address
          then v.lp_holder_pool p.pool_address + rent1 + settled.lp_holder_share
          else v.lp_holder_pool q)
  pub holding_after :
      w.sol_holding p.pool_address + settled.total
      ≡ v.sol_holding p.pool_address + rent2 + settled.unwrapped_lamports

-- A successful settlement had an unpaused config and, for the submitted AMM and pool, a
-- certificate that ends later and has all six criteria; the pool had no registry and no receipt.
-- The withdraw and the conversion succeeded, the WSOL account then held a positive total, and the
-- config's shares sum to 10,000 bps with the protocol's at most 2,000. The total is split into
-- three shares that sum to it. The salvor funds each of the pool's two accounts that is empty with
-- the rent minimum and no other, and its wallet grows by its share less that; the treasury grows by
-- the protocol's share; the LP holders' account of the pool, the only one that changes, by theirs
-- and its rent. The holding account gets its rent and the lamports of the closed WSOL account, and
-- pays out exactly the total. The pool's registry has the submitted root and supply, the LP
-- holders' share as total and nothing claimed; its receipt has the three shares, the total, the
-- memecoin that is left in the vault's account and no sweep. No other registry or receipt changes,
-- and neither do the config and the claim records. The rents of accounts that the framework makes
-- are not counted.
pub salvage-Salvaged :
    (invoke : Invoke) (rt : Runtime) (certs : ℕ → ℕ → Option EligibilityCert) (a : SalvagePool)
    (p : SalvagePoolParams) (v w : Vault)
    → salvage_pool invoke rt certs a p v ≡ ok w
    → Salvaged invoke rt certs a p v w
unfolding salvage_pool
salvage-Salvaged invoke rt certs a p v w h =
    ok_or_ok v.config account_not_initialized _ h λ cfg fc h1.
      ok_or_ok (certs p.amm_program_id p.pool_address) account_not_initialized _ h1 λ cert fe h2.
        bind_ok (salvage_constraints a p v) _ h2 λ _ constraints h3.
          bind_ok (preflight cfg cert rt.clock a p) _ h3 λ _ checked h4.
            bind_ok (prepared rt a p.pool_address v) _ h4 λ v1 f1 h5.
              bind_ok (redeem invoke cfg a p v1.tokens) _ h5 λ tokens ft h6.
                let fresh = salvage_constraints-eq-ok a p v constraints in
                let facts = preflight-eq-ok cfg cert rt.clock a p checked in
                let funded = prepared-eq-ok rt a p.pool_address v v1 f1 in
                let middle : Vault = record v1 { tokens = tokens } in
                let s = settle-Settled rt cfg a p middle w h6 in
                record {
                  cfg = cfg;
                  cert = cert;
                  rent1 = funded.0;
                  rent2 = funded.1;
                  first_rent = funded.10;
                  second_rent = funded.11;
                  before = v1.tokens;
                  middle = middle;
                  config_found = fc;
                  cert_found = fe;
                  unpaused = facts.0;
                  live = not_expired cert rt.clock.unix_timestamp facts.1;
                  six_criteria = facts.2;
                  no_registry = fresh.0;
                  no_receipt = fresh.1;
                  redeemed = ft;
                  settled = s;
                  config_kept = ground (arith, s.config, funded.5);
                  claims_kept = ground (arith, s.claims, funded.4);
                  registries_kept = funded.2;
                  receipts_kept = funded.3;
                  treasury_after = ground (arith, s.treasury, funded.6);
                  wallet_after = ground (arith, s.wallet, funded.7);
                  pools_after =
                      λ q. ground (arith, s.pools q, (funded.8) q, (funded.8) p.pool_address);
                  holding_after = ground (arith, s.holding, (funded.9) p.pool_address);
                }

-- A successful settlement keeps every pool solvent.
pub salvage-PoolSolvent :
    (invoke : Invoke) (rt : Runtime) (certs : ℕ → ℕ → Option EligibilityCert) (a : SalvagePool)
    (p : SalvagePoolParams) (v w : Vault)
    → salvage_pool invoke rt certs a p v ≡ ok w
    → ((q : ℕ) → PoolSolvent v q)
    → (q : ℕ) → PoolSolvent w q
unfolding new_registry
salvage-PoolSolvent invoke rt certs a p v w h solvent q =
    let s = salvage-Salvaged invoke rt certs a p v w h in
    ground (
      arith,
      solvent q,
      s.no_registry,
      s.claims_kept,
      s.registries_kept,
      s.pools_after q,
      s.settled.registries q,
    )

-- Where a pool has a registry, a settlement of it is refused by the account constraint, whoever
-- submits it and whatever the certificate says, if the config and a certificate are there.
pub salvage_once :
    (invoke : Invoke) (rt : Runtime) (certs : ℕ → ℕ → Option EligibilityCert) (a : SalvagePool)
    (p : SalvagePoolParams) (v : Vault)
    → v.registries p.pool_address ≢ none
    → v.config ≢ none
    → certs p.amm_program_id p.pool_address ≢ none
    → salvage_pool invoke rt certs a p v ≡ err account_in_use
unfolding salvage_pool salvage_constraints
salvage_once invoke rt certs a p v r c e = ground arith
