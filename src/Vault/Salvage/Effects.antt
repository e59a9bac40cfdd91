-- ===== src/Vault/Salvage/Effects.antt =====
-- What each part of a settlement does to the state, and what its checks leave.
use graveyield_protocol.Prelude.{
  ℕ, ◌+◌, ◌≤◌, ◌<◌, ◌≡◌, refl, pos, false, none, some, arith, ltb, ◌==◌, if◌then◌else◌, ltb→lt, ok,
  bind_ok, ok_or_ok, require_ok, Table,
}
use graveyield_protocol.Scanner.State.{EligibilityCert, is_expired}
use graveyield_protocol.Vault.Errors.{program, runtime, preflight_failed, amm_redemption_failed}
use graveyield_protocol.Vault.State.{ProtocolConfig, PoolRegistry, SalvageReceipt, Clock, Vault}
use graveyield_protocol.Vault.Proceeds.{split_proceeds}
use graveyield_protocol.Vault.Proceeds.Laws.{split_proceeds_exhausts}
use graveyield_protocol.Vault.Salvage.Accounts.{SalvagePoolParams, SalvagePool, Runtime}
use graveyield_protocol.Vault.Salvage.Preflight.{preflight, lazy_init_system_pda}
use graveyield_protocol.Vault.Salvage.Settlement.{
  share_checks, transfer_from_vault_sol_holding, unwrapped, distribute, new_registry, new_receipt,
}
use graveyield_protocol.Vault.Salvage.Handler.{salvage_constraints, prepared, settle}

pub preflight-eq-ok :
    (cfg : ProtocolConfig) (cert : EligibilityCert) (clock : Clock) (a : SalvagePool)
    (p : SalvagePoolParams)
    → preflight cfg cert clock a p ≡ ok tt
    → (cfg.emergency_paused ≡ false)
      × (is_expired cert clock.unix_timestamp ≡ false)
      × (cert.criteria_bitmap ≡ 63)
      × (cert.amm_program_id ≡ p.amm_program_id)
      × (cert.pool_address ≡ p.pool_address)
unfolding preflight
preflight-eq-ok cfg cert clock a p h =
    (ground arith, ground arith, ground arith, ground arith, ground arith)

pub salvage_constraints-eq-ok :
    (a : SalvagePool) (p : SalvagePoolParams) (v : Vault)
    → salvage_constraints a p v ≡ ok tt
    → (v.registries p.pool_address ≡ none) × (v.receipts p.pool_address ≡ none)
unfolding salvage_constraints
salvage_constraints-eq-ok a p v h = (ground arith, ground arith)

pub share_checks-eq-ok :
    (cfg : ProtocolConfig)
    → share_checks cfg ≡ ok tt
    → (cfg.lp_holder_share_bps + cfg.salvor_share_bps + cfg.protocol_share_bps ≡ 10000)
      × (cfg.protocol_share_bps ≤ 2000)
unfolding share_checks
share_checks-eq-ok cfg h = (ground arith, ground arith)

-- The rent that an account with `n` lamports still needs: all of it, or nothing once it is funded.
abbrev pub rent_due : ℕ → ℕ → ℕ
rent_due rent n = if n == 0 then rent else 0

lazy_init-eq-ok :
    (rent n payer n' payer' : ℕ)
    → lazy_init_system_pda rent n payer ≡ ok (n', payer')
    → (r : ℕ) × (n' ≡ n + r) × (payer ≡ payer' + r) × (r ≡ rent_due rent n)
unfolding lazy_init_system_pda
lazy_init-eq-ok rent n payer n' payer' h = (rent_due rent n, ground arith, ground arith, refl)

transfer-eq-ok :
    (source to amount source' to' : ℕ)
    → transfer_from_vault_sol_holding source to amount ≡ ok (source', to')
    → (source ≡ source' + amount) × (to' ≡ to + amount)
unfolding transfer_from_vault_sol_holding
transfer-eq-ok source to amount source' to' h = (ground arith, ground arith)

-- The rents `r1` and `r2` go from the salvor's wallet to the pool's two accounts.
pub prepared-eq-ok :
    (rt : Runtime) (a : SalvagePool) (pool : ℕ) (v w : Vault)
    → prepared rt a pool v ≡ ok w
    → (r1 : ℕ) × (r2 : ℕ) × (w.registries ≡ v.registries)
      × (w.receipts ≡ v.receipts)
      × (w.claims ≡ v.claims)
      × (w.config ≡ v.config)
      × (w.treasury ≡ v.treasury)
      × (w.wallets a.salvor + r1 + r2 ≡ v.wallets a.salvor)
      × ((q : ℕ)
          → w.lp_holder_pool q
            ≡ (if q == pool then v.lp_holder_pool pool + r1 else v.lp_holder_pool q))
      × ((q : ℕ)
          → w.sol_holding q ≡ (if q == pool then v.sol_holding pool + r2 else v.sol_holding q))
      × (r1 ≡ rent_due rt.minimum_balance (v.lp_holder_pool pool))
      × (r2 ≡ rent_due rt.minimum_balance (v.sol_holding pool))
unfolding prepared
prepared-eq-ok rt a pool v w h =
    bind_ok (lazy_init_system_pda rt.minimum_balance (v.lp_holder_pool pool) (v.wallets a.salvor)) _
      h
      λ x fx h1.
        bind_ok (lazy_init_system_pda rt.minimum_balance (v.sol_holding pool) x.1) _ h1 λ y fy h2.
          let e1 =
            lazy_init-eq-ok rt.minimum_balance (v.lp_holder_pool pool) (v.wallets a.salvor) x.0 x.1
              fx in
          let e2 = lazy_init-eq-ok rt.minimum_balance (v.sol_holding pool) x.1 y.0 y.1 fy in
          (
            e1.0,
            e2.0,
            ground arith,
            ground arith,
            ground arith,
            ground arith,
            ground arith,
            ground (arith, e1.2, e2.2),
            λ q. ground (arith, e1.1),
            λ q. ground (arith, e2.1),
            e1.3,
            e2.3,
          )

-- The three transfers leave the holding account with what it had less the three shares.
pub distribute-eq-ok :
    (pool salvor s l p : ℕ) (v w : Vault)
    → distribute pool salvor (s, l, p) v ≡ ok w
    → (w.registries ≡ v.registries)
      × (w.receipts ≡ v.receipts)
      × (w.claims ≡ v.claims)
      × (w.config ≡ v.config)
      × (w.tokens ≡ v.tokens)
      × (w.treasury ≡ v.treasury + p)
      × (w.wallets salvor ≡ v.wallets salvor + s)
      × ((q : ℕ)
          → w.lp_holder_pool q
            ≡ (if q == pool then v.lp_holder_pool pool + l else v.lp_holder_pool q))
      × (v.sol_holding pool ≡ w.sol_holding pool + (s + l + p))
unfolding distribute
distribute-eq-ok pool salvor s l p v w h =
    bind_ok (transfer_from_vault_sol_holding (v.sol_holding pool) (v.wallets salvor) s) _ h
      λ x fx h1.
        bind_ok (transfer_from_vault_sol_holding x.0 (v.lp_holder_pool pool) l) _ h1 λ y fy h2.
          bind_ok (transfer_from_vault_sol_holding y.0 v.treasury p) _ h2 λ z fz h3.
            let e1 = transfer-eq-ok (v.sol_holding pool) (v.wallets salvor) s x.0 x.1 fx in
            let e2 = transfer-eq-ok x.0 (v.lp_holder_pool pool) l y.0 y.1 fy in
            let e3 = transfer-eq-ok y.0 v.treasury p z.0 z.1 fz in
            (
              ground arith,
              ground arith,
              ground arith,
              ground arith,
              ground arith,
              ground (arith, e3.1),
              ground (arith, e1.1),
              λ q. ground (arith, e2.1),
              ground (arith, e1.0, e2.0, e3.0),
            )

-- The registry and the receipt that are due.
abbrev pub sealed_registry : Clock → SalvagePool → SalvagePoolParams → ℕ → PoolRegistry
sealed_registry clock a p total = record {
  amm_program_id = p.amm_program_id;
  pool_address = p.pool_address;
  salvor = a.salvor;
  lp_snapshot_merkle_root = p.lp_snapshot_merkle_root;
  lp_total_supply_at_snapshot = p.lp_total_supply_at_snapshot;
  lp_holder_pool_total_lamports = total;
  lp_holder_pool_claimed_lamports = 0;
  salvaged_at_slot = clock.slot;
  salvaged_at_ts = clock.unix_timestamp;
  bump = a.registry_bump;
}

abbrev pub issued_receipt :
    Clock → SalvagePool → SalvagePoolParams → ℕ → ℕ → ℕ → ℕ → ℕ → SalvageReceipt
issued_receipt clock a p to_salvor to_holders to_protocol total dust = record {
  pool_address = p.pool_address;
  salvor = a.salvor;
  lp_holder_amount_lamports = to_holders;
  salvor_amount_lamports = to_salvor;
  protocol_amount_lamports = to_protocol;
  total_proceeds_lamports = total;
  issued_at_slot = clock.slot;
  issued_at_ts = clock.unix_timestamp;
  memecoin_mint = a.memecoin_mint;
  dust_memecoin_lamports = dust;
  dust_swept_at_ts = pos 0;
  bump = a.receipt_bump;
}

-- What `settle` did, as the comment at `salvage-Salvaged` says.
pub record Settled (rt : Runtime) (cfg : ProtocolConfig) (a : SalvagePool) (p : SalvagePoolParams)
    (v w : Vault) : Type 0 where
  pub total : ℕ
  pub salvor_share : ℕ
  pub lp_holder_share : ℕ
  pub protocol_share : ℕ
  pub dust : ℕ
  pub recovered : v.tokens a.vault_base_token_account ≡ some total
  pub some_proceeds : 0 < total
  pub shares : cfg.lp_holder_share_bps + cfg.salvor_share_bps + cfg.protocol_share_bps ≡ 10000
  pub ceiling : cfg.protocol_share_bps ≤ 2000
  pub split :
      split_proceeds total cfg.salvor_share_bps cfg.lp_holder_share_bps
      ≡ ok (salvor_share, lp_holder_share, protocol_share)
  pub exhausted : salvor_share + lp_holder_share + protocol_share ≡ total
  pub config : w.config ≡ v.config
  pub claims : w.claims ≡ v.claims
  pub treasury : w.treasury ≡ v.treasury + protocol_share
  pub wallet : w.wallets a.salvor ≡ v.wallets a.salvor + salvor_share
  pub pools :
      (q : ℕ)
      → w.lp_holder_pool q ≡ (
          if q == p.pool_address
          then v.lp_holder_pool p.pool_address + lp_holder_share
          else v.lp_holder_pool q)
  pub unwrapped_lamports : ℕ
  pub tokens_after : Table ℕ
  pub closed :
      rt.close_account a.vault_base_token_account a.vault_sol_holding_account a.vault_authority
        v.tokens
      ≡ some (tokens_after, unwrapped_lamports)
  pub tokens : w.tokens ≡ tokens_after
  pub left_over : w.tokens a.vault_memecoin_token_account ≡ some dust
  pub holding :
      w.sol_holding p.pool_address + total ≡ v.sol_holding p.pool_address + unwrapped_lamports
  pub registries :
      (q : ℕ)
      → w.registries q ≡ (
          if q == p.pool_address
          then some (sealed_registry rt.clock a p lp_holder_share)
          else v.registries q)
  pub receipts :
      (q : ℕ)
      → w.receipts q ≡ (
          if q == p.pool_address
          then some
              (issued_receipt rt.clock a p salvor_share lp_holder_share protocol_share total dust)
          else v.receipts q)

unwrapped-eq-ok :
    (rt : Runtime) (a : SalvagePool) (pool : ℕ) (v w : Vault)
    → unwrapped rt a pool v ≡ ok w
    → (n : ℕ) × (rt.close_account a.vault_base_token_account a.vault_sol_holding_account
          a.vault_authority v.tokens
        ≡ some (w.tokens, n))
      × (w.sol_holding pool ≡ v.sol_holding pool + n)
      × (w.registries ≡ v.registries)
      × (w.receipts ≡ v.receipts)
      × (w.claims ≡ v.claims)
      × (w.config ≡ v.config)
      × (w.treasury ≡ v.treasury)
      × (w.wallets ≡ v.wallets)
      × (w.lp_holder_pool ≡ v.lp_holder_pool)
unfolding unwrapped
unwrapped-eq-ok rt a pool v w h =
    ok_or_ok
      (rt.close_account a.vault_base_token_account a.vault_sol_holding_account a.vault_authority
        v.tokens)
      runtime _ h
      λ x fx h1. (
        x.1,
        ground (arith, fx),
        ground arith,
        ground arith,
        ground arith,
        ground arith,
        ground arith,
        ground arith,
        ground arith,
        ground arith,
      )

pub settle-Settled :
    (rt : Runtime) (cfg : ProtocolConfig) (a : SalvagePool) (p : SalvagePoolParams) (v w : Vault)
    → settle rt cfg a p v ≡ ok w
    → Settled rt cfg a p v w
unfolding settle new_registry new_receipt
settle-Settled rt cfg a p v w h =
    ok_or_ok (v.tokens a.vault_base_token_account) (program preflight_failed) _ h λ total found h1.
      require_ok (ltb 0 total) (program amm_redemption_failed) _ h1 λ positive h2.
        bind_ok (unwrapped rt a p.pool_address v) _ h2 λ v1 f1 h3.
          bind_ok (share_checks cfg) _ h3 λ _ checked h4.
            bind_ok (split_proceeds total cfg.salvor_share_bps cfg.lp_holder_share_bps) _ h4
              λ x fx h5. bind_ok (distribute p.pool_address a.salvor x v1) _ h5 λ u fu h6.
                ok_or_ok (u.tokens a.vault_memecoin_token_account) (program preflight_failed) _ h6
                  λ dust fd h7.
                    let before = unwrapped-eq-ok rt a p.pool_address v v1 f1 in
                    let moved = distribute-eq-ok p.pool_address a.salvor x.0 x.1 x.2 v1 u fu in
                    let ratios = share_checks-eq-ok cfg checked in
                    let whole =
                      split_proceeds_exhausts total cfg.salvor_share_bps cfg.lp_holder_share_bps x.0
                        x.1 x.2 fx in
                    record {
                      total = total;
                      salvor_share = x.0;
                      lp_holder_share = x.1;
                      protocol_share = x.2;
                      dust = dust;
                      recovered = found;
                      some_proceeds = ltb→lt 0 total positive;
                      shares = ratios.0;
                      ceiling = ratios.1;
                      split = fx;
                      exhausted = whole;
                      config = ground arith;
                      claims = ground arith;
                      treasury = ground arith;
                      wallet = ground arith;
                      pools = λ q. ground (arith, (moved.7) q);
                      unwrapped_lamports = before.0;
                      tokens_after = v1.tokens;
                      closed = before.1;
                      tokens = ground arith;
                      left_over = ground (arith, fd);
                      holding = ground (arith, whole);
                      registries = λ q. ground arith;
                      receipts = λ q. ground arith;
                    }
