-- ===== src/Vault/Lifecycle/Custody.antt =====
-- What time cannot undo: the LP holders' lamports leave only by claims, a pool is settled once, and
-- a holder claims once.
use graveyield_protocol.Prelude.{
  ℕ, ◌+◌, ◌≤◌, ◌<◌, ◌≡◌, ◌≢◌, refl, true, some, arith, ◌==◌, inl, inr, Option, Bool-cases, ok,
  bind_ok, Result,
}
use graveyield_protocol.Scanner.State.{EligibilityCert}
use graveyield_protocol.Vault.Errors.{VaultFailure}
use graveyield_protocol.Vault.State.{Clock, ProtocolConfig, PoolRegistry, Vault, claimed_already}
use graveyield_protocol.Vault.Merkle.{Hash}
use graveyield_protocol.Vault.Config.{initialize, update_protocol_config, emergency_pause}
use graveyield_protocol.Vault.Cpi.{Invoke}
use graveyield_protocol.Vault.Claim.{ClaimLpProceedsParams, claim_lp_proceeds}
use graveyield_protocol.Vault.Claim.Conservation.{Claimed, claim-Claimed}
use graveyield_protocol.Vault.Salvage.Accounts.{SalvagePool, SalvagePoolParams, Runtime}
use graveyield_protocol.Vault.Salvage.Settlement.{new_registry}
use graveyield_protocol.Vault.Salvage.Handler.{salvage_pool}
use graveyield_protocol.Vault.Salvage.Conservation.{salvage-Salvaged}
use graveyield_protocol.Vault.Dust.Laws.{sweep_dust-Swept}
use graveyield_protocol.Vault.Lifecycle.{
  GraveVaultInstruction, initialize_protocol, update_config, pause, salvage, claim, sweep, process,
  Step, instruction, outside, Steps, stay, then_step,
}

-- The terms of a registry that never change once it is written.
record SameTerms (r t : PoolRegistry) : Type 0 where
  root : t.lp_snapshot_merkle_root ≡ r.lp_snapshot_merkle_root
  supply : t.lp_total_supply_at_snapshot ≡ r.lp_total_supply_at_snapshot
  total : t.lp_holder_pool_total_lamports ≡ r.lp_holder_pool_total_lamports
  salvor : t.salvor ≡ r.salvor
  claimed : r.lp_holder_pool_claimed_lamports ≤ t.lp_holder_pool_claimed_lamports

-- Everything a step may not undo.
record Kept (v w : Vault) : Type 0 where
  registries :
      (q : ℕ) (r : PoolRegistry)
      → v.registries q ≡ some r
      → (t : PoolRegistry) × (w.registries q ≡ some t) × SameTerms r t
  claims : (q h : ℕ) → claimed_already q h v.claims ≡ true → claimed_already q h w.claims ≡ true

SameTerms-refl : (r : PoolRegistry) → SameTerms r r
SameTerms-refl r = record {
  root = refl;
  supply = refl;
  total = refl;
  salvor = refl;
  claimed = omega arith;
}

SameTerms-trans : (r t u : PoolRegistry) → SameTerms r t → SameTerms t u → SameTerms r u
SameTerms-trans r t u a b = record {
  root = ground (arith, a.root, b.root);
  supply = ground (arith, a.supply, b.supply);
  total = ground (arith, a.total, b.total);
  salvor = ground (arith, a.salvor, b.salvor);
  claimed = ground (arith, a.claimed, b.claimed);
}

Kept-same : (v w : Vault) → w.registries ≡ v.registries → w.claims ≡ v.claims → Kept v w
Kept-same v w er ec = record {
  registries = λ q r h. (r, rw er h, SameTerms-refl r);
  claims = λ q h c. rw ec c;
}

Kept-trans : (u v w : Vault) → Kept u v → Kept v w → Kept u w
Kept-trans u v w a b = record {
  registries = λ q r h.
      let (t, ht, st) = a.registries q r h in
      let (x, hx, sx) = b.registries q t ht in (x, hx, SameTerms-trans r t x st sx);
  claims = λ q h c. b.claims q h (a.claims q h c);
}

config-Kept :
    (v w : Vault) (c : ProtocolConfig)
    → Path (Result VaultFailure Vault) (ok (record v { config = some c })) (ok w)
    → Kept v w
config-Kept v w c e =
    let same : record v { config = some c } ≡ w = cc in
    rw (← same) (Kept-same v (record v { config = some c }) refl refl)

salvage-Kept :
    (invoke : Invoke) (rt : Runtime) (certs : ℕ → ℕ → Option EligibilityCert) (a : SalvagePool)
    (p : SalvagePoolParams) (v w : Vault)
    → salvage_pool invoke rt certs a p v ≡ ok w
    → Kept v w
salvage-Kept invoke rt certs a p v w h =
    let d = salvage-Salvaged invoke rt certs a p v w h in
    record {
      registries = λ q r found. (
        r,
        ground (arith, found, d.settled.registries q, d.registries_kept, d.no_registry),
        SameTerms-refl r,
      );
      claims = λ q h c. rw d.claims_kept c;
    }

claim-Kept :
    (hash : Hash) (clock : Clock) (bump holder : ℕ) (p : ClaimLpProceedsParams) (v w : Vault)
    → claim_lp_proceeds hash clock bump holder p v ≡ ok w
    → Kept v w
claim-Kept hash clock bump holder p v w h =
    let d = claim-Claimed hash clock bump holder p v w h in
    let counting : PoolRegistry → PoolRegistry = λ r. record r {
      lp_holder_pool_claimed_lamports = r.lp_holder_pool_claimed_lamports + d.amount;
    } in
    record {
      registries = λ q r found. elim (Bool-cases (q == p.pool_address)) [
        | inl e ↦ (
          counting r,
          ground (arith, e, found, d.registries q, d.found),
          record { root = refl; supply = refl; total = refl; salvor = refl; claimed = omega arith },
        )
        | inr e ↦ (r, ground (arith, e, found, d.registries q), SameTerms-refl r)
      ];
      claims = λ q h c. ground (arith, c, d.record_written q h);
    }

process-Kept :
    (hash : Hash) (i : GraveVaultInstruction) (v w : Vault) → process hash i v ≡ ok w → Kept v w
unfolding process
process-Kept hash (initialize_protocol bump p) v w h =
    bind_ok (initialize bump p v.config) _ h λ c _ e. config-Kept v w c e
process-Kept hash (update_config signer p) v w h =
    bind_ok (update_protocol_config signer p v.config) _ h λ c _ e. config-Kept v w c e
process-Kept hash (pause signer paused) v w h =
    bind_ok (emergency_pause signer paused v.config) _ h λ c _ e. config-Kept v w c e
process-Kept hash (salvage invoke rt certs a p) v w h = salvage-Kept invoke rt certs a p v w h
process-Kept hash (claim clock bump holder p) v w h = claim-Kept hash clock bump holder p v w h
process-Kept hash (sweep invoke platform clock a p) v w h =
    let d = sweep_dust-Swept invoke platform clock a p v w h in
    Kept-same v w (ground (arith, d.others)) (ground (arith, d.others))

Steps-Kept : (hash : Hash) (v w : Vault) → Steps hash v w → Kept v w
Steps-Kept hash v w (stay u) = Kept-same v v refl refl
Steps-Kept hash v w (then_step {v = u} run (instruction i h)) =
    Kept-trans v u w (Steps-Kept hash v u run) (process-Kept hash i u w h)
Steps-Kept hash v w (then_step {v = u} run (outside o)) =
    Kept-trans v u w (Steps-Kept hash v u run) (Kept-same u w o.registries o.claims)

-- In any step, of the vault or of other programs, in which the LP holders' account of a pool has
-- less afterwards, the step is a claim on that pool: its Merkle proof verifies against the root
-- sealed in the pool's registry, its amount is the pro-rata share, and that is what is missing.
pub lp_holder_pool_unsweepable_lem :
    (hash : Hash) (v w : Vault) (q : ℕ)
    → Step hash v w
    → w.lp_holder_pool q < v.lp_holder_pool q
    → (holder : ℕ) × (p : ClaimLpProceedsParams) × (c : Claimed hash holder p v w) × (p.pool_address
        ≡ q)
      × (w.lp_holder_pool q + c.amount ≡ v.lp_holder_pool q)
unfolding process
lp_holder_pool_unsweepable_lem hash v w q (outside o) less =
    absurd (omega (arith, less, o.lp_holder_pool q))
lp_holder_pool_unsweepable_lem hash v w q (instruction (initialize_protocol bump p) h) less =
    bind_ok (initialize bump p v.config) _ h λ c _ e. absurd (ground (arith, less, e))
lp_holder_pool_unsweepable_lem hash v w q (instruction (update_config signer p) h) less =
    bind_ok (update_protocol_config signer p v.config) _ h λ c _ e. absurd (ground (arith, less, e))
lp_holder_pool_unsweepable_lem hash v w q (instruction (pause signer paused) h) less =
    bind_ok (emergency_pause signer paused v.config) _ h λ c _ e. absurd (ground (arith, less, e))
lp_holder_pool_unsweepable_lem hash v w q (instruction (salvage invoke rt certs a p) h) less =
    let d = salvage-Salvaged invoke rt certs a p v w h in
    absurd (ground (arith, less, d.pools_after q))
lp_holder_pool_unsweepable_lem hash v w q (instruction (sweep invoke platform clock a p) h) less =
    let d = sweep_dust-Swept invoke platform clock a p v w h in
    absurd (ground (arith, less, d.others))
lp_holder_pool_unsweepable_lem hash v w q (instruction (claim clock bump holder p) h) less =
    let d = claim-Claimed hash clock bump holder p v w h in
    let named : p.pool_address ≡ q = ground (arith, less, d.pools q) in
    (holder, p, d, named, ground (arith, d.pools q, d.covered, named))

-- After a successful settlement of a pool, and any further steps, every further settlement of the
-- pool fails; the pool still has a registry, with the root, the supply and the salvor that the
-- settlement sealed.
pub salvaged_for_good :
    (hash : Hash) (invoke invoke' : Invoke) (rt rt' : Runtime)
    (certs certs' : ℕ → ℕ → Option EligibilityCert) (a a' : SalvagePool) (p p' : SalvagePoolParams)
    (v w u x : Vault)
    → salvage_pool invoke rt certs a p v ≡ ok w
    → Steps hash w u
    → p'.pool_address ≡ p.pool_address
    → (salvage_pool invoke' rt' certs' a' p' u ≢ ok x)
      × (r : PoolRegistry) × (u.registries p.pool_address ≡ some r)
      × (r.lp_snapshot_merkle_root ≡ p.lp_snapshot_merkle_root)
      × (r.lp_total_supply_at_snapshot ≡ p.lp_total_supply_at_snapshot)
      × (r.salvor ≡ a.salvor)
unfolding new_registry
salvaged_for_good hash invoke invoke' rt rt' certs certs' a a' p p' v w u x h run same =
    let d = salvage-Salvaged invoke rt certs a p v w h in
    let written = new_registry rt.clock a p d.settled.lp_holder_share in
    let there : w.registries p.pool_address ≡ some written =
      ground (arith, d.settled.registries p.pool_address) in
    let (r, found, terms) = (Steps-Kept hash w u run).registries p.pool_address written there in
    (
      λ again.
          let d' = salvage-Salvaged invoke' rt' certs' a' p' u x again in
          ground (arith, d'.no_registry, found, same),
      r,
      found,
      terms.root,
      terms.supply,
      terms.salvor,
    )

-- After a successful claim, and any further steps, every further claim of the same holder on the
-- same pool fails.
pub claimed_for_good :
    (hash hash' : Hash) (clock clock' : Clock) (bump bump' holder : ℕ)
    (p p' : ClaimLpProceedsParams) (v w u x : Vault)
    → claim_lp_proceeds hash clock bump holder p v ≡ ok w
    → Steps hash w u
    → p'.pool_address ≡ p.pool_address
    → claim_lp_proceeds hash' clock' bump' holder p' u ≢ ok x
claimed_for_good hash hash' clock clock' bump bump' holder p p' v w u x h run same again =
    let d = claim-Claimed hash clock bump holder p v w h in
    let first : claimed_already p.pool_address holder w.claims ≡ true =
      ground (arith, d.record_written p.pool_address holder) in
    let later = (Steps-Kept hash w u run).claims p.pool_address holder first in
    let d' = claim-Claimed hash' clock' bump' holder p' u x again in
    ground (arith, later, d'.first, same)
