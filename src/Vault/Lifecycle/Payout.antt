-- ===== src/Vault/Lifecycle/Payout.antt =====
-- From a settlement to the claims on it: what is set aside for the LP holders pays them all.
use graveyield_protocol.Prelude.{ℕ, ◌+◌, ◌≤◌, ◌<◌, ◌≡◌, Option, some, List, arith, All, u64_mod, ok}
use graveyield_protocol.Scanner.State.{EligibilityCert}
use graveyield_protocol.Vault.State.{PoolRegistry, Clock, Vault}
use graveyield_protocol.Vault.Merkle.{Hash}
use graveyield_protocol.Vault.Cpi.{Invoke}
use graveyield_protocol.Vault.Claim.Fairness.{
  Claimant, run_claims, balances, shares, Entitled, DistinctHolders, AllPaid, run_claims-AllPaid,
}
use graveyield_protocol.Vault.Salvage.Accounts.{SalvagePool, SalvagePoolParams, Runtime}
use graveyield_protocol.Vault.Salvage.Settlement.{new_registry}
use graveyield_protocol.Vault.Salvage.Handler.{salvage_pool}
use graveyield_protocol.Vault.Salvage.Conservation.{salvage-Salvaged}

-- After a successful settlement that sealed the registry `r`, with a u64 LP-holder total and a
-- positive u64 supply in the snapshot: when distinct holders with positive balances whose proofs the
-- sealed root accepts, who have no claim record and the rent of one in their wallets, and whose
-- balances sum to at most that supply, claim in any order, every claim succeeds, each wallet grows
-- by the pro-rata share less that rent, and the pool's account shrinks by the sum of the shares.
pub settled_holders-AllPaid :
    (hash : Hash) (clock : Clock) (bump rent : ℕ) (invoke : Invoke) (rt : Runtime)
    (certs : ℕ → ℕ → Option EligibilityCert) (a : SalvagePool) (p : SalvagePoolParams) (v w : Vault)
    (r : PoolRegistry) (cs : List Claimant)
    → salvage_pool invoke rt certs a p v ≡ ok w
    → w.registries p.pool_address ≡ some r
    → r.lp_holder_pool_total_lamports < u64_mod
    → p.lp_total_supply_at_snapshot < u64_mod
    → 0 < p.lp_total_supply_at_snapshot
    → All (Entitled hash p.pool_address rent r w) cs
    → DistinctHolders cs
    → balances cs ≤ p.lp_total_supply_at_snapshot
    → (u : Vault) × (run_claims hash clock bump rent cs w ≡ ok u)
      × AllPaid rent r w u cs
      × (u.lp_holder_pool p.pool_address + shares r cs ≡ w.lp_holder_pool p.pool_address)
unfolding new_registry
settled_holders-AllPaid hash clock bump rent invoke rt certs a p v w r cs h found ht hs pos ent
      apart room =
    let d = salvage-Salvaged invoke rt certs a p v w h in
    let sealed : new_registry rt.clock a p d.settled.lp_holder_share ≡ r =
      ground (arith, found, d.settled.registries p.pool_address) in
    let supply : r.lp_total_supply_at_snapshot ≡ p.lp_total_supply_at_snapshot =
      ground (arith, sealed) in
    let fresh : r.lp_holder_pool_claimed_lamports ≡ 0 = ground (arith, sealed) in
    let total : r.lp_holder_pool_total_lamports ≡ d.settled.lp_holder_share =
      ground (arith, sealed) in
    let held : r.lp_holder_pool_total_lamports ≤ w.lp_holder_pool p.pool_address =
      ground (arith, total, d.pools_after p.pool_address) in
    let (u, ran, paid, _, drawn) =
      run_claims-AllPaid hash clock bump rent p.pool_address r w cs found fresh held ht
        (rw supply hs) (rw supply pos) ent apart (rw supply room) in
    (u, ran, paid, drawn)
