-- ===== src/Vault/Claim/Fairness.antt =====
-- Every entitled holder can claim, in any order: the claims of the holders of an honest snapshot
-- all succeed, and each gets its share whatever was claimed before.
use graveyield_protocol.Prelude.{
  ℕ, ◌+◌, ◌*◌, ◌/◌, ◌≤◌, ◌<◌, ◌≡◌, ◌≢◌, refl, sym, ap, ◌∙◌, false, some, List, [], ◌∷◌, arith, All,
  true, Result, ok, ◌>>=◌, u64_mod,
}
use mathlib.Core.Path.{subst}
use native.Mathlib.Nat.{add-zero, add_assoc}
use graveyield_protocol.Vault.Errors.{VaultFailure}
use graveyield_protocol.Vault.State.{PoolRegistry, Clock, Vault, claimed_already}
use graveyield_protocol.Vault.Merkle.{Hash, compute_leaf, verify_proof}
use graveyield_protocol.Vault.Claim.{ClaimLpProceedsParams, rent_paid, claim_with_rent}
use graveyield_protocol.Vault.Claim.Conservation.{Claimed, claim-Claimed}
use graveyield_protocol.Vault.Claim.Success.{
  share_fits, claim_checks_ok, CanClaim, CanClaim-charged, init_claim_record_ok, claim_succeeds,
}

-- A holder and the parameters that it signs.
abbrev pub Claimant : Type 0
Claimant = ℕ × ClaimLpProceedsParams

-- Claims one after the other; the first failure ends the run.
unfoldable pub run_claims : Hash → Clock → ℕ → ℕ → List Claimant → Vault → Result VaultFailure Vault
run_claims hash clock bump rent [] v = ok v
run_claims hash clock bump rent (c ∷ cs) v =
    claim_with_rent hash clock bump rent c.0 c.1 v >>= run_claims hash clock bump rent cs

abbrev pub balances : List Claimant → ℕ
balances [] = 0
balances (c ∷ cs) = c.1.lp_balance_at_snapshot + balances cs

abbrev pub share : PoolRegistry → Claimant → ℕ
share r c =
    r.lp_holder_pool_total_lamports * c.1.lp_balance_at_snapshot / r.lp_total_supply_at_snapshot

abbrev pub shares : PoolRegistry → List Claimant → ℕ
shares r [] = 0
shares r (c ∷ cs) = share r c + shares r cs

-- The claimant names the pool and a positive balance, has a proof of it that the sealed root
-- accepts, has no record yet, and has the rent of one.
abbrev pub Entitled : Hash → ℕ → ℕ → PoolRegistry → Vault → Claimant → Type 0
Entitled hash pool rent r v c =
    (c.1.pool_address ≡ pool)
    × (0 < c.1.lp_balance_at_snapshot)
    × (verify_proof hash r.lp_snapshot_merkle_root
          (compute_leaf hash c.0 c.1.lp_balance_at_snapshot) c.1.merkle_proof
        ≡ true)
    × (claimed_already pool c.0 v.claims ≡ false)
    × (rent ≤ v.wallets c.0)

abbrev pub NotAmong : ℕ → List Claimant → Type 0
NotAmong h cs = All (λ c. h ≢ c.0) cs

abbrev pub DistinctHolders : List Claimant → Type 0
DistinctHolders [] = Unit
DistinctHolders (c ∷ cs) = NotAmong c.0 cs × DistinctHolders cs

-- Every claimant's wallet has grown by its share, less the rent.
abbrev pub AllPaid : ℕ → PoolRegistry → Vault → Vault → List Claimant → Type 0
AllPaid rent r v w [] = Unit
AllPaid rent r v w (c ∷ cs) =
    (w.wallets c.0 + rent ≡ v.wallets c.0 + share r c) × AllPaid rent r v w cs

record Outcome (hash : Hash) (clock : Clock) (bump rent pool : ℕ) (r : PoolRegistry) (v : Vault)
    (cs : List Claimant) : Type 0 where
  final : Vault
  ran : run_claims hash clock bump rent cs v ≡ ok final
  counted :
      final.registries pool
      ≡ some (record r {
        lp_holder_pool_claimed_lamports = r.lp_holder_pool_claimed_lamports + shares r cs;
      })
  drawn : final.lp_holder_pool pool + shares r cs ≡ v.lp_holder_pool pool
  each : AllPaid rent r v final cs
  others : (h : ℕ) → NotAmong h cs → final.wallets h ≡ v.wallets h

-- The registry after a claim of `a`.
abbrev counting : PoolRegistry → ℕ → PoolRegistry
counting r a = record r { lp_holder_pool_claimed_lamports = r.lp_holder_pool_claimed_lamports + a }

Entitled-after :
    (hash : Hash) (pool rent a : ℕ) (r : PoolRegistry) (v w : Vault) (h : ℕ) (cs : List Claimant)
    → ((k : ℕ) → h ≢ k → claimed_already pool k w.claims ≡ claimed_already pool k v.claims)
    → ((k : ℕ) → h ≢ k → w.wallets k ≡ v.wallets k)
    → NotAmong h cs
    → All (Entitled hash pool rent r v) cs
    → All (Entitled hash pool rent (counting r a) w) cs
Entitled-after hash pool rent a r v w h [] same wallets apart ent = tt
Entitled-after hash pool rent a r v w h (c ∷ cs) same wallets apart ent =
    let e = ent.0 in
    (
      (e.0, e.1, e.2, rw (same c.0 apart.0) e.3, rw (wallets c.0 apart.0) e.4),
      Entitled-after hash pool rent a r v w h cs same wallets apart.1 ent.1,
    )

AllPaid-before :
    (r : PoolRegistry) (rent a : ℕ) (v u w : Vault) (h : ℕ) (cs : List Claimant)
    → ((k : ℕ) → h ≢ k → u.wallets k ≡ v.wallets k)
    → NotAmong h cs
    → AllPaid rent (counting r a) u w cs
    → AllPaid rent r v w cs
AllPaid-before r rent a v u w h [] same apart p = tt
AllPaid-before r rent a v u w h (c ∷ cs) same apart p =
    (rw (← same c.0 apart.0) p.0, AllPaid-before r rent a v u w h cs same apart.1 p.1)

shares-counting :
    (r : PoolRegistry) (a : ℕ) (cs : List Claimant) → shares (counting r a) cs ≡ shares r cs
shares-counting r a [] = refl
shares-counting r a (c ∷ cs) = omega (arith, shares-counting r a cs)

-- What a claim at a known registry did.
record Paid (pool rent : ℕ) (r : PoolRegistry) (c : Claimant) (v w : Vault) : Type 0 where
  counted : w.registries pool ≡ some (counting r (share r c))
  drawn : w.lp_holder_pool pool + share r c ≡ v.lp_holder_pool pool
  grown : w.wallets c.0 + rent ≡ v.wallets c.0 + share r c
  wallets : (k : ℕ) → c.0 ≢ k → w.wallets k ≡ v.wallets k
  unclaimed : (k : ℕ) → c.0 ≢ k → claimed_already pool k w.claims ≡ claimed_already pool k v.claims

Claimed-Paid :
    (hash : Hash) (pool rent : ℕ) (r : PoolRegistry) (c : Claimant) (v w : Vault)
    → rent ≤ v.wallets c.0
    → v.registries pool ≡ some r
    → c.1.pool_address ≡ pool
    → Claimed hash c.0 c.1 (rent_paid rent c.0 v) w
    → Paid pool rent r c v w
Claimed-Paid hash pool rent r c v w affords found named cl =
    let same : cl.registry ≡ r = ground (arith, cl.found) in
    let amount : cl.amount ≡ share r c = rw (← same) cl.pro_rata in
    record {
      counted = ground (arith, cl.registries pool);
      drawn = ground (arith, cl.pools pool, cl.covered);
      grown = ground (arith, cl.wallets c.0, affords);
      wallets = λ k n. ground (arith, cl.wallets k);
      unclaimed = λ k n. ground (arith, cl.record_written pool k);
    }

CanClaim-next :
    (hash : Hash) (pool rent d : ℕ) (r : PoolRegistry) (c : Claimant) (v w : Vault)
    → CanClaim hash pool d v r
    → d + c.1.lp_balance_at_snapshot ≤ r.lp_total_supply_at_snapshot
    → Paid pool rent r c v w
    → CanClaim hash pool (d + c.1.lp_balance_at_snapshot) w (counting r (share r c))
CanClaim-next hash pool rent d r c v w can room p =
    let fits =
      share_fits r.lp_holder_pool_total_lamports r.lp_total_supply_at_snapshot
        r.lp_holder_pool_claimed_lamports d c.1.lp_balance_at_snapshot can.supply_pos
        can.claimed_share room in
    record {
      found = p.counted;
      total_fits = can.total_fits;
      supply_fits = can.supply_fits;
      supply_pos = can.supply_pos;
      in_account = omega (arith, can.in_account, p.drawn);
      claimed_share = fits.1;
    }

NotAmong-sym : (h k : ℕ) → h ≢ k → k ≢ h
NotAmong-sym h k n = omega arith

run_claims-Outcome :
    (hash : Hash) (clock : Clock) (bump rent pool d : ℕ) (r : PoolRegistry) (v : Vault)
    (cs : List Claimant)
    → CanClaim hash pool d v r
    → All (Entitled hash pool rent r v) cs
    → DistinctHolders cs
    → d + balances cs ≤ r.lp_total_supply_at_snapshot
    → Outcome hash clock bump rent pool r v cs
unfolding run_claims claim_with_rent
run_claims-Outcome hash clock bump rent pool d r v [] can ent apart room = record {
  final = v;
  ran = refl;
  counted = rw (add-zero r.lp_holder_pool_claimed_lamports) can.found;
  drawn = omega arith;
  each = tt;
  others = λ h n. refl;
}
run_claims-Outcome hash clock bump rent pool d r v (c ∷ cs) can ent apart room =
    let (named, positive, accepted, unclaimed, affords) = ent.0 in
    let charged = init_claim_record_ok rent c.0 v affords in
    let v1 = rent_paid rent c.0 v in
    let checked = claim_checks_ok hash c.0 c.1 r positive can.supply_pos accepted in
    let (w, ran) =
      claim_succeeds hash clock bump c.0 d c.1 v1 r
        (subst (λ q. CanClaim hash q d v1 r) (sym named)
          (CanClaim-charged hash pool rent d c.0 v r can))
        (rw named unclaimed) checked (omega arith) in
    let p =
      Claimed-Paid hash pool rent r c v w affords can.found named
        (claim-Claimed hash clock bump c.0 c.1 v1 w ran) in
    let rest =
      run_claims-Outcome hash clock bump rent pool (d + c.1.lp_balance_at_snapshot)
        (counting r (share r c)) w cs (CanClaim-next hash pool rent d r c v w can (omega arith) p)
        (Entitled-after hash pool rent (share r c) r v w c.0 cs p.unclaimed p.wallets apart.0 ent.1)
        apart.1 (omega arith) in
    let sums = shares-counting r (share r c) cs in
    record {
      final = rest.final;
      ran = rw (charged, ran) rest.ran;
      counted =
          rw (← add_assoc r.lp_holder_pool_claimed_lamports (share r c) (shares r cs), ← sums)
            rest.counted;
      drawn = omega (arith, rest.drawn, p.drawn, sums);
      each = (
        ap (λ n. n + rent) (rest.others c.0 apart.0) ∙ p.grown,
        AllPaid-before r rent (share r c) v w rest.final c.0 cs p.wallets apart.0 rest.each,
      );
      others = λ h n. rest.others h n.1 ∙ p.wallets h (λ e. n.0 (sym e));
    }

-- A pool whose account holds what its registry still owes, with nothing claimed yet, a u64 total
-- and a positive u64 supply in the snapshot: when distinct holders without a claim record, each with
-- a positive balance, a proof of it that the registry's root accepts and the rent of a claim record
-- in the wallet, and with balances that sum to at most that supply, claim one after the other in any
-- order, every claim succeeds, each holder's wallet grows by the floor of the pool's total times
-- its balance over the supply, less that rent, and the registry and the pool's account count exactly
-- the sum of these shares.
pub run_claims-AllPaid :
    (hash : Hash) (clock : Clock) (bump rent pool : ℕ) (r : PoolRegistry) (v : Vault)
    (cs : List Claimant)
    → v.registries pool ≡ some r
    → r.lp_holder_pool_claimed_lamports ≡ 0
    → r.lp_holder_pool_total_lamports ≤ v.lp_holder_pool pool
    → r.lp_holder_pool_total_lamports < u64_mod
    → r.lp_total_supply_at_snapshot < u64_mod
    → 0 < r.lp_total_supply_at_snapshot
    → All (Entitled hash pool rent r v) cs
    → DistinctHolders cs
    → balances cs ≤ r.lp_total_supply_at_snapshot
    → (w : Vault) × (run_claims hash clock bump rent cs v ≡ ok w)
      × AllPaid rent r v w cs
      × (w.registries pool ≡ some (record r { lp_holder_pool_claimed_lamports = shares r cs }))
      × (w.lp_holder_pool pool + shares r cs ≡ v.lp_holder_pool pool)
run_claims-AllPaid hash clock bump rent pool r v cs found fresh held ht hs pos ent apart room =
    let zero_claimed : r.lp_holder_pool_claimed_lamports * r.lp_total_supply_at_snapshot
        ≤ r.lp_holder_pool_total_lamports * 0 =
      rw fresh (grind arith) in
    let out =
      run_claims-Outcome hash clock bump rent pool 0 r v cs
        (record {
          found = found;
          total_fits = ht;
          supply_fits = hs;
          supply_pos = pos;
          in_account = omega arith;
          claimed_share = zero_claimed;
        })
        ent apart (omega arith) in
    (out.final, out.ran, out.each, ground (arith, out.counted), out.drawn)
