-- ===== src/Snapshotter/Builder/Sealed.antt =====
-- What a snapshot of snapshotter/src/builder.rs is: an independent account of its leaf set and of
-- its ledgers, which knows no order of the accounts and records.
use graveyield_protocol.Prelude.{
  ℕ, ◌+◌, ◌<◌, ◌≡◌, refl, sym, ap, ◌∙◌, Bool, true, false, Option, none, some, List, [], ◌==◌,
  ==→eq, if◌then◌else◌, Bool-cases, inl, inr, Result, ok, err, ◌>>=◌, bind_ok, require_ok, arith,
  length, u64_mod,
}
use mathlib.Core.Path.{subst}
use graveyield_protocol.Snapshotter.Model.{
  SnapshotError, supply_mismatch, invariant_violated, HolderEntry, validate_entries, IsCanonical,
  validate_entries-IsCanonical,
}
use graveyield_protocol.Snapshotter.Balances.Laws.{total_balance, balance_of}
use graveyield_protocol.Snapshotter.Builder.{
  TokenAccountSnapshot, MintSupply, TokenLockRecord, CustodyResolution, LpSnapshot, SnapshotRequest,
  LpAccountSource, LockedLpEvidence, Excluded, Attributed, Lifted, contains, to_u64, sum_amounts,
  sum_entries, aggregate, exclusion_pass, sort_records, attribute, lift_custody, merge, build,
}
use graveyield_protocol.Snapshotter.Builder.Aggregate.{
  total_amount, held, total_records, locked_for, sum_amounts-total, sum_entries-total,
  aggregate-Grows, merge-Grows, sorted-Attributes,
}
use graveyield_protocol.Snapshotter.Builder.Ledger.{
  sink_balance, unless_sink, exclusion_pass-Divides,
}
use graveyield_protocol.Snapshotter.Builder.Custody.{
  IsCustody, Lifts, unlocked, lifted, lift_custody-Lifts,
}

-- What an owner may claim for own token accounts: nothing where the owner is a sink or the
-- custody account's owner.
abbrev pub unlocked_balance : List ℕ → Option CustodyResolution → List TokenAccountSnapshot → ℕ → ℕ
unlocked_balance sinks none accounts k = unless_sink sinks k (held k accounts)
unlocked_balance sinks (some c) accounts k =
    if c.owner == k then 0 else unless_sink sinks k (held k accounts)

abbrev CustodyOf : List TokenAccountSnapshot → ℕ → Option CustodyResolution → Type 0
CustodyOf accounts total none = total ≡ 0
CustodyOf accounts total (some c) = IsCustody accounts total c × (held c.owner accounts ≡ total)

to_u64-below : (n m : ℕ) {supply : ℕ} → to_u64 n ≡ ok m → n ≡ supply → supply < u64_mod
unfolding to_u64
to_u64-below n m f e = ground (arith, f, e)

-- A snapshot of what the sources gave, as the comment at `build-IsSnapshot` says.
pub record IsSnapshot (request : SnapshotRequest) (source : LpAccountSource)
    (locks : LockedLpEvidence) (snap : LpSnapshot) : Type 0 where
  pub supply : MintSupply
  pub accounts : List TokenAccountSnapshot
  pub records : List TokenLockRecord
  pub found_supply : source.lp_mint_supply request.lp_mint ≡ ok supply
  pub found_accounts : source.token_accounts request.lp_mint ≡ ok accounts
  pub found_records : locks.token_locks request.pool_address request.lp_mint ≡ ok records
  pub complete : total_amount accounts ≡ supply.amount
  pub in_u64 : supply.amount < u64_mod
  pub supply_sealed : snap.lp_total_supply_at_snapshot ≡ supply.amount
  pub slot_sealed : snap.snapshot_slot ≡ supply.slot
  pub balances :
      (k : ℕ)
      → balance_of k snap.entries
        ≡ unlocked_balance request.sink_exclusions snap.locked.custody accounts k
          + locked_for k records
  pub canonical : IsCanonical snap.entries
  pub some_entry : ¬ (snap.entries ≡ [])
  pub closed : total_balance snap.entries + sink_balance snap.exclusions ≡ supply.amount
  pub locked_total : snap.locked.total_locked ≡ total_records records
  pub custody : CustodyOf accounts snap.locked.total_locked snap.locked.custody
  pub reconciled : snap.reconciliation ≡ record {
    enumerated_total = supply.amount;
    entries_total = total_balance snap.entries;
    sink_exclusions_total = sink_balance snap.exclusions;
  }

-- The gate of step 3.
abbrev gate : ℕ → MintSupply → Result SnapshotError (Unit {0})
gate n supply =
    if n == supply.amount then ok tt else (to_u64 n >>= λ v. err (supply_mismatch supply.amount v))

sum_from_zero :
    (total : ℕ) (es : List HolderEntry) → total ≡ 0 + total_balance es → total ≡ total_balance es
sum_from_zero total es h = omega arith

sinks_from_zero :
    (x : Excluded)
    → x.sink_total ≡ 0 + sink_balance x.exclusions
    → x.sink_total ≡ sink_balance x.exclusions
sinks_from_zero x h = omega arith

to_u64-value : (n v : ℕ) → to_u64 n ≡ ok v → v ≡ n
unfolding to_u64
to_u64-value n v h = ground arith

-- What the custody step and the closing identity say together.
record Lifting (sinks : List ℕ) (accounts : List TokenAccountSnapshot) (m : List HolderEntry)
    (t : Attributed) (l : Lifted) : Type 0 where
  unlocked_now : (k : ℕ) → balance_of k l.claimable ≡ unlocked_balance sinks l.custody accounts k
  custody_now : CustodyOf accounts t.total_locked l.custody

not_sunk :
    (sunk : Bool) (n total : ℕ) → Path ℕ (if sunk then 0 else n) total → 0 < total → n ≡ total
not_sunk true n total e h = absurd (omega (arith, e, h))
not_sunk false n total e h = e

gate-eq : (n : ℕ) (supply : MintSupply) → gate n supply ≡ ok tt → n ≡ supply.amount
gate-eq n supply h = elim (Bool-cases (n == supply.amount)) [
  | inl e ↦ ==→eq n supply.amount e
  | inr e ↦
      let stopped : (to_u64 n >>= λ v. err (supply_mismatch supply.amount v)) ≡ ok tt =
        ground (arith, e, h) in
      bind_ok (to_u64 n) _ stopped λ v _ never. absurd (cc)
]

Lifts-Lifting :
    (sinks : List ℕ) (accounts : List TokenAccountSnapshot) (m : List HolderEntry) (t : Attributed)
    (l : Lifted)
    → ((k : ℕ) → balance_of k m ≡ unless_sink sinks k (held k accounts))
    → total_balance l.claimable + t.total_locked ≡ total_balance m
    → Lifts accounts t m l
    → Lifting sinks accounts m t l
Lifts-Lifting sinks accounts m t _ claims closing (unlocked z) = record {
  unlocked_now = claims;
  custody_now = z;
}
Lifts-Lifting sinks accounts m t _ claims closing (lifted c rest positive custody other removed) =
    let gone : unless_sink sinks c.owner (held c.owner accounts) ≡ t.total_locked =
      sym (claims c.owner) ∙ omega (arith, removed.total, closing) in
    record {
      unlocked_now = λ k. elim (Bool-cases (c.owner == k)) [
        | inl e ↦ rw (e, ← ==→eq c.owner k e) removed.own
        | inr e ↦ rw e (removed.others k (λ same. ground (arith, same, e)) ∙ claims k)
      ];
      custody_now = (
        custody,
        not_sunk (contains sinks c.owner) (held c.owner accounts) t.total_locked gone positive,
      );
    }

-- A snapshot, where the builder gives one, is complete and closed: the supply is a u64 and the
-- sum over all token accounts; owners of entries ascend strictly and balances are positive, and
-- there is an entry; each owner's balance is what the owner's accounts hold, or nothing for a
-- sink and for the owner of the custody account, and what the lock records lock for this owner;
-- entries and excluded balances sum up to the supply, and the reconciliation says so. The locked
-- total is the sum of the records; where it is not zero, the custody account is one that holds
-- exactly it, and its owner holds nothing else.
pub build-IsSnapshot :
    (request : SnapshotRequest) (source : LpAccountSource) (locks : LockedLpEvidence)
    (snap : LpSnapshot)
    → build request source locks ≡ ok snap
    → IsSnapshot request source locks snap
unfolding build
build-IsSnapshot request source locks snap h =
    bind_ok (source.lp_mint_supply request.lp_mint) _ h λ supply fs h1.
      bind_ok (source.token_accounts request.lp_mint) _ h1 λ accounts fa h2.
        bind_ok (sum_amounts accounts 0) _ h2 λ n fn h3. bind_ok (gate n supply) _ h3 λ _ fg h4.
          bind_ok (aggregate accounts []) _ h4 λ per_owner fp h5.
            bind_ok (exclusion_pass request.sink_exclusions per_owner 0) _ h5 λ x fx h6.
              bind_ok (locks.token_locks request.pool_address request.lp_mint) _ h6 λ records fr h7.
                bind_ok
                  (attribute (sort_records records)
                    (record { attributions = []; total_locked = 0 }))
                  _ h7
                  λ t ft h8. bind_ok (lift_custody request accounts t x.claimable) _ h8 λ l fl h9.
                    bind_ok (merge t.attributions l.claimable) _ h9 λ entries fe h10.
                      bind_ok (sum_entries entries 0) _ h10 λ total fo h11.
                        require_ok (total + x.sink_total == n) invariant_violated _ h11
                          λ closing h12. bind_ok (to_u64 t.total_locked) _ h12 λ locked_u64 f1 h13.
                            bind_ok (to_u64 n) _ h13 λ enumerated_u64 f2 h14.
                              bind_ok (to_u64 total) _ h14 λ entries_u64 f3 h15.
                                bind_ok (to_u64 x.sink_total) _ h15 λ sinks_u64 f4 h16.
                                  bind_ok (validate_entries entries) _ h16 λ _ fv h17.
                                    let sinks = request.sink_exclusions in
                                    let g = aggregate-Grows accounts [] per_owner fp in
                                    let d = exclusion_pass-Divides sinks per_owner 0 x fx in
                                    let a =
                                      sorted-Attributes records
                                        (record { attributions = []; total_locked = 0 }) t ft in
                                    let m = merge-Grows t.attributions l.claimable entries fe in
                                    let sum = sum_entries-total entries 0 total fo in
                                    let enumerated = sum_amounts-total accounts 0 n fn in
                                    let same_supply = gate-eq n supply fg in
                                    let close = ==→eq (total + x.sink_total) n closing in
                                    let claims : (k : ℕ)
                                        → balance_of k x.claimable
                                          ≡ unless_sink sinks k (held k accounts) =
                                      λ k.
                                        d.balance k
                                        ∙ ap (unless_sink sinks k) (omega (arith, g.balance k)) in
                                    let lifting =
                                      Lifts-Lifting sinks accounts x.claimable t l claims
                                        (omega (
                                          arith, g.total, d.total, a.grows.total, a.locked, m.total,
                                          sum, enumerated, close,
                                        ))
                                        (lift_custody-Lifts request accounts t x.claimable l
                                          (d.sorted (g.sorted tt)) fl) in
                                    let (canonical, some_entry) =
                                      validate_entries-IsCanonical entries fv in
                                    let made : Path LpSnapshot
                                        (record {
                                          pool_address = request.pool_address;
                                          amm_program_id = request.amm_program_id;
                                          lp_mint = request.lp_mint;
                                          snapshot_slot = supply.slot;
                                          lp_total_supply_at_snapshot = supply.amount;
                                          entries = entries;
                                          exclusions = x.exclusions;
                                          locked = record {
                                            lock_records_seen = length records;
                                            total_locked = locked_u64;
                                            attributions = t.attributions;
                                            custody = l.custody;
                                          };
                                          reconciliation = record {
                                            enumerated_total = enumerated_u64;
                                            entries_total = entries_u64;
                                            sink_exclusions_total = sinks_u64;
                                          };
                                        })
                                        snap =
                                      cc in
                                    let same_locked = to_u64-value t.total_locked locked_u64 f1 in
                                    subst (IsSnapshot request source locks) made (record {
                                      supply = supply;
                                      accounts = accounts;
                                      records = records;
                                      found_supply = fs;
                                      found_accounts = fa;
                                      found_records = fr;
                                      complete = omega (arith, enumerated, same_supply);
                                      in_u64 = to_u64-below n enumerated_u64 f2 same_supply;
                                      supply_sealed = refl;
                                      slot_sealed = refl;
                                      balances = λ k. omega (
                                        arith,
                                        m.balance k,
                                        lifting.unlocked_now k,
                                        a.grows.balance k,
                                      );
                                      canonical = canonical;
                                      some_entry = some_entry;
                                      closed = omega (arith, sum, close, d.ledger, same_supply);
                                      locked_total = omega (arith, same_locked, a.locked);
                                      custody = rw same_locked lifting.custody_now;
                                      reconciled =
                                          rw
                                            (
                                              to_u64-value n enumerated_u64 f2 ∙ same_supply,
                                              to_u64-value total entries_u64 f3
                                                  ∙ sum_from_zero total entries sum,
                                              to_u64-value x.sink_total sinks_u64 f4
                                                  ∙ sinks_from_zero x d.ledger,
                                            )
                                            refl;
                                    })
