-- ===== src/Snapshotter/Artifact/Publication.antt =====
-- From a snapshot to the published artifact, over snapshotter/src/builder.rs, tree.rs and
-- artifact.rs: what sealing gives on the snapshots that the builder makes.
use graveyield_protocol.Prelude.{
  ℕ, ◌+◌, ◌<◌, ◌≡◌, refl, sym, ap, ◌∙◌, some, List, [], ◌∷◌, length, ==_refl, u64_mod, u128_mod,
  checked_add_fits, ok, arith,
}
use graveyield_protocol.Vault.Merkle.{Hash}
use graveyield_protocol.Snapshotter.Model.{IsCanonical-validate_entries}
use graveyield_protocol.Snapshotter.Balances.Laws.{total_balance}
use graveyield_protocol.Snapshotter.Builder.{
  LpSnapshot, SnapshotRequest, LpAccountSource, LockedLpEvidence, build,
}
use graveyield_protocol.Snapshotter.Builder.Ledger.{sink_balance}
use graveyield_protocol.Snapshotter.Builder.Sealed.{build-IsSnapshot}
use graveyield_protocol.Snapshotter.Tree.{
  SnapshotMerkleTree, from_entries, root, leaf_count, tree_depth,
}
use graveyield_protocol.Snapshotter.Artifact.{
  ArtifactEntry, SnapshotArtifact, returned, holders, check_entries, sum_balances, check_tree,
  check_identity, verify_integrity, from_snapshot, seal, artifact_format_version,
}
use graveyield_protocol.Snapshotter.Artifact.Sealing.{
  leaf_count-length, root-some, built_tree, seal_entries-checked, sealed_artifact,
  seal-eq-sealed_artifact,
}

sum_balances-ok :
    (es : List ArtifactEntry) (s : ℕ)
    → s + total_balance (holders es) < u128_mod
    → sum_balances es s ≡ ok (s + total_balance (holders es))
unfolding sum_balances
sum_balances-ok [] s fits = let same : s + 0 ≡ s = omega arith in rw same refl
sum_balances-ok (e ∷ es) s fits =
    let ih = sum_balances-ok es (s + e.lp_balance) (omega (arith, fits)) in
    let one = checked_add_fits u128_mod s e.lp_balance (omega (arith, fits)) in
    let same : s + e.lp_balance + total_balance (holders es)
        ≡ s + (e.lp_balance + total_balance (holders es)) =
      omega arith in
    rw (one, ← same) ih

check_tree-ok :
    (a : SnapshotArtifact) (t : SnapshotMerkleTree)
    → root t ≡ some a.merkle_root
    → a.leaf_count ≡ length (holders a.entries)
    → a.leaf_count ≡ leaf_count t
    → a.tree_depth ≡ tree_depth t
    → check_entries t 0 a.entries ≡ ok tt
    → total_balance (holders a.entries) ≡ a.reconciliation.entries_total
    → total_balance (holders a.entries) < u64_mod
    → check_tree a t ≡ ok tt
unfolding check_tree
check_tree-ok a t top counted count depth checked sum fits =
    let small : 0 + total_balance (holders a.entries) < u128_mod = omega (arith, fits) in
    let summed = sum_balances-ok a.entries 0 small in
    let c = ==_refl a.leaf_count in
    let d = ==_refl (tree_depth t) in
    let r = ==_refl a.merkle_root in
    let e = ==_refl a.reconciliation.entries_total in
    let zero_sum : 0 + total_balance (holders a.entries) ≡ a.reconciliation.entries_total =
      omega (arith, sum) in
    rw (top, ← counted, ← count, depth, r, c, d, checked, summed, zero_sum, e) refl

check_identity-ok :
    (a : SnapshotArtifact)
    → a.reconciliation.entries_total + a.reconciliation.sink_exclusions_total
      ≡ a.lp_total_supply_at_snapshot
    → a.reconciliation.enumerated_total ≡ a.lp_total_supply_at_snapshot
    → a.lp_total_supply_at_snapshot < u64_mod
    → check_identity a ≡ returned (ok tt)
unfolding check_identity
check_identity-ok a closed enumerated fits = ground (arith, closed, enumerated, fits)

verify_integrity-ok :
    (hash : Hash) (a : SnapshotArtifact) (t : SnapshotMerkleTree)
    → a.format_version ≡ artifact_format_version
    → from_entries hash (holders a.entries) ≡ some (ok t)
    → check_tree a t ≡ ok tt
    → check_identity a ≡ returned (ok tt)
    → verify_integrity hash a ≡ returned (ok tt)
unfolding verify_integrity
verify_integrity-ok hash a t version made checked identity = rw (version, made, checked) identity

-- An artifact of a snapshot, as the comment at `seal-verify_integrity` says.
pub record IsArtifactOf (hash : Hash) (snapshot : LpSnapshot) (a : SnapshotArtifact) : Type 0 where
  pub made_of :
      (t : SnapshotMerkleTree) × (from_snapshot hash snapshot ≡ some (ok t))
      × (seal hash snapshot t ≡ returned (ok a))
  pub accepted : verify_integrity hash a ≡ returned (ok tt)
  pub holders_kept : holders a.entries ≡ snapshot.entries
  pub supply_kept : a.lp_total_supply_at_snapshot ≡ snapshot.lp_total_supply_at_snapshot
  pub pool_kept : a.pool_address ≡ snapshot.pool_address
  pub mint_kept : a.lp_mint ≡ snapshot.lp_mint
  pub slot_kept : a.snapshot_slot ≡ snapshot.snapshot_slot

-- Every snapshot that the builder gives is published: the tree of its entries is built, sealing
-- returns an artifact, and that artifact passes its own integrity check. It has the snapshot's
-- holders with their balances, and its pool, mint, slot and supply.
pub seal-verify_integrity :
    (hash : Hash) (request : SnapshotRequest) (source : LpAccountSource) (locks : LockedLpEvidence)
    (snapshot : LpSnapshot)
    → build request source locks ≡ ok snapshot
    → (a : SnapshotArtifact) × IsArtifactOf hash snapshot a
unfolding from_snapshot
seal-verify_integrity hash request source locks snapshot h =
    let s = build-IsSnapshot request source locks snapshot h in
    let valid = IsCanonical-validate_entries snapshot.entries s.canonical s.some_entry in
    let (t, made) = built_tree hash snapshot.entries valid in
    let count = leaf_count-length hash snapshot.entries t made in
    let (r, top) = root-some hash snapshot.entries t s.some_entry made in
    let (es, sealed, same, checked) =
      seal_entries-checked hash t 0 snapshot.entries (omega (arith, count)) in
    let a = sealed_artifact snapshot t r es in
    let made_again : from_entries hash (holders es) ≡ some (ok t) = rw same made in
    let totals = s.reconciled in
    let sum_kept : total_balance (holders es) ≡ total_balance snapshot.entries =
      ap total_balance same in
    let entries_kept : total_balance snapshot.entries ≡ snapshot.reconciliation.entries_total =
      ap (λ x. x.entries_total) (sym totals) in
    let sinks_kept : sink_balance snapshot.exclusions
        ≡ snapshot.reconciliation.sink_exclusions_total =
      ap (λ x. x.sink_exclusions_total) (sym totals) in
    let all_kept : s.supply.amount ≡ snapshot.reconciliation.enumerated_total =
      ap (λ x. x.enumerated_total) (sym totals) in
    let tree_checked =
      check_tree-ok a t top (count ∙ ap length (sym same)) refl refl checked
        (sum_kept ∙ entries_kept) (omega (arith, sum_kept, s.closed, s.in_u64)) in
    let identity =
      check_identity-ok a (omega (arith, entries_kept, sinks_kept, s.closed, s.supply_sealed))
        (omega (arith, all_kept, s.supply_sealed)) (omega (arith, s.supply_sealed, s.in_u64)) in
    (
      a,
      record {
        made_of = (t, made, seal-eq-sealed_artifact hash snapshot t r es made sealed top);
        accepted = verify_integrity-ok hash a t refl made_again tree_checked identity;
        holders_kept = same;
        supply_kept = refl;
        pool_kept = refl;
        mint_kept = refl;
        slot_kept = refl;
      },
    )
