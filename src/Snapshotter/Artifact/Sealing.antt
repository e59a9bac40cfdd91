-- ===== src/Snapshotter/Artifact/Sealing.antt =====
-- What sealing makes, in snapshotter/src/artifact.rs, of a tree that the builder made and its
-- entries.
use graveyield_protocol.Prelude.{
  ℕ, suc, ◌+◌, ◌≤◌, ◌<◌, ◌≡◌, refl, ap, true, some, List, [], ◌∷◌, length, ==_refl, inl, inr, ok,
  arith,
}
use graveyield_protocol.Vault.Merkle.{Hash}
use graveyield_protocol.Snapshotter.Model.{HolderEntry, validate_entries}
use graveyield_protocol.Snapshotter.Builder.{LpSnapshot}
use graveyield_protocol.Snapshotter.Tree.{
  SnapshotMerkleTree, from_entries, root, leaf_count, tree_depth, leaf, proof, proof_from, leaves,
}
use graveyield_protocol.Snapshotter.Tree.Complete.{
  get_elem?-below, length-leaves, levels_from-head, from_entries-levels, from_entries_total,
  proof_verifies,
}
use graveyield_protocol.Snapshotter.Artifact.{
  ArtifactEntry, SnapshotArtifact, returned, same_list, same_levels, holders, check_entries,
  from_snapshot, seal_entries, seal, artifact_format_version,
}

same_list_refl : (xs : List ℕ) → same_list xs xs ≡ true
same_list_refl [] = refl
same_list_refl (x ∷ xs) =
    let head = ==_refl x in let tail = same_list_refl xs in ground (arith, head, tail)

same_levels_refl : (ls : List (List ℕ)) → same_levels ls ls ≡ true
same_levels_refl [] = refl
same_levels_refl (l ∷ ls) =
    let head = same_list_refl l in let tail = same_levels_refl ls in ground (arith, head, tail)

-- A tree has a leaf and a proof at every index below the number of its leaves.
leaf_at :
    (t : SnapshotMerkleTree) (i : ℕ)
    → i < leaf_count t
    → (l : ℕ) × (leaf t i ≡ some l) × (proof t i ≡ some (proof_from t.levels i))
unfolding leaf_count leaf proof
leaf_at t i below = let (l, at) = get_elem?-below _ i below in (l, at, ground (arith, below))

-- The artifact's entry of a holder.
abbrev sealed_entry : HolderEntry → ℕ → List ℕ → ArtifactEntry
sealed_entry h l p = record { owner = h.owner; lp_balance = h.lp_balance; leaf = l; proof = p }

seal_entries-cons :
    (hash : Hash) (t : SnapshotMerkleTree) (i l : ℕ) (p : List ℕ) (h : HolderEntry)
    (hs : List HolderEntry) (es : List ArtifactEntry)
    → leaf t i ≡ some l
    → proof t i ≡ some p
    → seal_entries hash t (suc i) hs ≡ some es
    → seal_entries hash t i (h ∷ hs) ≡ some (sealed_entry h l p ∷ es)
unfolding seal_entries
seal_entries-cons hash t i l p h hs es at path sealed = ground (arith, at, path, sealed)

check_entries-cons :
    (t : SnapshotMerkleTree) (i l : ℕ) (p : List ℕ) (h : HolderEntry) (es : List ArtifactEntry)
    → leaf t i ≡ some l
    → proof t i ≡ some p
    → check_entries t (suc i) es ≡ ok tt
    → check_entries t i (sealed_entry h l p ∷ es) ≡ ok tt
unfolding check_entries
check_entries-cons t i l p h es at path checked =
    let same_leaf = ==_refl l in
    let same_proof = same_list_refl p in ground (arith, at, path, checked, same_leaf, same_proof)

-- What sealing makes of the entries passes the check of the entries.
pub seal_entries-checked :
    (hash : Hash) (t : SnapshotMerkleTree) (i : ℕ) (hs : List HolderEntry)
    → i + length hs ≤ leaf_count t
    → (es : List ArtifactEntry) × (seal_entries hash t i hs ≡ some es)
      × (holders es ≡ hs)
      × (check_entries t i es ≡ ok tt)
unfolding seal_entries check_entries
seal_entries-checked hash t i [] room = ([], refl, refl, refl)
seal_entries-checked hash t i (h ∷ hs) room =
    let (l, at, path) = leaf_at t i (omega (arith, room)) in
    let (es, sealed, same, checked) =
      seal_entries-checked hash t (suc i) hs (omega (arith, room)) in
    let p = proof_from t.levels i in
    (
      sealed_entry h l p ∷ es,
      seal_entries-cons hash t i l p h hs es at path sealed,
      ap (λ rest. h ∷ rest) same,
      check_entries-cons t i l p h es at path checked,
    )

-- A tree that the builder made has one leaf per entry.
pub leaf_count-length :
    (hash : Hash) (hs : List HolderEntry) (t : SnapshotMerkleTree)
    → from_entries hash hs ≡ some (ok t)
    → leaf_count t ≡ length hs
unfolding leaf_count
leaf_count-length hash hs t made =
    let (rest, shape) =
      levels_from-head hash (length hs) (leaves hash hs) t.levels
        (from_entries-levels hash hs t made) in
    rw shape (length-leaves hash hs)

pub root-some :
    (hash : Hash) (hs : List HolderEntry) (t : SnapshotMerkleTree)
    → ¬ (hs ≡ [])
    → from_entries hash hs ≡ some (ok t)
    → (r : ℕ) × (root t ≡ some r)
root-some hash [] t some_entry made = absurd (some_entry refl)
root-some hash (h ∷ hs) t some_entry made =
    let (p, r, path, top, accepted) = proof_verifies hash (h ∷ hs) t 0 h made refl in (r, top)

-- A tree for entries that the validator accepts.
pub built_tree :
    (hash : Hash) (hs : List HolderEntry)
    → validate_entries hs ≡ ok tt
    → (t : SnapshotMerkleTree) × (from_entries hash hs ≡ some (ok t))
built_tree hash hs valid = elim (from_entries_total hash hs) [
  | inl (_, made) ↦ made
  | inr (e, refused, _) ↦ absurd (cc)
]

-- The artifact that sealing makes of a snapshot and a tree.
abbrev pub sealed_artifact :
    LpSnapshot → SnapshotMerkleTree → ℕ → List ArtifactEntry → SnapshotArtifact
sealed_artifact snapshot t r es = record {
  format_version = artifact_format_version;
  pool_address = snapshot.pool_address;
  amm_program_id = snapshot.amm_program_id;
  lp_mint = snapshot.lp_mint;
  snapshot_slot = snapshot.snapshot_slot;
  lp_total_supply_at_snapshot = snapshot.lp_total_supply_at_snapshot;
  merkle_root = r;
  leaf_count = leaf_count t;
  tree_depth = tree_depth t;
  entries = es;
  reconciliation = snapshot.reconciliation;
}

pub seal-eq-sealed_artifact :
    (hash : Hash) (snapshot : LpSnapshot) (t : SnapshotMerkleTree) (r : ℕ) (es : List ArtifactEntry)
    → from_entries hash snapshot.entries ≡ some (ok t)
    → seal_entries hash t 0 snapshot.entries ≡ some es
    → root t ≡ some r
    → seal hash snapshot t ≡ returned (ok (sealed_artifact snapshot t r es))
unfolding seal from_snapshot
seal-eq-sealed_artifact hash snapshot t r es made sealed top =
    let same = same_levels_refl t.levels in rw (made, same, sealed, top) refl
