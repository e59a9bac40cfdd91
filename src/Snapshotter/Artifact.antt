-- ===== src/Snapshotter/Artifact.antt =====
-- snapshotter/src/artifact.rs without its JSON: the published artifact, its sealing and its check.
-- `Sha256::digest` is the parameter `hash`. The workspace builds with overflow checks, so that a sum
-- that leaves u64 panics; an `expect` that fires panics too.
pub mod Published
pub mod Sealing
pub mod Publication
use graveyield_protocol.Prelude.{
  ℕ, zero, suc, ◌+◌, Bool, true, false, ◌&&◌, Option, none, some, List, [], ◌∷◌, length, ltb, ◌==◌,
  if◌then◌else◌, u64_mod, u128_mod, checked_add, Result, ok, err, ◌>>=◌, ◌>>◌, require, ok_or,
}
use graveyield_protocol.Vault.Merkle.{Hash}
use graveyield_protocol.Snapshotter.Model.{SnapshotError, artifact_mismatch, overflow, HolderEntry}
use graveyield_protocol.Snapshotter.Balances.{entry}
use graveyield_protocol.Snapshotter.Builder.{Reconciliation, LpSnapshot}
use graveyield_protocol.Snapshotter.Tree.{
  SnapshotMerkleTree, from_entries, root, leaf_count, tree_depth, leaf, proof,
}

abbrev pub artifact_format_version : ℕ
artifact_format_version = 1

pub record ArtifactEntry : Type 0 where
  pub owner : ℕ
  pub lp_balance : ℕ
  pub leaf : ℕ
  pub proof : List ℕ

pub record SnapshotArtifact : Type 0 where
  pub format_version : ℕ
  pub pool_address : ℕ
  pub amm_program_id : ℕ
  pub lp_mint : ℕ
  pub snapshot_slot : ℕ
  pub lp_total_supply_at_snapshot : ℕ
  pub merkle_root : ℕ
  pub leaf_count : ℕ
  pub tree_depth : ℕ
  pub entries : List ArtifactEntry
  pub reconciliation : Reconciliation

-- A call that returns or panics.
pub data Run (A : Type 0) : Type 0 where
  returned : Result SnapshotError A → Run A
  panicked : Run A

abbrev pub then_run : {A B : Type 0} → Run A → (A → Run B) → Run B
then_run (returned (ok a)) f = f a
then_run (returned (err e)) f = returned (err e)
then_run panicked f = panicked

-- The tree builder, which never runs out of fuel.
abbrev pub built : {A : Type 0} → Option (Result SnapshotError A) → Run A
built none = panicked
built (some r) = returned r

abbrev pub same_list : List ℕ → List ℕ → Bool
same_list [] [] = true
same_list [] (y ∷ ys) = false
same_list (x ∷ xs) [] = false
same_list (x ∷ xs) (y ∷ ys) = x == y && same_list xs ys

abbrev pub same_levels : List (List ℕ) → List (List ℕ) → Bool
same_levels [] [] = true
same_levels [] (y ∷ ys) = false
same_levels (x ∷ xs) [] = false
same_levels (x ∷ xs) (y ∷ ys) = same_list x y && same_levels xs ys

-- `Option` values compared with a present one.
abbrev pub is_hash : Option ℕ → ℕ → Bool
is_hash none h = false
is_hash (some x) h = x == h

abbrev pub is_proof : Option (List ℕ) → List ℕ → Bool
is_proof none p = false
is_proof (some x) p = same_list x p

abbrev pub holders : List ArtifactEntry → List HolderEntry
holders [] = []
holders (e ∷ es) = entry e.owner e.lp_balance ∷ holders es

-- The loop over the entries, from an index on.
unfoldable pub check_entries :
    SnapshotMerkleTree → ℕ → List ArtifactEntry → Result SnapshotError (Unit {0})
unfolding leaf proof
check_entries t i [] = ok tt
check_entries t i (e ∷ es) = do
  require (is_hash (leaf t i) e.leaf) artifact_mismatch
  require (is_proof (proof t i) e.proof) artifact_mismatch
  check_entries t (suc i) es

unfoldable pub sum_balances : List ArtifactEntry → ℕ → Result SnapshotError ℕ
sum_balances [] total = ok total
sum_balances (e ∷ es) total =
    ok_or (checked_add u128_mod total e.lp_balance) overflow >>= sum_balances es

-- The checks against the rebuilt tree, up to the sum.
unfoldable pub check_tree : SnapshotArtifact → SnapshotMerkleTree → Result SnapshotError (Unit {0})
unfolding root leaf_count tree_depth check_entries sum_balances
check_tree a t = do
  require (is_hash (root t) a.merkle_root) artifact_mismatch
  require (a.leaf_count == length (holders a.entries) && a.leaf_count == leaf_count t)
      artifact_mismatch
  require (a.tree_depth == tree_depth t) artifact_mismatch
  check_entries t 0 a.entries
  total ← sum_balances a.entries 0
  require (total == a.reconciliation.entries_total) artifact_mismatch

-- The closing identity: the sum of the two totals is not a checked one.
unfoldable pub check_identity : SnapshotArtifact → Run (Unit {0})
check_identity a =
    let r = a.reconciliation in
    if ltb (r.entries_total + r.sink_exclusions_total) u64_mod
    then (returned (do
      require (r.entries_total + r.sink_exclusions_total == r.enumerated_total) artifact_mismatch
      require (r.enumerated_total == a.lp_total_supply_at_snapshot) artifact_mismatch))
    else panicked

abbrev pub expect : {A : Type 0} → Option A → Run A
expect none = panicked
expect (some a) = returned (ok a)

-- `Self::proof_for`: the first entry of an owner.
unfoldable pub proof_for : List ArtifactEntry → ℕ → Option ArtifactEntry
proof_for [] owner = none
proof_for (e ∷ es) owner = if e.owner == owner then some e else proof_for es owner

module _ (hash : Hash) where
  unfoldable pub verify_integrity : SnapshotArtifact → Run (Unit {0})
  unfolding from_entries check_tree check_identity
  verify_integrity a =
      then_run (returned (require (a.format_version == artifact_format_version) artifact_mismatch))
        λ _.
          then_run (built (from_entries hash (holders a.entries)))
            λ t. then_run (returned (check_tree a t)) λ _. check_identity a

  -- `SnapshotMerkleTree::from_snapshot`.
  unfoldable pub from_snapshot : LpSnapshot → Option (Result SnapshotError SnapshotMerkleTree)
  unfolding from_entries
  from_snapshot snapshot = from_entries hash snapshot.entries

  -- The entries with their leaves and proofs, from an index on.
  unfoldable pub seal_entries :
      SnapshotMerkleTree → ℕ → List HolderEntry → Option (List ArtifactEntry)
  unfolding leaf proof
  seal_entries t i [] = some []
  seal_entries t i (e ∷ es) = elim (leaf t i) [
    | none ↦ none
    | some l ↦ elim (proof t i) [
      | none ↦ none
      | some p ↦ elim (seal_entries t (suc i) es) [
        | none ↦ none
        | some rest ↦
            some (record { owner = e.owner; lp_balance = e.lp_balance; leaf = l; proof = p } ∷ rest)
      ]
    ]
  ]

  unfoldable pub seal : LpSnapshot → SnapshotMerkleTree → Run SnapshotArtifact
  unfolding from_snapshot seal_entries root leaf_count tree_depth
  seal snapshot tree = then_run (built (from_snapshot snapshot)) λ rebuilt.
      then_run (returned (require (same_levels rebuilt.levels tree.levels) artifact_mismatch)) λ _.
        then_run (expect (seal_entries tree 0 snapshot.entries)) λ entries.
          then_run (expect (root tree)) λ merkle_root. returned (
            ok (record {
              format_version = artifact_format_version;
              pool_address = snapshot.pool_address;
              amm_program_id = snapshot.amm_program_id;
              lp_mint = snapshot.lp_mint;
              snapshot_slot = snapshot.snapshot_slot;
              lp_total_supply_at_snapshot = snapshot.lp_total_supply_at_snapshot;
              merkle_root = merkle_root;
              leaf_count = leaf_count tree;
              tree_depth = tree_depth tree;
              entries = entries;
              reconciliation = snapshot.reconciliation;
            }))
