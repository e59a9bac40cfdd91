-- ===== src/Snapshotter/Tests.antt =====
-- The snapshotter's theorems on a snapshot of three holders.
use graveyield_protocol.Prelude.{
  ℕ, ◌%◌, ◌^◌, ◌<◌, ◌≡◌, ◌⊎◌, refl, true, some, List, [], ◌∷◌, reverse, arith, Member, ok, err,
}
use graveyield_protocol.Prelude.Bytes.{key_bytes, le_bytes, le_value}
use graveyield_protocol.Vault.Merkle as Verifier
use graveyield_protocol.Vault.Merkle.{Hash, verify_proof}
use graveyield_protocol.Vault.Merkle.Soundness as Soundness
use graveyield_protocol.Vault.Merkle.Soundness.{Tree, Entry, Clash}
use graveyield_protocol.Snapshotter.Model.{
  SnapshotError, HolderEntry, validate_entries, IsCanonical, validate_entries-IsCanonical,
}
use graveyield_protocol.Snapshotter.Tree.{
  SnapshotMerkleTree, from_entries, root, proof, compute_leaf, hash_pair,
}
use graveyield_protocol.Snapshotter.Tree.Complete.{from_entries_total, proof_verifies}
use graveyield_protocol.Snapshotter.Tree.Sound.{holder_entry, verified_in_snapshot}

abbrev toy_hash : Hash
toy_hash xs = le_value xs % 256 ^ 32

toy_hash_bounded : (xs : List ℕ) → toy_hash xs < 256 ^ 32
toy_hash_bounded xs = omega arith

abbrev holders : List HolderEntry
holders = holder_entry 11 30 ∷ holder_entry 12 60 ∷ holder_entry 15 10 ∷ []

abbrev leaf_of : ℕ → ℕ → ℕ
leaf_of = compute_leaf toy_hash

abbrev pair12 : ℕ
pair12 = hash_pair toy_hash (leaf_of 11 30) (leaf_of 12 60)

abbrev tree : SnapshotMerkleTree
tree = record {
  levels =
      (leaf_of 11 30 ∷ leaf_of 12 60 ∷ leaf_of 15 10 ∷ [])
      ∷ (pair12 ∷ leaf_of 15 10 ∷ [])
      ∷ (hash_pair toy_hash pair12 (leaf_of 15 10) ∷ [])
      ∷ [];
}

build_test : from_entries toy_hash holders ≡ some (ok tree)
unfolding from_entries validate_entries
build_test = refl

validate_test : validate_entries holders ≡ ok tt
unfolding validate_entries
validate_test = refl

validate_entries-IsCanonical_example : IsCanonical holders × ¬ (holders ≡ [])
validate_entries-IsCanonical_example = validate_entries-IsCanonical holders validate_test

from_entries_total_example :
    ((validate_entries holders ≡ ok tt)
      × ((t : SnapshotMerkleTree) × (from_entries toy_hash holders ≡ some (ok t))))
    ⊎ ((e : SnapshotError) × (validate_entries holders ≡ err e)
        × (from_entries toy_hash holders ≡ some (err e)))
from_entries_total_example = from_entries_total toy_hash holders

proof_verifies_example :
    (p : List ℕ) × (r : ℕ) × (proof tree 2 ≡ some p)
    × (root tree ≡ some r)
    × (verify_proof toy_hash r (Verifier.compute_leaf toy_hash 15 10) p ≡ true)
proof_verifies_example = proof_verifies toy_hash holders tree 2 (holder_entry 15 10) build_test refl

root_test : root tree ≡ some (hash_pair toy_hash pair12 (leaf_of 15 10))
unfolding root
root_test = refl

accepted_test :
    verify_proof toy_hash
      (hash_pair toy_hash pair12 (leaf_of 15 10))
      (Verifier.compute_leaf toy_hash 15 10)
      (pair12 ∷ [])
    ≡ true
unfolding verify_proof hash_pair compute_leaf Verifier.compute_leaf key_bytes le_bytes le_value
accepted_test = refl

pair12_bounded : pair12 < 256 ^ 32
unfolding hash_pair compute_leaf key_bytes le_bytes le_value
pair12_bounded = omega arith

verified_in_snapshot_example :
    (t : Tree) × (hash_pair toy_hash pair12 (leaf_of 15 10) ≡ Soundness.root toy_hash t)
    × ((h b : ℕ) → Entry h b t → Member (holder_entry h b) holders)
    × (Member (holder_entry 15 10) holders ⊎ Clash toy_hash t 15 10 (reverse (pair12 ∷ [])))
verified_in_snapshot_example =
    verified_in_snapshot toy_hash holders tree (hash_pair toy_hash pair12 (leaf_of 15 10)) 15 10
      (pair12 ∷ []) toy_hash_bounded build_test root_test
      ((omega arith, omega arith), ((omega arith, omega arith), ((omega arith, omega arith), tt)))
      (omega arith, omega arith) (pair12_bounded, tt) accepted_test
