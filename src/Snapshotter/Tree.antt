-- ===== src/Snapshotter/Tree.antt =====
-- snapshotter/src/tree.rs: the Merkle tree builder and the proof generator. `Sha256::digest` is
-- the parameter `hash`. The `while` loop over the levels takes fuel; the number of leaves is
-- enough. An `expect` that the code argues cannot fire is an `Option` here.
pub mod Complete
pub mod Sound
use graveyield_protocol.Prelude.{
  ℕ, zero, suc, ◌+◌, ◌-◌, ◌/◌, ◌%◌, Bool, Option, none, some, List, [], ◌∷◌, ◌++◌, map, length,
  get_elem?, leb, ltb, ◌==◌, if◌then◌else◌, le_bytes, key_bytes, Result, ok, err, ◌>>=◌, ◌>>◌,
}
use graveyield_protocol.Vault.Merkle.{Hash}
use graveyield_protocol.Snapshotter.Model.{SnapshotError, HolderEntry, validate_entries}

pub record SnapshotMerkleTree : Type 0 where
  pub levels : List (List ℕ)

-- `push` of an element that indexing finds.
abbrev pub pushed : Option ℕ → List ℕ
pushed none = []
pushed (some s) = s ∷ []

-- The sibling that one level contributes: none at a trailing odd node.
unfoldable pub sibling : List ℕ → ℕ → List ℕ
sibling level idx =
    if idx % 2 == 0 then pushed (get_elem? level (idx + 1)) else pushed (get_elem? level (idx - 1))

-- The walk over every level but the root's.
unfoldable pub proof_from : List (List ℕ) → ℕ → List ℕ
unfolding sibling
proof_from [] idx = []
proof_from (level ∷ []) idx = []
proof_from (level ∷ above ∷ rest) idx = sibling level idx ++ proof_from (above ∷ rest) (idx / 2)

-- The first node of the last level.
unfoldable pub root_of : List (List ℕ) → Option ℕ
root_of [] = none
root_of (level ∷ []) = get_elem? level 0
root_of (level ∷ above ∷ rest) = root_of (above ∷ rest)

unfoldable pub root : SnapshotMerkleTree → Option ℕ
unfolding root_of
root t = root_of t.levels

abbrev pub first_level : List (List ℕ) → List ℕ
first_level [] = []
first_level (level ∷ rest) = level

unfoldable pub leaf_count : SnapshotMerkleTree → ℕ
leaf_count t = length (first_level t.levels)

unfoldable pub tree_depth : SnapshotMerkleTree → ℕ
tree_depth t = length t.levels - 1

unfoldable pub leaf : SnapshotMerkleTree → ℕ → Option ℕ
leaf t index = get_elem? (first_level t.levels) index

unfoldable pub proof : SnapshotMerkleTree → ℕ → Option (List ℕ)
unfolding leaf_count proof_from
proof t index = if leb (leaf_count t) index then none else some (proof_from t.levels index)

module _ (hash : Hash) where
  unfoldable pub compute_leaf : ℕ → ℕ → ℕ
  compute_leaf holder lp_balance = hash (key_bytes holder ++ le_bytes 8 lp_balance)

  unfoldable pub hash_pair : ℕ → ℕ → ℕ
  hash_pair a b =
      if leb a b then hash (key_bytes a ++ key_bytes b) else hash (key_bytes b ++ key_bytes a)

  -- One round over `current.chunks(2)`: an odd node promotes unchanged.
  unfoldable pub next_level : List ℕ → List ℕ
  unfolding hash_pair
  next_level [] = []
  next_level (a ∷ []) = a ∷ []
  next_level (a ∷ b ∷ rest) = hash_pair a b ∷ next_level rest

  -- The levels from one upwards; `none` means that the fuel ran out.
  unfoldable pub levels_from : ℕ → List ℕ → Option (List (List ℕ))
  unfolding next_level
  levels_from zero level = none
  levels_from (suc fuel) level =
      let rest = levels_from fuel (next_level level) in
      if ltb 1 (length level)
      then elim rest [ none ↦ none | some ls ↦ some (level ∷ ls) ]
      else some (level ∷ [])

  abbrev pub leaves : List HolderEntry → List ℕ
  leaves [] = []
  leaves (e ∷ es) = compute_leaf e.owner e.lp_balance ∷ leaves es

  -- `none` means that the fuel ran out.
  unfoldable pub from_entries : List HolderEntry → Option (Result SnapshotError SnapshotMerkleTree)
  unfolding levels_from
  from_entries entries = elim (validate_entries entries) [
    | err e ↦ some (err e)
    | ok _ ↦ elim (levels_from (length entries) (leaves entries)) [
      | none ↦ none
      | some ls ↦ some (ok (record { levels = ls }))
    ]
  ]
