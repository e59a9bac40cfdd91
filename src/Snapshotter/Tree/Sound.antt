-- ===== src/Snapshotter/Tree/Sound.antt =====
-- The builder's levels as a tree of entries, which carries the soundness of the vault's verifier
-- over to the roots that the builder gives.
use graveyield_protocol.Prelude.{
  ℕ, zero, suc, ◌≤◌, ◌<◌, ◌^◌, ◌≡◌, refl, ap, ◌⊎◌, inl, inr, true, some, List, [], ◌∷◌, reverse,
  arith, length, All, Member, here, there, ok,
}
use graveyield_protocol.Vault.Merkle as Verifier
use graveyield_protocol.Vault.Merkle.{Hash, verify_proof}
use graveyield_protocol.Vault.Merkle.Soundness as Soundness
use graveyield_protocol.Vault.Merkle.Soundness.{
  Tree, entry, node, Entry, at, left, right, IsBounded, EntriesBounded, Clash, verify_proof_sound,
}
use graveyield_protocol.Snapshotter.Model.{HolderEntry, validate_entries}
use graveyield_protocol.Snapshotter.Tree.{
  SnapshotMerkleTree, root_of, root, compute_leaf, hash_pair, next_level, levels_from, leaves,
  from_entries,
}
use graveyield_protocol.Snapshotter.Tree.Complete.{
  levels_from-cases, levels_from-head, from_entries-levels,
}

abbrev trees : List HolderEntry → List Tree
trees [] = []
trees (e ∷ es) = entry e.owner e.lp_balance ∷ trees es

next_trees : List Tree → List Tree
next_trees [] = []
next_trees (a ∷ []) = a ∷ []
next_trees (a ∷ b ∷ rest) = node a b ∷ next_trees rest

abbrev Somewhere : ℕ → ℕ → List Tree → Type 0
Somewhere h b [] = ⊥
Somewhere h b (t ∷ ts) = Entry h b t ⊎ Somewhere h b ts

module _ (hash : Hash) where
  abbrev roots : List Tree → List ℕ
  roots [] = []
  roots (t ∷ ts) = Soundness.root hash t ∷ roots ts

  roots-next_trees : (ts : List Tree) → roots (next_trees ts) ≡ next_level hash (roots ts)
  unfolding next_trees next_level Soundness.root Verifier.fold_sibling
  roots-next_trees [] = refl
  roots-next_trees (a ∷ []) = refl
  roots-next_trees (a ∷ b ∷ rest) =
      ap (λ r. hash_pair hash (Soundness.root hash a) (Soundness.root hash b) ∷ r)
        (roots-next_trees rest)

  roots-trees : (es : List HolderEntry) → roots (trees es) ≡ leaves hash es
  unfolding Soundness.root Verifier.compute_leaf compute_leaf
  roots-trees [] = refl
  roots-trees (e ∷ es) = ap (λ r. compute_leaf hash e.owner e.lp_balance ∷ r) (roots-trees es)

-- A level's trees have the entries of the level below.
next_trees-Somewhere : (h b : ℕ) (ts : List Tree) → Somewhere h b (next_trees ts) → Somewhere h b ts
unfolding next_trees
next_trees-Somewhere h b [] s = s
next_trees-Somewhere h b (x ∷ []) s = s
next_trees-Somewhere h b (x ∷ y ∷ rest) (inl e) = split e
  where
    split : Entry h b (node x y) → Somewhere h b (x ∷ y ∷ rest)
    split (left r i) = inl i
    split (right l i) = inr (inl i)
next_trees-Somewhere h b (x ∷ y ∷ rest) (inr s) = inr (inr (next_trees-Somewhere h b rest s))

next_trees-EntriesBounded :
    (ts : List Tree) → All EntriesBounded ts → All EntriesBounded (next_trees ts)
unfolding next_trees
next_trees-EntriesBounded [] w = w
next_trees-EntriesBounded (x ∷ []) w = w
next_trees-EntriesBounded (x ∷ y ∷ rest) w = ((w.0, w.1.0), next_trees-EntriesBounded rest w.1.1)

length-next_trees : (ts : List Tree) → 0 < length ts → 0 < length (next_trees ts)
unfolding next_trees
length-next_trees [] h = h
length-next_trees (x ∷ []) h = h
length-next_trees (x ∷ y ∷ rest) h = omega arith

-- A tree over some of the entries below, with the root that the levels have.
abbrev Joined : Hash → List Tree → List (List ℕ) → Type 0
Joined hash ts ls =
    (t : Tree) × (root_of ls ≡ some (Soundness.root hash t))
    × ((h b : ℕ) → Entry h b t → Somewhere h b ts)
    × (All EntriesBounded ts → EntriesBounded t)

single-Joined :
    (hash : Hash) (ts : List Tree)
    → 0 < length ts
    → length (roots hash ts) ≤ 1
    → Joined hash ts (roots hash ts ∷ [])
unfolding root_of
single-Joined hash [] p l = absurd (omega arith)
single-Joined hash (t ∷ []) p l = (t, refl, λ h b e. inl e, λ w. w.0)
single-Joined hash (t ∷ u ∷ ts) p l = absurd (omega arith)

root_of-above : (l n : List ℕ) (rest : List (List ℕ)) → root_of (l ∷ n ∷ rest) ≡ root_of (n ∷ rest)
unfolding root_of
root_of-above l n rest = refl

levels_from-Joined :
    (hash : Hash) (fuel : ℕ) (ts : List Tree) (ls : List (List ℕ))
    → 0 < length ts
    → levels_from hash fuel (roots hash ts) ≡ some ls
    → Joined hash ts ls
levels_from-Joined hash zero ts ls p e = elim (levels_from-cases hash zero (roots hash ts) ls e) [
  | inl (small, q) ↦ rw q (single-Joined hash ts p small)
  | inr (k, above, f, _, _) ↦ absurd (omega arith)
]
levels_from-Joined hash (suc fuel) ts ls p e =
    let ih = levels_from-Joined hash fuel (next_trees ts) in
    elim (levels_from-cases hash (suc fuel) (roots hash ts) ls e) [
      | inl (small, q) ↦ rw q (single-Joined hash ts p small)
      | inr (k, above, f, q, r) ↦
          let f' : k ≡ fuel = omega arith in
          let q' : levels_from hash fuel (roots hash (next_trees ts)) ≡ some above =
            rw (roots-next_trees hash ts, ← f') q in
          let (rest, shape) = levels_from-head hash fuel (roots hash (next_trees ts)) above q' in
          let (t, top, entries, bounded) = ih above (length-next_trees ts p) q' in
          (
            t,
            rw (r, shape, root_of-above (roots hash ts) (roots hash (next_trees ts)) rest, ← shape)
                top,
            λ h b i. next_trees-Somewhere h b ts (entries h b i),
            λ w. bounded (next_trees-EntriesBounded ts w),
          )
    ]

-- The owner and balance of an entry.
abbrev pub holder_entry : ℕ → ℕ → HolderEntry
holder_entry h b = record { owner = h; lp_balance = b }

abbrev pub EntryBounded : HolderEntry → Type 0
EntryBounded e = IsBounded e.owner e.lp_balance

trees-EntriesBounded : (es : List HolderEntry) → All EntryBounded es → All EntriesBounded (trees es)
trees-EntriesBounded [] w = tt
trees-EntriesBounded (e ∷ es) w = (w.0, trees-EntriesBounded es w.1)

Member-of_Somewhere :
    (h b : ℕ) (es : List HolderEntry) → Somewhere h b (trees es) → Member (holder_entry h b) es
Member-of_Somewhere h b [] s = absurd s
Member-of_Somewhere h b (e ∷ es) (inl i) = first i
  where
    first : {x y : ℕ} → Entry h b (entry x y) → Member (holder_entry h b) (holder_entry x y ∷ es)
    first at = here es
Member-of_Somewhere h b (e ∷ es) (inr s) = there e (Member-of_Somewhere h b es s)

no_empty : (hash : Hash) (t : SnapshotMerkleTree) → ¬ (from_entries hash [] ≡ some (ok t))
unfolding from_entries validate_entries
no_empty hash t e = cc

-- For a hash with 32-byte digests, and a tree that the builder made of entries with keys of 32
-- bytes and balances of 8: the root is that of a binary tree all of whose entries are among the
-- given ones. Whatever holder, balance and proof the vault's verifier accepts against it, the
-- holder stands among the entries with that balance, or one of the strings that the verifier
-- hashed and a different one of those that this tree's root hashes have one digest.
pub verified_in_snapshot :
    (hash : Hash) (es : List HolderEntry) (t : SnapshotMerkleTree) (r holder balance : ℕ)
    (proof : List ℕ)
    → ((xs : List ℕ) → hash xs < 256 ^ 32)
    → from_entries hash es ≡ some (ok t)
    → root t ≡ some r
    → All EntryBounded es
    → IsBounded holder balance
    → All (λ s. s < 256 ^ 32) proof
    → verify_proof hash r (Verifier.compute_leaf hash holder balance) proof ≡ true
    → (tree : Tree) × (r ≡ Soundness.root hash tree)
      × ((h b : ℕ) → Entry h b tree → Member (holder_entry h b) es)
      × (Member (holder_entry holder balance) es ⊎ Clash hash tree holder balance (reverse proof))
unfolding root
verified_in_snapshot hash es t r holder balance proof digests e top w bounded hs accepted =
    let q : levels_from hash (length es) (roots hash (trees es)) ≡ some t.levels =
      rw (roots-trees hash es) (from_entries-levels hash es t e) in
    let (tree, top', entries, below) =
      levels_from-Joined hash (length es) (trees es) t.levels (nonempty es e) q in
    let same_root : r ≡ Soundness.root hash tree = cc in
    let among : (h b : ℕ) → Entry h b tree → Member (holder_entry h b) es =
      λ h b i. Member-of_Somewhere h b es (entries h b i) in
    (
      tree,
      same_root,
      among,
      elim (verify_proof_sound hash tree holder balance proof digests
          (below (trees-EntriesBounded es w)) bounded hs (rw (← same_root) accepted)) [
            | inl i ↦ inl (among holder balance i)
            | inr clash ↦ inr clash
          ],
    )
  where
    nonempty : (es : List HolderEntry) → from_entries hash es ≡ some (ok t) → 0 < length (trees es)
    nonempty [] e = absurd (no_empty hash t e)
    nonempty (x ∷ es) e = omega arith
