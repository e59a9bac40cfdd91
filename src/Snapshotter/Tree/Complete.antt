-- ===== src/Snapshotter/Tree/Complete.antt =====
-- Every proof that the builder gives is accepted by the vault's verifier.
use graveyield_protocol.Prelude.{
  ℕ, zero, suc, ◌+◌, ◌-◌, ◌/◌, ◌%◌, ◌≤◌, ◌<◌, ◌≡◌, refl, sym, ap, ◌∙◌, inl, inr, true, some, List,
  [], ◌∷◌, ◌++◌, arith, length, get_elem?, ltb, Bool-cases, Option-cases, Result, ok, err, ==_refl,
  ltb→lt, ◌⊎◌,
}
use graveyield_protocol.Vault.Merkle as Verifier
use graveyield_protocol.Vault.Merkle.{Hash, fold_sibling, fold_proof, verify_proof}
use graveyield_protocol.Snapshotter.Model.{HolderEntry, SnapshotError, validate_entries}
use graveyield_protocol.Snapshotter.Tree.{
  SnapshotMerkleTree, sibling, proof_from, root_of, root, leaf_count, leaf, proof, compute_leaf,
  hash_pair, next_level, levels_from, leaves, from_entries,
}

pub get_elem?-below : (xs : List ℕ) (i : ℕ) → i < length xs → (x : ℕ) × (get_elem? xs i ≡ some x)
get_elem?-below [] i h = absurd (omega arith)
get_elem?-below (x ∷ xs) zero h = (x, refl)
get_elem?-below (x ∷ xs) (suc i) h = get_elem?-below xs i (omega arith)

module _ (hash : Hash) where
  fold_proof-append :
      (c : ℕ) (xs ys : List ℕ)
      → fold_proof hash c (xs ++ ys) ≡ fold_proof hash (fold_proof hash c xs) ys
  unfolding fold_proof
  fold_proof-append c [] ys = refl
  fold_proof-append c (x ∷ xs) ys = fold_proof-append (fold_sibling hash c x) xs ys

  -- The verifier's step does not depend on the side of the sibling.
  fold_sibling-eq-hash_pair : (a b : ℕ) → fold_sibling hash a b ≡ hash_pair hash a b
  unfolding fold_sibling hash_pair
  fold_sibling-eq-hash_pair a b = refl

  fold_sibling_swapped : (a b : ℕ) → fold_sibling hash b a ≡ hash_pair hash a b
  unfolding fold_sibling hash_pair
  fold_sibling_swapped a b = ground arith

  sibling_shift :
      (a b : ℕ) (level : List ℕ) (i : ℕ) → sibling (a ∷ b ∷ level) (suc (suc i)) ≡ sibling level i
  unfolding sibling
  sibling_shift a b level zero = refl
  sibling_shift a b level (suc i) =
      let up : suc (suc (suc i)) + 1 ≡ suc (suc (suc i + 1)) = omega arith in
      let down : suc (suc (suc i)) - 1 ≡ suc (suc i) = omega arith in
      let down' : suc i - 1 ≡ i = omega arith in
      let parity : suc (suc (suc i)) % 2 ≡ suc i % 2 = omega arith in
      rw (up, down, down', parity) refl

  next_level-cons :
      (a b : ℕ) (level : List ℕ)
      → next_level hash (a ∷ b ∷ level) ≡ hash_pair hash a b ∷ next_level hash level
  unfolding next_level
  next_level-cons a b level = refl

  -- One level: the node above index `i` is the node at `i` folded with its sibling, if any.
  next_level-get :
      (level : List ℕ) (i : ℕ) (x : ℕ)
      → get_elem? level i ≡ some x
      → get_elem? (next_level hash level) (i / 2) ≡ some (fold_proof hash x (sibling level i))
  next_level-get [] i x h = cc
  next_level-get (a ∷ []) zero x h = unfold next_level sibling fold_proof in h
  next_level-get (a ∷ []) (suc i) x h = cc
  next_level-get (a ∷ b ∷ level) zero x h =
      let e : a ≡ x = cc in
      unfold next_level sibling fold_proof in rw (← e, fold_sibling-eq-hash_pair a b) refl
  next_level-get (a ∷ b ∷ level) (suc zero) x h =
      let e : b ≡ x = cc in
      unfold next_level sibling fold_proof in rw (← e, fold_sibling_swapped a b) refl
  next_level-get (a ∷ b ∷ level) (suc (suc i)) x h =
      let half : suc (suc i) / 2 ≡ suc (i / 2) = omega arith in
      rw (half, sibling_shift a b level i, next_level-cons a b level) (next_level-get level i x h)

  -- What one round of the loop gives: the level alone, or the level above those of the next one.
  pub levels_from-cases :
      (fuel : ℕ) (level : List ℕ) (ls : List (List ℕ))
      → levels_from hash fuel level ≡ some ls
      → ((length level ≤ 1) × (ls ≡ level ∷ []))
        ⊎ ((k : ℕ) × (above : List (List ℕ)) × (fuel ≡ suc k)
            × (levels_from hash k (next_level hash level) ≡ some above)
            × (ls ≡ level ∷ above))
  unfolding levels_from
  levels_from-cases zero level ls e = cc
  levels_from-cases (suc k) level ls e = elim (Bool-cases (ltb 1 (length level))) [
    | inr small ↦ inl (ground arith, ground arith)
    | inl big ↦ elim (Option-cases (levels_from hash k (next_level hash level))) [
      | inl out ↦ absurd (ground arith)
      | inr (above, q) ↦ inr (k, above, refl, q, ground arith)
    ]
  ]

  pub levels_from-head :
      (fuel : ℕ) (level : List ℕ) (ls : List (List ℕ))
      → levels_from hash fuel level ≡ some ls
      → (rest : List (List ℕ)) × (ls ≡ level ∷ rest)
  levels_from-head fuel level ls e = elim (levels_from-cases fuel level ls e) [
    | inl (small, q) ↦ ([], q)
    | inr (k, above, _, _, q) ↦ (above, q)
  ]

  -- The walk's step, at a list of levels that has a next one.
  proof_step :
      (level next : List ℕ) (rest : List (List ℕ)) (i x : ℕ)
      → root_of (next ∷ rest)
        ≡ some (
            fold_proof hash
              (fold_proof hash x (sibling level i))
              (proof_from (next ∷ rest) (i / 2)))
      → root_of (level ∷ next ∷ rest)
        ≡ some (fold_proof hash x (proof_from (level ∷ next ∷ rest) i))
  unfolding root_of proof_from
  proof_step level next rest i x h =
      h ∙ ap some (sym (fold_proof-append x (sibling level i) (proof_from (next ∷ rest) (i / 2))))

  single_level :
      (level : List ℕ) (i x : ℕ)
      → length level ≤ 1
      → get_elem? level i ≡ some x
      → root_of (level ∷ []) ≡ some (fold_proof hash x (proof_from (level ∷ []) i))
  unfolding root_of proof_from fold_proof
  single_level [] i x l h = cc
  single_level (a ∷ []) zero x l h = h
  single_level (a ∷ []) (suc i) x l h = cc
  single_level (a ∷ b ∷ level) i x l h = absurd (omega arith)

  -- All levels: the fold of a proof from a level's node gives the root.
  levels_from-proof :
      (fuel : ℕ) (level : List ℕ) (i x : ℕ) (ls : List (List ℕ))
      → levels_from hash fuel level ≡ some ls
      → get_elem? level i ≡ some x
      → root_of ls ≡ some (fold_proof hash x (proof_from ls i))
  levels_from-proof zero level i x ls e h = elim (levels_from-cases zero level ls e) [
    | inl (small, q) ↦ rw q (single_level level i x small h)
    | inr (k, above, f, _, _) ↦ absurd (omega arith)
  ]
  levels_from-proof (suc fuel) level i x ls e h =
      let ih = levels_from-proof fuel (next_level hash level) (i / 2) in
      elim (levels_from-cases (suc fuel) level ls e) [
        | inl (small, q) ↦ rw q (single_level level i x small h)
        | inr (k, above, f, q, r) ↦
            let f' : k ≡ fuel = omega arith in
            let q' : levels_from hash fuel (next_level hash level) ≡ some above = rw (← f') q in
            let (rest, shape) = levels_from-head fuel (next_level hash level) above q' in
            let up =
              ih (fold_proof hash x (sibling level i)) above q' (next_level-get level i x h) in
            rw (r, shape) (proof_step level (next_level hash level) rest i x (rw shape at up))
      ]

  length-next_level : (level : List ℕ) → length (next_level hash level) ≡ (length level + 1) / 2
  unfolding next_level
  length-next_level [] = omega arith
  length-next_level (a ∷ []) = omega arith
  length-next_level (a ∷ b ∷ level) = omega (arith, length-next_level level)

  -- The number of nodes is enough fuel.
  levels_from_total :
      (fuel : ℕ) (level : List ℕ)
      → length level ≤ fuel
      → 0 < fuel
      → (ls : List (List ℕ)) × (levels_from hash fuel level ≡ some ls)
  unfolding levels_from
  levels_from_total zero level h p = absurd (omega arith)
  levels_from_total (suc fuel) level h p = elim (Bool-cases (ltb 1 (length level))) [
    | inr small ↦ (level ∷ [], rw small)
    | inl big ↦
        let l = length-next_level level in
        let lt = ltb→lt 1 (length level) big in
        let (ls, e) = levels_from_total fuel (next_level hash level) (omega arith) (omega arith) in
        (level ∷ ls, rw (big, e))
  ]

  pub length-leaves : (es : List HolderEntry) → length (leaves hash es) ≡ length es
  length-leaves [] = refl
  length-leaves (e ∷ es) = ap suc (length-leaves es)

  -- What a built tree is: the levels over the leaves of the entries.
  pub from_entries-levels :
      (es : List HolderEntry) (t : SnapshotMerkleTree)
      → from_entries hash es ≡ some (ok t)
      → levels_from hash (length es) (leaves hash es) ≡ some t.levels
  unfolding from_entries
  from_entries-levels es t e = ground arith

  pub from_entries-valid :
      (es : List HolderEntry) (t : SnapshotMerkleTree)
      → from_entries hash es ≡ some (ok t)
      → validate_entries es ≡ ok tt
  unfolding from_entries
  from_entries-valid es t e = ground arith

-- The builder always finishes with the number of entries as fuel: on an entry set that
-- `validate_entries` accepts it gives a tree, and on any other the validator's error.
pub from_entries_total :
    (hash : Hash) (es : List HolderEntry)
    → ((validate_entries es ≡ ok tt)
        × ((t : SnapshotMerkleTree) × (from_entries hash es ≡ some (ok t))))
      ⊎ ((e : SnapshotError) × (validate_entries es ≡ err e)
          × (from_entries hash es ≡ some (err e)))
unfolding from_entries validate_entries
from_entries_total hash [] = inr (_, refl, refl)
from_entries_total hash (e ∷ es) =
    let (ls, q) =
      levels_from_total hash (length (e ∷ es)) (leaves hash (e ∷ es))
        (omega (arith, length-leaves hash es)) (omega arith) in
    go (validate_entries (e ∷ es)) refl ls q
  where
    go :
        (r : Result SnapshotError (Unit {0}))
        → validate_entries (e ∷ es) ≡ r
        → (ls : List (List ℕ)) → levels_from hash (length (e ∷ es)) (leaves hash (e ∷ es)) ≡ some ls
        → ((validate_entries (e ∷ es) ≡ ok tt)
            × ((t : SnapshotMerkleTree) × (from_entries hash (e ∷ es) ≡ some (ok t))))
          ⊎ ((x : SnapshotError) × (validate_entries (e ∷ es) ≡ err x)
              × (from_entries hash (e ∷ es) ≡ some (err x)))
    go (ok _) p ls q = inl (p, (record { levels = ls }, ground arith))
    go (err x) p ls q = inr (x, p, ground arith)

get_elem?-leaves :
    (hash : Hash) (es : List HolderEntry) (i : ℕ) (h : HolderEntry)
    → get_elem? es i ≡ some h
    → (get_elem? (leaves hash es) i ≡ some (compute_leaf hash h.owner h.lp_balance))
      × (i < length (leaves hash es))
get_elem?-leaves hash [] i h e = absurd (cc)
get_elem?-leaves hash (x ∷ es) zero h e = (ground arith, omega arith)
get_elem?-leaves hash (x ∷ es) (suc i) h e =
    let (found, below) = get_elem?-leaves hash es i h e in (found, omega (arith, below))

-- For every entry of the set that a tree was built from, the builder has a proof and a root, and
-- the vault's `verify_proof` accepts that proof against that root for the leaf that the vault
-- itself computes from the entry's owner and balance.
pub proof_verifies :
    (hash : Hash) (es : List HolderEntry) (t : SnapshotMerkleTree) (i : ℕ) (h : HolderEntry)
    → from_entries hash es ≡ some (ok t)
    → get_elem? es i ≡ some h
    → (p : List ℕ) × (r : ℕ) × (proof t i ≡ some p)
      × (root t ≡ some r)
      × (verify_proof hash r (Verifier.compute_leaf hash h.owner h.lp_balance) p ≡ true)
unfolding leaf_count leaf proof root verify_proof compute_leaf Verifier.compute_leaf
proof_verifies hash es t i h e at_i =
    let q = from_entries-levels hash es t e in
    let (rest, shape) = levels_from-head hash (length es) (leaves hash es) t.levels q in
    let (found, below) = get_elem?-leaves hash es i h at_i in
    let x = compute_leaf hash h.owner h.lp_balance in
    let r = fold_proof hash x (proof_from t.levels i) in
    (
      proof_from t.levels i,
      r,
      ground (arith, shape, below),
      levels_from-proof hash (length es) (leaves hash es) i x t.levels q found,
      ==_refl r,
    )
