-- ===== src/Snapshotter/Artifact/Published.antt =====
-- What an artifact that snapshotter/src/artifact.rs accepts is worth to its holders.
use graveyield_protocol.Prelude.{
  ℕ, zero, suc, ◌+◌, ◌≡◌, refl, ap, true, ◌&&◌, Option, none, some, List, [], ◌∷◌, length,
  get_elem?, ltb, ◌==◌, ==→eq, Bool-cases, both_eq, inl, inr, u64_mod, u128_mod, checked_add,
  checked_add-some, Result, ok, err, ◌>>◌, require, bind_ok, ok_or_ok, require_ok, arith,
}
use mathlib.Core.Path.{subst}
use graveyield_protocol.Vault.Merkle as Verifier
use graveyield_protocol.Vault.Merkle.{Hash, verify_proof}
use graveyield_protocol.Snapshotter.Model.{
  SnapshotError, artifact_mismatch, overflow, IsCanonical, validate_entries-IsCanonical,
}
use graveyield_protocol.Snapshotter.Balances.{entry}
use graveyield_protocol.Snapshotter.Balances.Laws.{total_balance}
use graveyield_protocol.Snapshotter.Tree.{
  SnapshotMerkleTree, from_entries, root, leaf_count, tree_depth, leaf, proof,
}
use graveyield_protocol.Snapshotter.Tree.Complete.{from_entries-valid, proof_verifies}
use graveyield_protocol.Snapshotter.Artifact.{
  ArtifactEntry, SnapshotArtifact, Run, returned, panicked, then_run, built, same_list, is_hash,
  is_proof, holders, check_entries, sum_balances, check_tree, check_identity, verify_integrity,
  artifact_format_version,
}

-- Inversion of a chain of calls that returned `ok`.
then_run_ok {ℓ} :
    {A B : Type 0} {C : Type ℓ} (m : Run A) (f : A → Run B) {b : B}
    → then_run m f ≡ returned (ok b)
    → ((a : A) → m ≡ returned (ok a) → f a ≡ returned (ok b) → C)
    → C
then_run_ok (returned (ok a)) f h k = k a refl h
then_run_ok (returned (err e)) f h k = absurd (cc)
then_run_ok panicked f h k = absurd (cc)

is_hash-some : (o : Option ℕ) (h : ℕ) → is_hash o h ≡ true → o ≡ some h
is_hash-some none h e = absurd (cc)
is_hash-some (some x) h e = ap some (==→eq x h e)

same_list-eq : (xs ys : List ℕ) → same_list xs ys ≡ true → xs ≡ ys
same_list-eq [] [] e = refl
same_list-eq [] (y ∷ ys) e = absurd (cc)
same_list-eq (x ∷ xs) [] e = absurd (cc)
same_list-eq (x ∷ xs) (y ∷ ys) e = elim (Bool-cases (x == y)) [
  | inl d ↦
      let rest : same_list xs ys ≡ true = ground (arith, d, e) in
      let head : x ≡ y = ==→eq x y d in let tail : xs ≡ ys = same_list-eq xs ys rest in cc
  | inr d ↦ absurd (ground (arith, d, e))
]

is_proof-some : (o : Option (List ℕ)) (p : List ℕ) → is_proof o p ≡ true → o ≡ some p
is_proof-some none p e = absurd (cc)
is_proof-some (some x) p e = ap some (same_list-eq x p e)

check_entries-at :
    (t : SnapshotMerkleTree) (i j : ℕ) (es : List ArtifactEntry) (e : ArtifactEntry)
    → check_entries t i es ≡ ok tt
    → get_elem? es j ≡ some e
    → (leaf t (i + j) ≡ some e.leaf) × (proof t (i + j) ≡ some e.proof)
unfolding check_entries
check_entries-at t i j [] e h at = absurd (cc)
check_entries-at t i zero (x ∷ es) e h at =
    require_ok (is_hash (leaf t i) x.leaf) artifact_mismatch _ h λ c1 h1.
      require_ok (is_proof (proof t i) x.proof) artifact_mismatch _ h1 λ c2 h2.
        let same : x ≡ e = cc in
        let here : i + 0 ≡ i = omega arith in
        rw (here, ← same) (is_hash-some (leaf t i) x.leaf c1, is_proof-some (proof t i) x.proof c2)
check_entries-at t i (suc j) (x ∷ es) e h at =
    require_ok (is_hash (leaf t i) x.leaf) artifact_mismatch _ h λ c1 h1.
      require_ok (is_proof (proof t i) x.proof) artifact_mismatch _ h1 λ c2 h2.
        let next : i + suc j ≡ suc i + j = omega arith in
        rw next (check_entries-at t (suc i) j es e h2 at)

sum_balances-total :
    (es : List ArtifactEntry) (s t : ℕ)
    → sum_balances es s ≡ ok t
    → t ≡ s + total_balance (holders es)
unfolding sum_balances
sum_balances-total [] s t h = ground arith
sum_balances-total (a ∷ rest) s t h =
    ok_or_ok (checked_add u128_mod s a.lp_balance) overflow _ h λ n fn h1.
      let (e, _) = checked_add-some u128_mod s a.lp_balance n fn in
      omega (arith, sum_balances-total rest n t h1, e)

get_elem?-holders :
    (es : List ArtifactEntry) (j : ℕ) (e : ArtifactEntry)
    → get_elem? es j ≡ some e
    → get_elem? (holders es) j ≡ some (entry e.owner e.lp_balance)
get_elem?-holders [] j e h = absurd (cc)
get_elem?-holders (x ∷ es) zero e h = let same : x ≡ e = cc in rw same refl
get_elem?-holders (x ∷ es) (suc j) e h = get_elem?-holders es j e h

built-some :
    {A : Type 0} (o : Option (Result SnapshotError A)) (a : A)
    → built o ≡ returned (ok a)
    → o ≡ some (ok a)
built-some none a h = absurd (cc)
built-some (some r) a h = cc

identity_closed :
    (sum enumerated supply : ℕ)
    → Path
        (Run (Unit {0}))
        (returned (
          require (sum == enumerated) artifact_mismatch
          >> require (enumerated == supply) artifact_mismatch))
        (returned (ok tt))
    → sum ≡ supply
identity_closed sum enumerated supply h =
    let both : (require (sum == enumerated) artifact_mismatch
          >> require (enumerated == supply) artifact_mismatch)
        ≡ ok tt =
      cc in
    require_ok (sum == enumerated) artifact_mismatch _ both λ c1 h1. ground (arith, c1, h1)

check_identity-closed :
    (a : SnapshotArtifact)
    → check_identity a ≡ returned (ok tt)
    → a.reconciliation.entries_total + a.reconciliation.sink_exclusions_total
      ≡ a.lp_total_supply_at_snapshot
unfolding check_identity
check_identity-closed a h =
    let r = a.reconciliation in
    elim (Bool-cases (ltb (r.entries_total + r.sink_exclusions_total) u64_mod)) [
      | inl e ↦
          identity_closed (r.entries_total + r.sink_exclusions_total) r.enumerated_total
            a.lp_total_supply_at_snapshot (ground (arith, e, h))
      | inr e ↦ absurd (ground (arith, e, h))
    ]

-- The vault accepts what the tree's own proof is.
claim_verifies :
    (hash : Hash) (es : List ArtifactEntry) (t : SnapshotMerkleTree) (merkle_root i : ℕ)
    (e : ArtifactEntry)
    → from_entries hash (holders es) ≡ some (ok t)
    → root t ≡ some merkle_root
    → proof t i ≡ some e.proof
    → get_elem? es i ≡ some e
    → verify_proof hash merkle_root (Verifier.compute_leaf hash e.owner e.lp_balance) e.proof ≡ true
claim_verifies hash es t merkle_root i e made top path at =
    let (p, r, path', top', accepted) =
      proof_verifies hash (holders es) t i (entry e.owner e.lp_balance) made
        (get_elem?-holders es i e at) in
    let same_path : p ≡ e.proof = ground (arith, path, path') in
    let same_root : r ≡ merkle_root = ground (arith, top, top') in
    rw (← same_path, ← same_root) accepted

-- An artifact that the check accepts, as the comment at `verify_integrity-IsPublished` says.
pub record IsPublished (hash : Hash) (a : SnapshotArtifact) : Type 0 where
  pub version : a.format_version ≡ artifact_format_version
  pub canonical : IsCanonical (holders a.entries)
  pub claims :
      (i : ℕ) (e : ArtifactEntry)
      → get_elem? a.entries i ≡ some e
      → verify_proof hash a.merkle_root (Verifier.compute_leaf hash e.owner e.lp_balance) e.proof
        ≡ true
  pub count : a.leaf_count ≡ length (holders a.entries)
  pub closed :
      total_balance (holders a.entries) + a.reconciliation.sink_exclusions_total
      ≡ a.lp_total_supply_at_snapshot

-- An artifact that the check accepts has the one format version and canonical entries, and every
-- holder can claim with it: the vault's verifier accepts the persisted proof of each entry against
-- the persisted root, for the leaf of the entry's owner and balance. The entries' balances and
-- the sink exclusions sum up to the supply.
pub verify_integrity-IsPublished :
    (hash : Hash) (a : SnapshotArtifact)
    → verify_integrity hash a ≡ returned (ok tt)
    → IsPublished hash a
unfolding verify_integrity check_tree
verify_integrity-IsPublished hash a h =
    then_run_ok (returned (require (a.format_version == artifact_format_version) artifact_mismatch))
      _ h
      λ _ f1 h1. then_run_ok (built (from_entries hash (holders a.entries))) _ h1 λ t f2 h2.
        then_run_ok (returned (check_tree a t)) _ h2 λ _ f3 h3.
          let checked : check_tree a t ≡ ok tt = cc in
          require_ok (is_hash (root t) a.merkle_root) artifact_mismatch _ checked λ c1 h4.
            require_ok (a.leaf_count == length (holders a.entries) && a.leaf_count == leaf_count t)
              artifact_mismatch _ h4
              λ c2 h5. require_ok (a.tree_depth == tree_depth t) artifact_mismatch _ h5 λ c3 h6.
                bind_ok (check_entries t 0 a.entries) _ h6 λ _ f4 h7.
                  bind_ok (sum_balances a.entries 0) _ h7 λ total f5 h8.
                    let made = built-some (from_entries hash (holders a.entries)) t f2 in
                    let top = is_hash-some (root t) a.merkle_root c1 in
                    let sum = sum_balances-total a.entries 0 total f5 in
                    let identity = check_identity-closed a h3 in
                    record {
                      version = ground (arith, f1);
                      canonical =
                          (validate_entries-IsCanonical (holders a.entries)
                            (from_entries-valid hash (holders a.entries) t made)).0;
                      claims = λ i e at.
                          let at_i = check_entries-at t 0 i a.entries e f4 at in
                          let same_index : 0 + i ≡ i = omega arith in
                          claim_verifies hash a.entries t a.merkle_root i e made top
                            (subst (λ j. proof t j ≡ some e.proof) same_index at_i.1) at;
                      count =
                          (both_eq a.leaf_count (length (holders a.entries)) a.leaf_count
                            (leaf_count t) c2).0;
                      closed = ground (arith, sum, h8, identity);
                    }
