-- ===== src/Vault/Merkle/Soundness.antt =====
-- What an accepted proof says: over any tree of holder entries, a proof that the verifier accepts
-- against the tree's root is for an entry of the tree, or two of the hashed strings clash.
use graveyield_protocol.Prelude.{
  ℕ, ◌<◌, ◌^◌, ◌≡◌, ◌≢◌, refl, sym, ap, ◌∙◌, ◌⊎◌, inl, inr, true, List, [], ◌∷◌, ◌++◌, reverse,
  arith, All, length, length-append, append_injective, leb, ==→eq, if◌then◌else◌, le_bytes,
  key_bytes, length-key_bytes, length-u64_bytes, key_bytes_injective, le_bytes_injective,
}
use mathlib.Core.Path.{subst}
use mathlib.Core.List.{reverse-append}
use native.Mathlib.Decide.{ℕ_discrete}
use graveyield_protocol.Vault.Merkle.{Hash, compute_leaf, fold_sibling, fold_proof, verify_proof}

-- A tree of holder entries; a node's two parts are hashed in ascending order.
pub data Tree : Type 0 where
  entry : ℕ → ℕ → Tree
  node : Tree → Tree → Tree

-- The holder and balance stand at an entry of the tree.
pub data Entry (holder balance : ℕ) : Tree → Type 0 where
  at : Entry holder balance (entry holder balance)
  left : {l : Tree} (r : Tree) → Entry holder balance l → Entry holder balance (node l r)
  right : (l : Tree) {r : Tree} → Entry holder balance r → Entry holder balance (node l r)

-- Keys and digests fit 32 bytes, balances 8.
abbrev pub IsBounded : ℕ → ℕ → Type 0
IsBounded holder balance = (holder < 256 ^ 32) × (balance < 256 ^ 8)

abbrev pub EntriesBounded : Tree → Type 0
EntriesBounded (entry h b) = IsBounded h b
EntriesBounded (node l r) = EntriesBounded l × EntriesBounded r

module _ (hash : Hash) where
  unfoldable pub root : Tree → ℕ
  root (entry h b) = compute_leaf hash h b
  root (node l r) = fold_sibling hash (root l) (root r)

-- The preimage that `fold_sibling` hashes.
unfoldable pub pair_bytes : ℕ → ℕ → List ℕ
pair_bytes a b = if leb a b then key_bytes a ++ key_bytes b else key_bytes b ++ key_bytes a

length-pair_bytes : (a b : ℕ) → length (pair_bytes a b) ≡ 64
unfolding pair_bytes
length-pair_bytes a b = ground (
  arith,
  length-append (key_bytes a) (key_bytes b),
  length-append (key_bytes b) (key_bytes a),
  length-key_bytes a,
  length-key_bytes b,
)

-- The preimage that `compute_leaf` hashes.
unfoldable pub leaf_bytes : ℕ → ℕ → List ℕ
leaf_bytes h b = key_bytes h ++ le_bytes 8 b

length-leaf_bytes : (h b : ℕ) → length (leaf_bytes h b) ≡ 40
unfolding leaf_bytes
length-leaf_bytes h b =
    omega
      (arith, length-append (key_bytes h) (le_bytes 8 b), length-key_bytes h, length-u64_bytes b)

leaf-ne-pair : (h b x y : ℕ) → leaf_bytes h b ≢ pair_bytes x y
leaf-ne-pair h b x y e =
    let e' = ap length e in omega (arith, length-leaf_bytes h b, length-pair_bytes x y)

leaf_bytes_injective :
    (h b h' b' : ℕ)
    → IsBounded h b
    → IsBounded h' b'
    → leaf_bytes h b ≡ leaf_bytes h' b'
    → (h ≡ h') × (b ≡ b')
unfolding leaf_bytes
leaf_bytes_injective h b h' b' w w' e =
    let parts =
      append_injective (key_bytes h) (key_bytes h') (length-key_bytes h ∙ sym (length-key_bytes h'))
        e in
    (key_bytes_injective h h' w.0 w'.0 parts.0, le_bytes_injective 8 b b' w.1 w'.1 parts.1)

concat_injective :
    (a b c d : ℕ)
    → a < 256 ^ 32
    → b < 256 ^ 32
    → c < 256 ^ 32
    → d < 256 ^ 32
    → key_bytes a ++ key_bytes b ≡ key_bytes c ++ key_bytes d
    → (a ≡ c) × (b ≡ d)
concat_injective a b c d ha hb hc hd e =
    let parts =
      append_injective (key_bytes a) (key_bytes c) (length-key_bytes a ∙ sym (length-key_bytes c))
        e in
    (key_bytes_injective a c ha hc parts.0, key_bytes_injective b d hb hd parts.1)

-- A pair's preimage determines the pair up to order.
pair_bytes_injective :
    (a b c d : ℕ)
    → a < 256 ^ 32
    → b < 256 ^ 32
    → c < 256 ^ 32
    → d < 256 ^ 32
    → pair_bytes a b ≡ pair_bytes c d
    → ((a ≡ c) × (b ≡ d)) ⊎ ((a ≡ d) × (b ≡ c))
unfolding pair_bytes
pair_bytes_injective a b c d ha hb hc hd e = ground (
  arith,
  concat_injective a b c d,
  concat_injective a b d c,
  concat_injective b a c d,
  concat_injective b a d c,
)

bytes_discrete : Discrete (List ℕ)
bytes_discrete = hlevel ℕ_discrete

module _ (hash : Hash) where
  fold_sibling-eq-hash : (a b : ℕ) → fold_sibling hash a b ≡ hash (pair_bytes a b)
  unfolding fold_sibling pair_bytes
  fold_sibling-eq-hash a b = ground arith

  -- The verifier's loop read from the last sibling inwards.
  unfoldable pub fold_back : ℕ → List ℕ → ℕ
  fold_back c [] = c
  fold_back c (s ∷ ss) = fold_sibling hash (fold_back c ss) s

  -- The byte strings that a tree's root hashes.
  abbrev pub TreeHashed : Tree → List ℕ → Type 0
  TreeHashed (entry h b) xs = xs ≡ leaf_bytes h b
  TreeHashed (node l r) xs =
      (xs ≡ pair_bytes (root hash l) (root hash r)) ⊎ (TreeHashed l xs ⊎ TreeHashed r xs)

  -- The byte strings that the verifier hashes for a leaf, the last sibling first.
  abbrev pub ProofHashed : ℕ → ℕ → List ℕ → List ℕ → Type 0
  ProofHashed h b [] xs = xs ≡ leaf_bytes h b
  ProofHashed h b (s ∷ ss) xs =
      (xs ≡ pair_bytes (fold_back (compute_leaf hash h b) ss) s) ⊎ ProofHashed h b ss xs

  -- A string that the verifier hashed and a different one that the tree hashes have one digest.
  pub record Clash (t : Tree) (h b : ℕ) (ss : List ℕ) : Type 0 where
    pub proof_side : List ℕ
    pub tree_side : List ℕ
    pub different : proof_side ≢ tree_side
    pub one_digest : hash proof_side ≡ hash tree_side
    pub in_proof : ProofHashed h b ss proof_side
    pub in_tree : TreeHashed t tree_side

  fold_back-append :
      (c : ℕ) (xs ys : List ℕ) → fold_back c (xs ++ ys) ≡ fold_back (fold_back c ys) xs
  unfolding fold_back
  fold_back-append c [] ys = refl
  fold_back-append c (x ∷ xs) ys = ap (λ t. fold_sibling hash t x) (fold_back-append c xs ys)

  fold_proof-eq-fold_back :
      (c : ℕ) (proof : List ℕ) → fold_proof hash c proof ≡ fold_back c (reverse proof)
  unfolding fold_proof fold_back
  fold_proof-eq-fold_back c [] = refl
  fold_proof-eq-fold_back c (s ∷ proof) =
      fold_proof-eq-fold_back (fold_sibling hash c s) proof
      ∙ sym (fold_back-append c (reverse proof) (s ∷ []))
      ∙ ap (fold_back c) (sym (reverse-append (s ∷ []) proof))

  module _ (digests : (xs : List ℕ) → hash xs < 256 ^ 32) where
    fold_sibling_lt : (a b : ℕ) → fold_sibling hash a b < 256 ^ 32
    fold_sibling_lt a b = rw (fold_sibling-eq-hash a b) (digests (pair_bytes a b))

    root_lt : (t : Tree) → root hash t < 256 ^ 32
    unfolding root compute_leaf
    root_lt (entry h b) = digests (key_bytes h ++ le_bytes 8 b)
    root_lt (node l r) = fold_sibling_lt (root hash l) (root hash r)

    fold_back_lt : (c : ℕ) (ss : List ℕ) → c < 256 ^ 32 → fold_back c ss < 256 ^ 32
    unfolding fold_back
    fold_back_lt c [] h = h
    fold_back_lt c (s ∷ ss) h = fold_sibling_lt (fold_back c ss) s

    leaf_lt : (h b : ℕ) → compute_leaf hash h b < 256 ^ 32
    unfolding compute_leaf
    leaf_lt h b = digests (key_bytes h ++ le_bytes 8 b)

    module _ (h b : ℕ) (bounded : IsBounded h b) where
      grown :
          (t u : Tree) (s : ℕ) (ss : List ℕ)
          → ((xs : List ℕ) → TreeHashed t xs → TreeHashed u xs)
          → Clash t h b ss
          → Clash u h b (s ∷ ss)
      grown t u s ss up c = record {
        proof_side = c.proof_side;
        tree_side = c.tree_side;
        different = c.different;
        one_digest = c.one_digest;
        in_proof = inr c.in_proof;
        in_tree = up c.tree_side c.in_tree;
      }

      -- The step at a node: the last fold joined the node's two parts, or there is a clash.
      node_step :
          (l r : Tree) (s : ℕ) (ss : List ℕ)
          → s < 256 ^ 32
          → fold_back (compute_leaf hash h b) (s ∷ ss) ≡ root hash (node l r)
          → ((fold_back (compute_leaf hash h b) ss ≡ root hash l)
              ⊎ (fold_back (compute_leaf hash h b) ss ≡ root hash r))
            ⊎ Clash (node l r) h b (s ∷ ss)
      unfolding fold_back root
      node_step l r s ss hs e =
          let c = fold_back (compute_leaf hash h b) ss in
          let e' =
            sym (fold_sibling-eq-hash c s) ∙ e ∙ fold_sibling-eq-hash (root hash l) (root hash r) in
          elim (bytes_discrete (pair_bytes c s) (pair_bytes (root hash l) (root hash r))) [
            | no p ↦ inr (record {
              proof_side = pair_bytes c s;
              tree_side = pair_bytes (root hash l) (root hash r);
              different = p;
              one_digest = e';
              in_proof = inl refl;
              in_tree = inl refl;
            })
            | yes p ↦
                elim (pair_bytes_injective c s (root hash l) (root hash r)
                  (fold_back_lt (compute_leaf hash h b) ss (leaf_lt h b)) hs (root_lt l) (root_lt r)
                  p) [ inl q ↦ inl (inl q.0) | inr q ↦ inl (inr q.0) ]
          ]

      sound_back :
          (t : Tree) (ss : List ℕ)
          → EntriesBounded t
          → All (λ s. s < 256 ^ 32) ss
          → fold_back (compute_leaf hash h b) ss ≡ root hash t
          → Entry h b t ⊎ Clash t h b ss
      unfolding fold_back root compute_leaf leaf_bytes
      sound_back (entry h' b') [] w hs e =
          elim (bytes_discrete (leaf_bytes h b) (leaf_bytes h' b')) [
            | no p ↦ inr (record {
              proof_side = leaf_bytes h b;
              tree_side = leaf_bytes h' b';
              different = p;
              one_digest = e;
              in_proof = refl;
              in_tree = refl;
            })
            | yes p ↦ let q = leaf_bytes_injective h b h' b' bounded w p in inl (rw (q.0, q.1) at)
          ]
      sound_back (entry h' b') (s ∷ ss) w hs e =
          let c = fold_back (compute_leaf hash h b) ss in
          inr (record {
            proof_side = pair_bytes c s;
            tree_side = leaf_bytes h' b';
            different = λ q. leaf-ne-pair h' b' c s (sym q);
            one_digest = sym (fold_sibling-eq-hash c s) ∙ e;
            in_proof = inl refl;
            in_tree = refl;
          })
      sound_back (node l r) [] w hs e = inr (record {
        proof_side = leaf_bytes h b;
        tree_side = pair_bytes (root hash l) (root hash r);
        different = leaf-ne-pair h b (root hash l) (root hash r);
        one_digest = e ∙ fold_sibling-eq-hash (root hash l) (root hash r);
        in_proof = refl;
        in_tree = inl refl;
      })
      sound_back (node l r) (s ∷ ss) w hs e =
          let in_left = sound_back l ss w.0 hs.1 in
          let in_right = sound_back r ss w.1 hs.1 in
          elim (node_step l r s ss hs.0 e) [
            | inr clash ↦ inr clash
            | inl (inl p) ↦ elim (in_left p) [
              | inl i ↦ inl (left r i)
              | inr c ↦ inr (grown l (node l r) s ss (λ xs m. inr (inl m)) c)
            ]
            | inl (inr p) ↦ elim (in_right p) [
              | inl i ↦ inl (right l i)
              | inr c ↦ inr (grown r (node l r) s ss (λ xs m. inr (inr m)) c)
            ]
          ]

All-append {ℓ} :
    {A : Type 0} (P : A → Type ℓ) (xs : List A) (y : A) → All P xs → P y → All P (xs ++ y ∷ [])
All-append P [] y h p = (p, tt)
All-append P (x ∷ xs) y h p = (h.0, All-append P xs y h.1 p)

All-reverse {ℓ} : {A : Type 0} (P : A → Type ℓ) (xs : List A) → All P xs → All P (reverse xs)
All-reverse P [] h = tt
All-reverse P (x ∷ xs) h =
    subst (All P) (sym (reverse-append (x ∷ []) xs))
      (All-append P (reverse xs) x (All-reverse P xs h.1) h.0)

-- For a hash with 32-byte digests: a proof that `verify_proof` accepts for a holder and a balance
-- against the root of a tree of entries is for an entry of the tree with that holder and that
-- balance, or one of the strings that the verifier hashed for it and a different one of the
-- strings that the tree's root hashes have one digest.
pub verify_proof_sound :
    (hash : Hash) (t : Tree) (holder balance : ℕ) (proof : List ℕ)
    → ((xs : List ℕ) → hash xs < 256 ^ 32)
    → EntriesBounded t
    → IsBounded holder balance
    → All (λ s. s < 256 ^ 32) proof
    → verify_proof hash (root hash t) (compute_leaf hash holder balance) proof ≡ true
    → Entry holder balance t ⊎ Clash hash t holder balance (reverse proof)
unfolding verify_proof
verify_proof_sound hash t holder balance proof digests w bounded hs e =
    let leaf = compute_leaf hash holder balance in
    sound_back hash digests holder balance bounded t (reverse proof) w
      (All-reverse (λ s. s < 256 ^ 32) proof hs)
      (sym (fold_proof-eq-fold_back hash leaf proof)
        ∙ ==→eq (fold_proof hash leaf proof) (root hash t) e)
