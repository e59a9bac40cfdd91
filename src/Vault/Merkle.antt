-- ===== src/Vault/Merkle.antt =====
-- programs/grave-vault/src/merkle.rs: the leaf hash and the proof verifier. The hash function of
-- the `solana_sha256_hasher` crate is a parameter; digests are big-endian values of 32 bytes, so
-- `<=` on arrays is `leb`.
pub mod Soundness
use graveyield_protocol.Prelude.{
  ℕ, Bool, List, [], ◌∷◌, ◌++◌, leb, ◌==◌, if◌then◌else◌, le_bytes, key_bytes,
}

abbrev pub Hash : Type 0
Hash = List ℕ → ℕ

module _ (hash : Hash) where
  -- `compute_leaf`: the 40 bytes of the key and the little-endian balance.
  unfoldable pub compute_leaf : ℕ → ℕ → ℕ
  compute_leaf holder lp_balance = hash (key_bytes holder ++ le_bytes 8 lp_balance)

  -- The body of the verifier's loop: the pair in ascending order, 64 bytes.
  unfoldable pub fold_sibling : ℕ → ℕ → ℕ
  fold_sibling current sibling =
      if leb current sibling
      then hash (key_bytes current ++ key_bytes sibling)
      else hash (key_bytes sibling ++ key_bytes current)

  unfoldable pub fold_proof : ℕ → List ℕ → ℕ
  unfolding fold_sibling
  fold_proof current [] = current
  fold_proof current (sibling ∷ proof) = fold_proof (fold_sibling current sibling) proof

  unfoldable pub verify_proof : ℕ → ℕ → List ℕ → Bool
  unfolding fold_proof
  verify_proof root leaf proof = fold_proof leaf proof == root
