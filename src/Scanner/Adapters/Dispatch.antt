-- ===== src/Scanner/Adapters/Dispatch.antt =====
-- `extract_pool_data` of programs/grave-scanner/src/adapters/mod.rs: the dispatch by the owner of
-- the pool's account.
use graveyield_protocol.Prelude.{
  ℕ, ◌≡◌, true, false, List, ◌==◌, ==→eq, Result, ok, err, ◌>>◌, require, require_ok, arith, inl,
  inr, Bool-cases,
}
use graveyield_protocol.Vault.Cpi.{AccountInfo}
use graveyield_protocol.Scanner.Errors.{ScannerFailure, program, unsupported_amm}
use graveyield_protocol.Scanner.Adapters.{
  PoolData, raydium_clmm_id, orca_whirlpool_id, pumpswap_id, meteora_id, raydium_clmm_parse,
  orca_whirlpool_parse, pumpswap_parse, meteora_parse,
}
use graveyield_protocol.Scanner.Adapters.RaydiumV4.{
  raydium_v4_id, raydium_v4_parse, IsBacked, raydium_v4_parse-IsBacked,
}

abbrev dispatch : AccountInfo → List AccountInfo → Result ScannerFailure PoolData
dispatch pool remaining = elim (pool.owner == raydium_v4_id) [
  | true ↦ raydium_v4_parse pool remaining
  | false ↦ elim (pool.owner == raydium_clmm_id) [
    | true ↦ raydium_clmm_parse pool remaining
    | false ↦ elim (pool.owner == orca_whirlpool_id) [
      | true ↦ orca_whirlpool_parse pool remaining
      | false ↦ elim (pool.owner == pumpswap_id) [
        | true ↦ pumpswap_parse pool remaining
        | false ↦ elim (pool.owner == meteora_id) [
          | true ↦ meteora_parse pool remaining
          | false ↦ err (program unsupported_amm)
        ]
      ]
    ]
  ]
]

unfoldable pub extract_pool_data :
    AccountInfo → ℕ → List AccountInfo → Result ScannerFailure PoolData
extract_pool_data pool expected remaining = do
  require (pool.key == expected) (program unsupported_amm)
  dispatch pool remaining

-- Only a pool of the legacy Raydium AMM, at the address asked for, gives data: every other owner
-- and every other account fails. The data have the mints that the pool's account names; reserves and
-- LP supply are those of submitted accounts of the token program at the keys that it names, and
-- the vaults' accounts are of these mints.
pub extract_pool_data-IsBacked :
    (pool : AccountInfo) (expected : ℕ) (remaining : List AccountInfo) (d : PoolData)
    → extract_pool_data pool expected remaining ≡ ok d
    → (pool.key ≡ expected) × (pool.owner ≡ raydium_v4_id) × IsBacked pool remaining d
unfolding extract_pool_data raydium_clmm_parse orca_whirlpool_parse pumpswap_parse meteora_parse
extract_pool_data-IsBacked pool expected remaining d h =
    require_ok (pool.key == expected) _ _ h λ same h1.
      elim (Bool-cases (pool.owner == raydium_v4_id)) [
        | inl e ↦
            let parsed : raydium_v4_parse pool remaining ≡ ok d = ground (arith, e, h1) in
            (==→eq _ _ same, ==→eq _ _ e, raydium_v4_parse-IsBacked pool remaining d parsed)
        | inr e ↦ absurd (ground (arith, e, h1))
      ]
