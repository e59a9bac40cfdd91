-- ===== src/Scanner/Adapters.antt =====
-- The pool adapters, programs/grave-scanner/src/adapters/: `PoolData` of mod.rs, and the four
-- adapters that are stubs in the source.
pub mod RaydiumV4
pub mod Dispatch
pub mod Locker
use graveyield_protocol.Prelude.{
  ℕ, ◌*◌, ◌%◌, ◌^◌, List, ltb, u128_mod, checked_div, Result, err, ◌>>=◌, ◌>>◌, require, ok_or,
}
use graveyield_protocol.Vault.Cpi.{AccountInfo}
use graveyield_protocol.Scanner.Errors.{
  ScannerFailure, program, math_overflow, pool_data_parse_error, amm_adapter_unimplemented,
}

pub record PoolData : Type 0 where
  pub base_reserve : ℕ
  pub quote_reserve : ℕ
  pub lp_supply : ℕ
  pub base_mint : ℕ
  pub quote_mint : ℕ
  pub lp_mint : ℕ

-- The shift by 64 bits of a u128 never fails, and drops what does not fit.
unfoldable pub current_price_q64x64 : PoolData → Result ScannerFailure ℕ
current_price_q64x64 d = do
  require (ltb 0 d.base_reserve) (program pool_data_parse_error)
  ok_or (checked_div (d.quote_reserve * 2 ^ 64 % u128_mod) d.base_reserve) (program math_overflow)

abbrev pub raydium_clmm_id : ℕ
raydium_clmm_id = 0xa5d5ca9e04cf5db590b714ba2fe32cb159133fc1c192b72257fd07d39cb0401e

abbrev pub orca_whirlpool_id : ℕ
orca_whirlpool_id = 0xe03685f8e909053e458121c66f5a76aedc7706aa11c82f8aa952a8f2b7879a9

abbrev pub pumpswap_id : ℕ
pumpswap_id = 0x5c01c06e46f4190c7755e2c25ed0cd6b204441e1d128b79df6118292787613c

abbrev pub meteora_id : ℕ
meteora_id = 0x4e9e12fbc84e826c932cce9e2640cce15590c1c6273b0925708ba3b8520b0bc

unfoldable pub raydium_clmm_parse : AccountInfo → List AccountInfo → Result ScannerFailure PoolData
raydium_clmm_parse pool remaining = err (program amm_adapter_unimplemented)

unfoldable pub orca_whirlpool_parse :
    AccountInfo → List AccountInfo → Result ScannerFailure PoolData
orca_whirlpool_parse pool remaining = err (program amm_adapter_unimplemented)

unfoldable pub pumpswap_parse : AccountInfo → List AccountInfo → Result ScannerFailure PoolData
pumpswap_parse pool remaining = err (program amm_adapter_unimplemented)

unfoldable pub meteora_parse : AccountInfo → List AccountInfo → Result ScannerFailure PoolData
meteora_parse pool remaining = err (program amm_adapter_unimplemented)
