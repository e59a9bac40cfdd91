-- ===== src/Vault/Salvage/Slippage.antt =====
-- The two calls of a settlement: what the conversion leg guarantees about its route and output.
use graveyield_protocol.Prelude.{
  ℕ, take, drop, ◌+◌, ◌≤◌, ◌<◌, ◌≡◌, ◌⊎◌, Bool, some, if◌then◌else◌, Table, ok, Member,
}
use graveyield_protocol.Vault.State.{ProtocolConfig}
use graveyield_protocol.Vault.Proceeds.{effective_slippage_cap_bps, minimum_floor}
use graveyield_protocol.Vault.Cpi.{AccountInfo, Invoke, RemoveLiquidityOutput}
use graveyield_protocol.Vault.Cpi.Laws.{nth_key, Withdrawn}
use graveyield_protocol.Vault.Salvage.Accounts.{SalvagePoolParams, SalvagePool}
use graveyield_protocol.Vault.Salvage.Preflight.{pool_orientation}
use graveyield_protocol.Vault.Salvage.Route.{IsHarmless, route_call, salvor_removal}

-- What the conversion of a withdraw's output did, as the comment at `redeem-Redeemed` says.
pub record Converted (invoke : Invoke) (cfg : ProtocolConfig) (a : SalvagePool)
    (p : SalvagePoolParams) (base_is_coin_side : Bool) (removal : RemoveLiquidityOutput)
    (tokens after : Table ℕ) : Type 0 where
  pub coin : ℕ
  pub pc : ℕ
  pub floor : ℕ
  pub pre : ℕ
  pub output : ℕ
  pub untouched : (x : AccountInfo) → Member x (drop 13 a.remaining_accounts) → IsHarmless a x.key
  pub coin_reserve : tokens (nth_key (take 13 a.remaining_accounts) 3) ≡ some coin
  pub pc_reserve : tokens (nth_key (take 13 a.remaining_accounts) 4) ≡ some pc
  pub floor_is :
      minimum_floor removal.memecoin_received
        (if base_is_coin_side then coin else pc)
        (if base_is_coin_side then pc else coin)
        (effective_slippage_cap_bps cfg.max_slippage_bps p.max_slippage_bps_override)
      ≡ ok floor
  pub floor_met : floor ≤ p.min_quote_output_lamports
  pub swapped : invoke (route_call a p) tokens ≡ some after
  pub base_pre : tokens a.vault_base_token_account ≡ some pre
  pub base_post : after a.vault_base_token_account ≡ some (pre + output)
  pub quote_met : removal.base_received + p.min_quote_output_lamports ≤ pre + output

-- What the calls of a settlement did, as the comment at `redeem-Redeemed` says.
pub record Redeemed (invoke : Invoke) (cfg : ProtocolConfig) (a : SalvagePool)
    (p : SalvagePoolParams) (tokens after : Table ℕ) : Type 0 where
  pub side : Bool
  pub removal : RemoveLiquidityOutput
  pub withdrawn : Table ℕ
  pub oriented : pool_orientation a ≡ ok (side, a.memecoin_mint, a.lp_mint)
  pub withdraw : Withdrawn invoke (salvor_removal a p side) tokens withdrawn removal
  pub conversion :
      ((removal.memecoin_received < cfg.jupiter_dust_threshold_lamports) × (after ≡ withdrawn))
      ⊎ ((cfg.jupiter_dust_threshold_lamports ≤ removal.memecoin_received)
          × Converted invoke cfg a p side removal withdrawn after)
