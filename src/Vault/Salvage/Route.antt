-- ===== src/Vault/Salvage/Route.antt =====
-- What the calls of a settlement, in programs/grave-vault/src/instructions/salvage_pool.rs, may
-- touch and carry.
use graveyield_protocol.Prelude.{
  ℕ, refl, ap, map, take, drop, ◌==◌, ==_refl, ◌≡◌, ◌≢◌, Bool, true, List, [], ◌∷◌, arith,
  if◌then◌else◌, Member, here, there,
}
use graveyield_protocol.Vault.Constants.{jupiter_v6_program_id}
use graveyield_protocol.Vault.Cpi.{AccountInfo, AccountMeta, Instruction, RemoveLiquidityInput}
use graveyield_protocol.Vault.Cpi.Jupiter.{route_metas, swap_instruction}
use graveyield_protocol.Vault.Salvage.Accounts.{SalvagePoolParams, SalvagePool}
use graveyield_protocol.Vault.Salvage.Swap.{
  jupiter_remaining, forbidden, mentions, avoids, swap_input,
}

avoids-mentions :
    (keys : List ℕ) (route : List AccountInfo) (x : AccountInfo) (k : ℕ)
    → avoids keys route ≡ true
    → Member x route
    → mentions keys k ≡ true
    → x.key ≢ k
avoids-mentions keys [] x k h at m = elim at [ ]
avoids-mentions keys (a ∷ rest) x k h (here others) m = ground (arith, m, h)
avoids-mentions keys (a ∷ rest) x k h (there b m') m =
    avoids-mentions keys rest x k (ground arith) m' m

-- How an account of the route is passed on: the vault's authority as a signer.
abbrev pub forwarded : ℕ → AccountInfo → AccountMeta
forwarded authority x = record {
  pubkey = x.key;
  is_signer = if x.key == authority then true else x.is_signer;
  is_writable = x.is_writable;
}

-- None of the pool's records and accounts, the treasury, the config, the certificate, and the
-- salvor's own wallet and LP account.
pub record IsHarmless (a : SalvagePool) (key : ℕ) : Type 0 where
  pub registry : key ≢ a.pool_registry
  pub receipt : key ≢ a.salvage_receipt
  pub lp_holders : key ≢ a.lp_holder_pool_vault
  pub treasury : key ≢ a.protocol_treasury
  pub holding : key ≢ a.vault_sol_holding_account
  pub config : key ≢ a.protocol_config
  pub cert : key ≢ a.eligibility_cert
  pub salvor : key ≢ a.salvor
  pub salvor_lp : key ≢ a.salvor_lp_token_account

pub avoids-IsHarmless :
    (a : SalvagePool)
    → avoids (forbidden a) (jupiter_remaining a) ≡ true
    → (x : AccountInfo) → Member x (drop 13 a.remaining_accounts)
    → IsHarmless a x.key
avoids-IsHarmless a clean x m =
    let apart : (k : ℕ) → mentions (forbidden a) k ≡ true → x.key ≢ k =
      λ k. avoids-mentions (forbidden a) (jupiter_remaining a) x k clean m in
    record {
      registry = apart a.pool_registry (ground (arith, ==_refl a.pool_registry));
      receipt = apart a.salvage_receipt (ground (arith, ==_refl a.salvage_receipt));
      lp_holders = apart a.lp_holder_pool_vault (ground (arith, ==_refl a.lp_holder_pool_vault));
      treasury = apart a.protocol_treasury (ground (arith, ==_refl a.protocol_treasury));
      holding =
          apart a.vault_sol_holding_account (ground (arith, ==_refl a.vault_sol_holding_account));
      config = apart a.protocol_config (ground (arith, ==_refl a.protocol_config));
      cert = apart a.eligibility_cert (ground (arith, ==_refl a.eligibility_cert));
      salvor = apart a.salvor (ground (arith, ==_refl a.salvor));
      salvor_lp =
          apart a.salvor_lp_token_account (ground (arith, ==_refl a.salvor_lp_token_account));
    }

-- The call of Jupiter: the route's accounts and bytes as submitted, the vault's authority signing.
abbrev pub route_call : SalvagePool → SalvagePoolParams → Instruction
route_call a p = record {
  program_id = jupiter_v6_program_id;
  accounts = map (forwarded a.vault_authority) (drop 13 a.remaining_accounts);
  payload = p.jupiter_route_data;
}

route_metas-map :
    (authority : ℕ) (route : List AccountInfo)
    → route_metas authority route ≡ map (forwarded authority) route
unfolding route_metas
route_metas-map authority [] = refl
route_metas-map authority (x ∷ rest) =
    ap (λ ms. forwarded authority x ∷ ms) (route_metas-map authority rest)

pub swap_instruction-route_call :
    (a : SalvagePool) (p : SalvagePoolParams) → swap_instruction (swap_input a p) ≡ route_call a p
unfolding swap_instruction swap_input
swap_instruction-route_call a p =
    ap
      (λ ms. record {
        program_id = jupiter_v6_program_id;
        accounts = ms;
        payload = p.jupiter_route_data;
      })
      (route_metas-map a.vault_authority (drop 13 a.remaining_accounts))

-- The withdraw that a settlement asks for: the salvor's amount of its LP tokens.
abbrev pub salvor_removal : SalvagePool → SalvagePoolParams → Bool → RemoveLiquidityInput
salvor_removal a p base_is_coin_side = record {
  pool = a.pool;
  amm_program = a.amm_program.key;
  user_lp_token_account = a.salvor_lp_token_account;
  user_owner = a.salvor;
  vault_base_token_account = a.vault_base_token_account;
  vault_memecoin_token_account = a.vault_memecoin_token_account;
  lp_mint = a.lp_mint;
  token_program = a.token_program;
  lp_amount = p.salvor_lp_amount;
  base_is_coin_side = base_is_coin_side;
  remaining_accounts = take 13 a.remaining_accounts;
}
