-- ===== src/Vault/Cpi.antt =====
-- programs/grave-vault/src/cpi/: the calls into other programs. Such a program is not this
-- repository's code: what it does to the token balances is the parameter `invoke`, which gives
-- `none` where the call fails. Token accounts are read by key from the table of balances; `none`
-- there is an account that does not deserialise.
pub mod Raydium
pub mod Jupiter
pub mod Laws
use graveyield_protocol.Prelude.{
  ℕ, Bool, Option, none, some, List, [], ◌∷◌, get_elem?, Table, Result, ok_or,
}
use graveyield_protocol.Vault.Errors.{VaultFailure}

pub record AccountInfo : Type 0 where
  pub key : ℕ
  pub owner : ℕ
  pub lamports : ℕ
  pub executable : Bool
  pub is_signer : Bool
  pub is_writable : Bool
  pub bytes : List ℕ

pub record AccountMeta : Type 0 where
  pub pubkey : ℕ
  pub is_signer : Bool
  pub is_writable : Bool

pub record Instruction : Type 0 where
  pub program_id : ℕ
  pub accounts : List AccountMeta
  pub payload : List ℕ

-- What the called programs do to the token balances.
abbrev pub Invoke : Type 0
Invoke = Instruction → Table ℕ → Option (Table ℕ)

-- `read_token_amount`, with the error that each caller maps a bad account to.
abbrev pub read_token_amount : Table ℕ → ℕ → VaultFailure → Result VaultFailure ℕ
read_token_amount tokens key e = ok_or (tokens key) e

-- The key of the account at an index; the callers have checked the length.
abbrev pub key_at : List AccountInfo → ℕ → ℕ
key_at accounts i = elim (get_elem? accounts i) [ none ↦ 0 | some a ↦ a.key ]

-- `RemoveLiquidityOutput`.
pub record RemoveLiquidityOutput : Type 0 where
  pub base_received : ℕ
  pub memecoin_received : ℕ

-- `RemoveLiquidityInput`; the bump of the vault authority is not used by this call.
pub record RemoveLiquidityInput : Type 0 where
  pub pool : AccountInfo
  pub amm_program : ℕ
  pub user_lp_token_account : ℕ
  pub user_owner : ℕ
  pub vault_base_token_account : ℕ
  pub vault_memecoin_token_account : ℕ
  pub lp_mint : ℕ
  pub token_program : ℕ
  pub lp_amount : ℕ
  pub base_is_coin_side : Bool
  pub remaining_accounts : List AccountInfo

-- `JupiterSwapInput`.
pub record JupiterSwapInput : Type 0 where
  pub jupiter_program : ℕ
  pub vault_authority : ℕ
  pub destination_token_account : ℕ
  pub route_accounts : List AccountInfo
  pub route_data : List ℕ
