-- ===== src/Scanner/Adapters/RaydiumV4.antt =====
-- programs/grave-scanner/src/adapters/raydium_v4.rs: a pool of the legacy Raydium AMM, read from
-- the pool's account and from the token accounts that it names. A borrow of an account's data
-- does not fail here: nothing else holds one.
use graveyield_protocol.Prelude.{
  ℕ, ◌+◌, ◌≤◌, ◌≡◌, sym, ◌∙◌, leb→le, true, Option, none, some, List, [], ◌∷◌, length, leb, ◌==◌,
  ==→eq, if◌then◌else◌, slice, le_value, key_of_bytes, Member, here, there, Result, ok, ◌>>=◌, ◌>>◌,
  require, Bool-cases, inl, inr, ok_or, bind_ok, require_ok, arith,
}
use mathlib.Core.Path.{subst}
use graveyield_protocol.Vault.Cpi.{AccountInfo}
use graveyield_protocol.Scanner.Errors.{ScannerFailure, program, pool_data_parse_error}
use graveyield_protocol.Scanner.Adapters.{PoolData}

abbrev pub raydium_v4_id : ℕ
raydium_v4_id = 0x4bd949c43602c33f207790ed16a3524ca1b9975cf121a2a90cffec7df8b68acd

abbrev pub spl_token_program_id : ℕ
spl_token_program_id = 0x6ddf6e1d765a193d9cbe146ceeb79ac1cb485ed5f5b37913a8cf5857eff00a9

abbrev pub amm_info_size : ℕ
amm_info_size = 752

abbrev pub token_account_size : ℕ
token_account_size = 165

abbrev pub mint_account_size : ℕ
mint_account_size = 82

abbrev pub coin_vault_offset : ℕ
coin_vault_offset = 336

abbrev pub pc_vault_offset : ℕ
pc_vault_offset = 368

abbrev pub coin_vault_mint_offset : ℕ
coin_vault_mint_offset = 400

abbrev pub pc_vault_mint_offset : ℕ
pc_vault_mint_offset = 432

abbrev pub lp_mint_offset : ℕ
lp_mint_offset = 464

abbrev pub token_account_mint : ℕ
token_account_mint = 0

abbrev pub token_account_amount : ℕ
token_account_amount = 64

abbrev pub mint_supply : ℕ
mint_supply = 36

unfoldable pub read_pubkey : List ℕ → ℕ → Result ScannerFailure ℕ
read_pubkey d offset = do
  require (leb (offset + 32) (length d)) (program pool_data_parse_error)
  ok (key_of_bytes (slice d offset 32))

unfoldable pub read_u64_le : List ℕ → ℕ → Result ScannerFailure ℕ
read_u64_le d offset = do
  require (leb (offset + 8) (length d)) (program pool_data_parse_error)
  ok (le_value (slice d offset 8))

-- `remaining_accounts.iter().find(|i| i.key == key)`.
abbrev pub find_key : List AccountInfo → ℕ → Option AccountInfo
find_key [] key = none
find_key (a ∷ rest) key = if a.key == key then some a else find_key rest key

abbrev pub find_account : List AccountInfo → ℕ → Result ScannerFailure AccountInfo
find_account accounts key = ok_or (find_key accounts key) (program pool_data_parse_error)

-- The mint and the amount of a token account.
unfoldable pub read_token_account : AccountInfo → Result ScannerFailure (ℕ × ℕ)
unfolding read_pubkey read_u64_le
read_token_account a = do
  require (leb token_account_size (length a.bytes)) (program pool_data_parse_error)
  mint ← read_pubkey a.bytes token_account_mint
  amount ← read_u64_le a.bytes token_account_amount
  ok (mint, amount)

unfoldable pub raydium_v4_parse : AccountInfo → List AccountInfo → Result ScannerFailure PoolData
unfolding read_pubkey read_u64_le read_token_account
raydium_v4_parse pool remaining = do
  require (length pool.bytes == amm_info_size) (program pool_data_parse_error)
  coin_vault ← read_pubkey pool.bytes coin_vault_offset
  pc_vault ← read_pubkey pool.bytes pc_vault_offset
  coin_vault_mint ← read_pubkey pool.bytes coin_vault_mint_offset
  pc_vault_mint ← read_pubkey pool.bytes pc_vault_mint_offset
  lp_mint ← read_pubkey pool.bytes lp_mint_offset
  coin_vault_info ← find_account remaining coin_vault
  pc_vault_info ← find_account remaining pc_vault
  lp_mint_info ← find_account remaining lp_mint
  require (coin_vault_info.owner == spl_token_program_id) (program pool_data_parse_error)
  require (pc_vault_info.owner == spl_token_program_id) (program pool_data_parse_error)
  require (lp_mint_info.owner == spl_token_program_id) (program pool_data_parse_error)
  coin ← read_token_account coin_vault_info
  pc ← read_token_account pc_vault_info
  require (leb mint_account_size (length lp_mint_info.bytes)) (program pool_data_parse_error)
  lp_supply ← read_u64_le lp_mint_info.bytes mint_supply
  require (coin.0 == coin_vault_mint) (program pool_data_parse_error)
  require (pc.0 == pc_vault_mint) (program pool_data_parse_error)
  ok (record {
    base_reserve = coin.1;
    quote_reserve = pc.1;
    lp_supply = lp_supply;
    base_mint = coin_vault_mint;
    quote_mint = pc_vault_mint;
    lp_mint = lp_mint;
  })

-- A token account at a key, among the submitted ones: who holds it does not matter, its program,
-- its mint and its amount do.
pub record Holds (accounts : List AccountInfo) (key mint amount : ℕ) : Type 0 where
  pub account : AccountInfo
  pub submitted : Member account accounts
  pub key_matches : account.key ≡ key
  pub of_token_program : account.owner ≡ spl_token_program_id
  pub size : token_account_size ≤ length account.bytes
  pub mint_matches : key_of_bytes (slice account.bytes 0 32) ≡ mint
  pub amount_matches : le_value (slice account.bytes 64 8) ≡ amount

-- A mint at a key, among the submitted accounts, with its supply.
pub record Issued (accounts : List AccountInfo) (key supply : ℕ) : Type 0 where
  pub account : AccountInfo
  pub submitted : Member account accounts
  pub key_matches : account.key ≡ key
  pub of_token_program : account.owner ≡ spl_token_program_id
  pub size : mint_account_size ≤ length account.bytes
  pub supply_matches : le_value (slice account.bytes 36 8) ≡ supply

-- Pool data that the submitted token accounts back, at the keys that the pool's account names.
pub record IsBacked (pool : AccountInfo) (accounts : List AccountInfo) (d : PoolData) : Type 0 where
  pub pool_size : length pool.bytes ≡ amm_info_size
  pub base_mint : d.base_mint ≡ key_of_bytes (slice pool.bytes 400 32)
  pub quote_mint : d.quote_mint ≡ key_of_bytes (slice pool.bytes 432 32)
  pub lp_mint : d.lp_mint ≡ key_of_bytes (slice pool.bytes 464 32)
  pub base : Holds accounts (key_of_bytes (slice pool.bytes 336 32)) d.base_mint d.base_reserve
  pub quote : Holds accounts (key_of_bytes (slice pool.bytes 368 32)) d.quote_mint d.quote_reserve
  pub lp : Issued accounts d.lp_mint d.lp_supply

find_key-Member :
    (accounts : List AccountInfo) (key : ℕ) (a : AccountInfo)
    → find_key accounts key ≡ some a
    → Member a accounts × (a.key ≡ key)
find_key-Member [] key a h = absurd (cc)
find_key-Member (x ∷ rest) key a h = elim (Bool-cases (x.key == key)) [
  | inl e ↦
      let same : x ≡ a = ground (arith, e, h) in
      (subst (λ y. Member y (x ∷ rest)) same (here rest), ground (arith, e, same))
  | inr e ↦
      let later : find_key rest key ≡ some a = ground (arith, e, h) in
      let (member, matches) = find_key-Member rest key a later in (there x member, matches)
]

find_account-Member :
    (accounts : List AccountInfo) (key : ℕ) (a : AccountInfo)
    → find_account accounts key ≡ ok a
    → Member a accounts × (a.key ≡ key)
find_account-Member accounts key a h = find_key-Member accounts key a (ground arith)

-- What the two readers gave.
read_pubkey-value :
    (d : List ℕ) (offset key : ℕ)
    → read_pubkey d offset ≡ ok key
    → key ≡ key_of_bytes (slice d offset 32)
unfolding read_pubkey
read_pubkey-value d offset key h = require_ok (leb (offset + 32) (length d)) _ _ h λ _ e. cc

read_u64_le-value :
    (d : List ℕ) (offset n : ℕ) → read_u64_le d offset ≡ ok n → n ≡ le_value (slice d offset 8)
unfolding read_u64_le
read_u64_le-value d offset n h = require_ok (leb (offset + 8) (length d)) _ _ h λ _ e. cc

read_token_account-Holds :
    (accounts : List AccountInfo) (key mint : ℕ) (a : AccountInfo) (r : ℕ × ℕ)
    → find_account accounts key ≡ ok a
    → (a.owner == spl_token_program_id) ≡ true
    → read_token_account a ≡ ok r
    → (r.0 == mint) ≡ true
    → Holds accounts key mint r.1
unfolding read_token_account
read_token_account-Holds accounts key mint a r found owned h same =
    require_ok (leb token_account_size (length a.bytes)) _ _ h λ size h1.
      bind_ok (read_pubkey a.bytes token_account_mint) _ h1 λ m fm h2.
        bind_ok (read_u64_le a.bytes token_account_amount) _ h2 λ n fn h3.
          let em : m ≡ r.0 = cc in
          let en : n ≡ r.1 = cc in
          let (member, matches) = find_account-Member accounts key a found in
          record {
            account = a;
            submitted = member;
            key_matches = matches;
            of_token_program = ==→eq _ _ owned;
            size = leb→le _ _ size;
            mint_matches = sym (read_pubkey-value a.bytes 0 m fm) ∙ em ∙ ==→eq _ _ same;
            amount_matches = sym (read_u64_le-value a.bytes 64 n fn) ∙ en;
          }

pub raydium_v4_parse-IsBacked :
    (pool : AccountInfo) (accounts : List AccountInfo) (d : PoolData)
    → raydium_v4_parse pool accounts ≡ ok d
    → IsBacked pool accounts d
unfolding raydium_v4_parse
raydium_v4_parse-IsBacked pool accounts d h =
    require_ok (length pool.bytes == amm_info_size) _ _ h λ size h1.
      bind_ok (read_pubkey pool.bytes coin_vault_offset) _ h1 λ cv f1 h2.
        bind_ok (read_pubkey pool.bytes pc_vault_offset) _ h2 λ pv f2 h3.
          bind_ok (read_pubkey pool.bytes coin_vault_mint_offset) _ h3 λ cm f3 h4.
            bind_ok (read_pubkey pool.bytes pc_vault_mint_offset) _ h4 λ pm f4 h5.
              bind_ok (read_pubkey pool.bytes lp_mint_offset) _ h5 λ lm f5 h6.
                bind_ok (find_account accounts cv) _ h6 λ ca f6 h7.
                  bind_ok (find_account accounts pv) _ h7 λ pa f7 h8.
                    bind_ok (find_account accounts lm) _ h8 λ la f8 h9.
                      require_ok (ca.owner == spl_token_program_id) _ _ h9 λ o1 h10.
                        require_ok (pa.owner == spl_token_program_id) _ _ h10 λ o2 h11.
                          require_ok (la.owner == spl_token_program_id) _ _ h11 λ o3 h12.
                            bind_ok (read_token_account ca) _ h12 λ coin f9 h13.
                              bind_ok (read_token_account pa) _ h13 λ pc f10 h14.
                                require_ok (leb mint_account_size (length la.bytes)) _ _ h14
                                  λ room h15.
                                    bind_ok (read_u64_le la.bytes mint_supply) _ h15
                                      λ supply f11 h16. require_ok (coin.0 == cm) _ _ h16 λ e1 h17.
                                        require_ok (pc.0 == pm) _ _ h17 λ e2 h18.
                                          let made : Path PoolData
                                              (record {
                                                base_reserve = coin.1;
                                                quote_reserve = pc.1;
                                                lp_supply = supply;
                                                base_mint = cm;
                                                quote_mint = pm;
                                                lp_mint = lm;
                                              })
                                              d =
                                            cc in
                                          let (member, matches) =
                                            find_account-Member accounts lm la f8 in
                                          subst (IsBacked pool accounts) made (record {
                                            pool_size = ==→eq _ _ size;
                                            base_mint = read_pubkey-value pool.bytes 400 cm f3;
                                            quote_mint = read_pubkey-value pool.bytes 432 pm f4;
                                            lp_mint = read_pubkey-value pool.bytes 464 lm f5;
                                            base = rw (← read_pubkey-value pool.bytes 336 cv f1) (
                                                read_token_account-Holds accounts cv cm ca coin f6
                                                  o1 f9 e1);
                                            quote = rw (← read_pubkey-value pool.bytes 368 pv f2) (
                                                read_token_account-Holds accounts pv pm pa pc f7 o2
                                                  f10 e2);
                                            lp = record {
                                              account = la;
                                              submitted = member;
                                              key_matches = matches;
                                              of_token_program = ==→eq _ _ o3;
                                              size = leb→le _ _ room;
                                              supply_matches =
                                                  sym (read_u64_le-value la.bytes 36 supply f11);
                                            };
                                          })
