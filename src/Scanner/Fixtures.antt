-- ===== src/Scanner/Fixtures.antt =====
-- Concrete accounts and instructions for the scanner's tests: a pool of the legacy Raydium AMM,
-- its token accounts, the missing marker of the locker, and an attestation of its last swap.
use graveyield_protocol.Prelude.{
  ℕ, ◌+◌, ◌*◌, List, [], ◌∷◌, ◌++◌, length, replicate, none, some, false, pos, if◌then◌else◌, ◌==◌,
  le_bytes, key_bytes, key_of_bytes,
}
use graveyield_protocol.Vault.State.{Clock}
use graveyield_protocol.Vault.Cpi.{AccountInfo}
use graveyield_protocol.Scanner.State.{ProtocolConfig, LaunchPrice}
use graveyield_protocol.Scanner.Attestation.{TransactionInstruction, Sysvars}
use graveyield_protocol.Scanner.Attestation.SlotHashes.{encode_slot_hashes}
use graveyield_protocol.Scanner.Attestation.LaunchPrices.{RecordLaunchPriceParams}
use graveyield_protocol.Scanner.Attestation.Honest.{precompile_of, last_swap_message}
use graveyield_protocol.Scanner.Adapters.{PoolData}
use graveyield_protocol.Scanner.Adapters.RaydiumV4.{raydium_v4_id, spl_token_program_id}
use graveyield_protocol.Scanner.Adapters.Locker.{FindProgramAddress, uncx_program_id}
use graveyield_protocol.Scanner.Pools.{Evidence}

-- An address for each pair of seeds.
abbrev pub pda : FindProgramAddress
pda [] p = 0
pda (a ∷ []) p = 0
pda (a ∷ b ∷ rest) p = length a * 1000 + key_of_bytes b

abbrev pub account : (key owner lamports : ℕ) → List ℕ → AccountInfo
account key owner lamports bytes = record {
  key = key;
  owner = owner;
  lamports = lamports;
  executable = false;
  is_signer = false;
  is_writable = false;
  bytes = bytes;
}

abbrev pub pool_account : AccountInfo
pool_account = account 2 raydium_v4_id 1 (
    replicate 336 0
    ++ (key_bytes 301
        ++ (key_bytes 302
            ++ (key_bytes 77 ++ (key_bytes 88 ++ (key_bytes 78 ++ replicate 256 0))))))

abbrev token_account : (key mint amount : ℕ) → AccountInfo
token_account key mint amount =
    account key spl_token_program_id 1
      (key_bytes mint ++ (replicate 32 0 ++ (le_bytes 8 amount ++ replicate 93 0)))

abbrev lp_mint_account : AccountInfo
lp_mint_account =
    account 78 spl_token_program_id 1 (replicate 36 0 ++ (le_bytes 8 5000 ++ replicate 38 0))

-- The marker's address, where nothing is.
abbrev no_marker : AccountInfo
no_marker = account 17002 0 0 []

abbrev pub pool_accounts : List AccountInfo
pool_accounts =
    token_account 302 88 600000000
    ∷ token_account 301 77 100000000000
    ∷ lp_mint_account
    ∷ no_marker
    ∷ []

-- The marker with its lock of 40 LP, of id 6.
abbrev pub lock_accounts : List AccountInfo
lock_accounts =
    account 17002 uncx_program_id 1 (le_bytes 8 0xb27b7e4ae288d5c2 ++ (255 ∷ []))
    ∷ account (11000 + key_of_bytes (le_bytes 8 6)) uncx_program_id 1 (
        le_bytes 8 0xee5d2c9af190e449
        ++ (255
            ∷ (key_bytes 2
                ++ (key_bytes 78
                    ++ (le_bytes 8 6 ++ (replicate 25 0 ++ (le_bytes 8 40 ++ key_bytes 5)))))))
    ∷ []

abbrev pub message : List ℕ
message = last_swap_message 1 2 1000 5 123

abbrev pub scanner_ix : TransactionInstruction
scanner_ix = record { program_id = 7; payload = replicate 72 0 ++ message }

abbrev pub precompile_ix : TransactionInstruction
precompile_ix = precompile_of 1 72 112 50 (replicate 64 7)

abbrev pub two_instructions : TransactionInstruction → TransactionInstruction → List ℕ → Sysvars
two_instructions first second hashes = record {
  load_current_index_checked = some 1;
  load_instruction_at_checked =
      λ i. if i == 0 then some first else (if i == 1 then some second else none);
  slot_hashes_data = some hashes;
}

abbrev pub entries : List (ℕ × ℕ)
entries = (6, 122) ∷ (5, 123) ∷ []

abbrev pub sysvars : Sysvars
sysvars = two_instructions precompile_ix scanner_ix (encode_slot_hashes entries)

abbrev pub evidence : Evidence
evidence = record {
  sysvars = sysvars;
  msg = message;
  pool_account = pool_account;
  remaining_accounts = pool_accounts;
}

abbrev pub pool_data : PoolData
pool_data = record {
  base_reserve = 100000000000;
  quote_reserve = 600000000;
  lp_supply = 5000;
  base_mint = 77;
  quote_mint = 88;
  lp_mint = 78;
}

abbrev pub at_epoch : ℕ → Clock
at_epoch e = record { slot = e; epoch = e; unix_timestamp = pos 10000000 }

-- A launch price of 2^64, at a first swap in slot 1 at time 100.
abbrev pub launch_message : List ℕ
launch_message =
    key_bytes 1
    ++ (key_bytes 2
        ++ (key_bytes 77
            ++ (key_bytes 88
                ++ (le_bytes 8 1
                    ++ (le_bytes 8 100 ++ (le_bytes 16 18446744073709551616 ++ le_bytes 8 3))))))

abbrev pub launch_params : RecordLaunchPriceParams
launch_params = record {
  amm_program_id = 1;
  pool_address = 2;
  base_mint = 77;
  quote_mint = 88;
  launch_price_q64x64 = 18446744073709551616;
  msg = launch_message;
}

abbrev pub launch_sysvars : Sysvars
launch_sysvars =
    two_instructions (precompile_of 1 152 168 50 (replicate 64 9))
      (record { program_id = 7; payload = replicate 152 0 ++ launch_message }) []

abbrev pub config : ProtocolConfig
config = record {
  authority = 50;
  pending_authority = 0;
  pending_authority_eta = pos 0;
  inactivity_seconds = 7776000;
  price_collapse_bps = 9900;
  min_tvl_lamports = 500000000;
  anchor_staleness_seconds = 1209600;
  lp_burn_dust_threshold = 1000;
  cert_ttl_seconds = pos 3600;
  paused = false;
  activity_oracle = 50;
  launch_price_oracle = 50;
  bump = 255;
}

abbrev pub recorded : LaunchPrice
recorded = record {
  amm_program_id = 1;
  pool_address = 2;
  base_mint = 77;
  quote_mint = 88;
  launch_price_q64x64 = 18446744073709551616;
  first_swap_slot = 1;
  first_swap_unix_ts = pos 100;
  recorded_slot = 5;
  recorded_at = pos 10000000;
  bump = 255;
}
