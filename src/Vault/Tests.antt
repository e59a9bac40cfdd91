-- ===== src/Vault/Tests.antt =====
-- A small chain on which the vault runs: one pool, two LP holders, a venue for both calls.
use graveyield_protocol.Prelude.{
  length, ℕ, ◌+◌, ◌%◌, ◌^◌, ◌≡◌, refl, pos, true, false, Option, none, some, List, [], ◌∷◌, ◌++◌,
  ◌==◌, if◌then◌else◌, replicate, empty_table, put, remove, ok, commit,
}
use graveyield_protocol.Scanner.State.{EligibilityCert, is_expired}
use graveyield_protocol.Vault.Constants.{
  wsol_mint, raydium_v4_program_id, raydium_v4_amm_authority, jupiter_v6_program_id,
}
use graveyield_protocol.Vault.State.{ProtocolConfig, Clock, Vault}
use graveyield_protocol.Vault.Merkle.{Hash, compute_leaf, fold_sibling, verify_proof}
use graveyield_protocol.Vault.Claim.{
  ClaimLpProceedsParams, claim_lp_proceeds, claim_checks, claim_amount, pay_holder,
}
use graveyield_protocol.Vault.Dust.{Platform, SweepDust, SweepDustParams, sweep_dust}
use graveyield_protocol.Vault.Config.{InitializeParams, initialize}
use graveyield_protocol.Vault.Cpi.{AccountInfo, Invoke}
use graveyield_protocol.Vault.Salvage.Accounts.{SalvagePool, SalvagePoolParams, Runtime}
use graveyield_protocol.Vault.Salvage.Preflight.{preflight, pool_orientation, submission_checks}
use graveyield_protocol.Vault.Salvage.Swap.{swap_leg}
use graveyield_protocol.Vault.Salvage.Handler.{
  salvage_constraints, prepared, redeem, settle, salvage_pool,
}
use graveyield_protocol.Prelude.Bytes.{key_bytes, key_of_bytes, le_value}
use graveyield_protocol.Vault.Proceeds.{minimum_floor, effective_slippage_cap_bps, split_proceeds}
use graveyield_protocol.Vault.Cpi.Jupiter.{swap}
use graveyield_protocol.Vault.Salvage.Settlement.{share_checks, distribute}
use graveyield_protocol.Vault.Cpi.Raydium.{dispatch_remove_liquidity}

abbrev pub toy_hash : Hash
toy_hash xs = le_value xs % 256 ^ 32

abbrev pub the_pool : ℕ
the_pool = 500

abbrev pub info : ℕ → List ℕ → AccountInfo
info key bytes = record {
  key = key;
  owner = raydium_v4_program_id;
  lamports = 1;
  executable = true;
  is_signer = false;
  is_writable = true;
  bytes = bytes;
}

-- WSOL on the coin side, memecoin 77 and LP mint 78 at their offsets.
abbrev pub pool_bytes : List ℕ
pool_bytes =
    replicate 400 0 ++ key_bytes wsol_mint ++ key_bytes 77 ++ key_bytes 78 ++ replicate 256 0

abbrev pub thirteen_and_route : List AccountInfo
thirteen_and_route =
    info raydium_v4_amm_authority []
    ∷ info 31 []
    ∷ info 32 []
    ∷ info 33 []
    ∷ info 34 []
    ∷ info 35 []
    ∷ info 36 []
    ∷ info 37 []
    ∷ info 38 []
    ∷ info 39 []
    ∷ info 40 []
    ∷ info 41 []
    ∷ info 42 []
    ∷ info 21 []
    ∷ []

abbrev pub accounts : SalvagePool
accounts = record {
  protocol_config = 1;
  eligibility_cert = 2;
  pool_registry = 3;
  salvage_receipt = 4;
  lp_holder_pool_vault = 5;
  protocol_treasury = 6;
  salvor = 7;
  pool = info the_pool pool_bytes;
  amm_program = info raydium_v4_program_id [];
  jupiter_program = jupiter_v6_program_id;
  vault_authority = 8;
  vault_sol_holding_account = 9;
  salvor_lp_token_account = 20;
  vault_base_token_account = 21;
  vault_memecoin_token_account = 22;
  lp_mint = 78;
  lp_mint_supply = 100;
  memecoin_mint = 77;
  token_program = 60;
  remaining_accounts = thirteen_and_route;
  registry_bump = 255;
  receipt_bump = 254;
}

abbrev pub toy_root : ℕ
toy_root = fold_sibling toy_hash (compute_leaf toy_hash 11 30) (compute_leaf toy_hash 12 70)

abbrev pub salvage_params : SalvagePoolParams
salvage_params = record {
  amm_program_id = raydium_v4_program_id;
  pool_address = the_pool;
  lp_snapshot_merkle_root = toy_root;
  lp_total_supply_at_snapshot = 100;
  min_quote_output_lamports = 490;
  salvor_lp_amount = 50;
  jupiter_route_data = 1 ∷ [];
  max_slippage_bps_override = none;
  jupiter_route_accounts_len = 1;
}

-- The withdraw pays 1,000,000 and 5,000,000; the swap turns the memecoin but 10 into 495.
abbrev pub venue : Invoke
venue i tokens =
    if i.program_id == raydium_v4_program_id
    then some (put (put tokens 21 1000000) 22 5000000)
    else (if i.program_id == jupiter_v6_program_id
        then some (put (put tokens 21 1000495) 22 10)
        else some (remove tokens 22))

abbrev pub clock : Clock
clock = record { slot = 9; epoch = 8; unix_timestamp = pos 1000 }

abbrev pub runtime_of_test : Runtime
runtime_of_test = record {
  clock = clock;
  minimum_balance = 890880;
  close_account =
      λ account destination authority tokens. some (remove tokens account, 1000495 + 2039280);
}

abbrev pub cert : EligibilityCert
cert = record {
  amm_program_id = raydium_v4_program_id;
  pool_address = the_pool;
  writer = 70;
  anchor_epoch = 1;
  cert_epoch = 3;
  issued_at = pos 900;
  expires_at = pos 2000;
  criteria_bitmap = 63;
  reissue_generation = 0;
  bump = 253;
}

abbrev pub certs : ℕ → ℕ → Option EligibilityCert
certs amm pool = if pool == the_pool then some cert else none

abbrev pub genesis : Vault
genesis = record {
  config = none;
  registries = empty_table;
  receipts = empty_table;
  claims = [];
  lp_holder_pool = λ q. 0;
  sol_holding = λ q. 0;
  treasury = 0;
  wallets = λ k. if k == 7 then 10000000 else 50;
  tokens = put (put empty_table 33 1000000) 34 10000000000;
}

abbrev pub init_params : InitializeParams
init_params = record {
  authority = 50;
  lp_holder_share_bps = 0;
  salvor_share_bps = 0;
  protocol_share_bps = 0;
  max_priority_fee_ceiling_lamports = 0;
  max_slippage_bps = 0;
  jupiter_dust_threshold_lamports = 0;
  timelock_seconds = pos 0;
}

abbrev pub config : ProtocolConfig
config = record {
  authority = 50;
  pending_authority = 0;
  pending_authority_eta = pos 0;
  lp_holder_share_bps = 4000;
  salvor_share_bps = 4000;
  protocol_share_bps = 2000;
  max_priority_fee_ceiling_lamports = 1000000000;
  max_slippage_bps = 300;
  jupiter_dust_threshold_lamports = 666666;
  timelock_seconds = pos 259200;
  emergency_paused = false;
  bump = 251;
}

pub initialize_test : initialize 251 init_params none ≡ ok config
unfolding initialize
initialize_test = refl

abbrev pub configured : Vault
configured = record genesis { config = some config }

abbrev pub salvaged : Vault
salvaged =
    commit configured (salvage_pool venue runtime_of_test certs accounts salvage_params configured)

pub salvage_test :
    salvage_pool venue runtime_of_test certs accounts salvage_params configured ≡ ok salvaged
unfolding salvage_pool preflight salvage_constraints prepared redeem pool_orientation
    submission_checks dispatch_remove_liquidity swap_leg settle is_expired key_bytes key_of_bytes
    minimum_floor effective_slippage_cap_bps swap share_checks split_proceeds distribute
salvage_test = refl

abbrev pub claim_params : ℕ → ℕ → ℕ → ClaimLpProceedsParams
claim_params balance sibling_holder sibling_balance = record {
  pool_address = the_pool;
  lp_balance_at_snapshot = balance;
  merkle_proof = compute_leaf toy_hash sibling_holder sibling_balance ∷ [];
}

abbrev pub claimed : Vault
claimed = commit salvaged (claim_lp_proceeds toy_hash clock 250 11 (claim_params 30 12 70) salvaged)

pub claim_test :
    claim_lp_proceeds toy_hash clock 250 11 (claim_params 30 12 70) salvaged ≡ ok claimed
unfolding claim_lp_proceeds claim_checks claim_amount pay_holder verify_proof compute_leaf
    fold_sibling le_value salvage_pool preflight salvage_constraints prepared redeem
    pool_orientation submission_checks dispatch_remove_liquidity swap_leg settle is_expired
    key_bytes key_of_bytes minimum_floor effective_slippage_cap_bps swap share_checks split_proceeds
    distribute
claim_test = refl

-- The vault's authority and its token account, and the treasury and its.
abbrev derive : List (List ℕ) → ℕ → ℕ
derive [] id = 0
derive (seed ∷ rest) id = if length seed == 15 then 8 else 6

abbrev pub platform : Platform
platform = record {
  ata = λ owner mint. if owner == 8 then 22 else 23;
  find_program_address = derive;
  token_program_id = 60;
}

abbrev pub sweep_accounts : SweepDust
sweep_accounts = record {
  vault_authority = 8;
  protocol_treasury = 6;
  vault_memecoin_token_account = 22;
  protocol_treasury_token_account = 23;
  memecoin_mint = 77;
  sweeper = 90;
  token_program = 60;
}

abbrev pub sweep_params : SweepDustParams
sweep_params = record { pool_address = the_pool }

abbrev pub swept : Vault
swept = commit salvaged (sweep_dust venue platform clock sweep_accounts sweep_params salvaged)

pub sweep_test : sweep_dust venue platform clock sweep_accounts sweep_params salvaged ≡ ok swept
unfolding sweep_dust salvage_pool preflight salvage_constraints prepared redeem pool_orientation
    submission_checks dispatch_remove_liquidity swap_leg settle is_expired key_bytes key_of_bytes
    minimum_floor effective_slippage_cap_bps swap share_checks split_proceeds distribute
sweep_test = refl
