-- ===== src/Vault/Witnesses.antt =====
-- The vault's theorems applied to the small chain of Vault/Tests.
use graveyield_protocol.Prelude.{
  ℕ, ◌+◌, ◌-◌, ◌^◌, ◌<◌, ◌≡◌, ◌≢◌, ◌⊎◌, refl, pos, true, false, some, List, [], ◌∷◌, ◌++◌, reverse,
  arith, All, ok,
}
use graveyield_protocol.Prelude.Bytes.{key_bytes, le_bytes, key_of_bytes, le_value}
use graveyield_protocol.Scanner.State.{is_expired}
use graveyield_protocol.Vault.Constants.{raydium_v4_program_id}
use graveyield_protocol.Vault.State.{PoolRegistry, Vault, claimed_already}
use graveyield_protocol.Vault.Merkle.{compute_leaf, fold_sibling, verify_proof}
use graveyield_protocol.Vault.Merkle.Soundness.{
  Tree, entry, node, Entry, Clash, root, verify_proof_sound,
}
use graveyield_protocol.Vault.Config.{initialize}
use graveyield_protocol.Vault.Claim.{
  ClaimLpProceedsParams, claim_lp_proceeds, claim_checks, claim_amount, pay_holder,
}
use graveyield_protocol.Vault.Claim.Conservation.{Claimed, claim-Claimed}
use graveyield_protocol.Vault.Claim.Fairness.{
  Claimant, run_claims, shares, Entitled, AllPaid, DistinctHolders, run_claims-AllPaid,
}
use graveyield_protocol.Vault.Proceeds.{minimum_floor, effective_slippage_cap_bps, split_proceeds}
use graveyield_protocol.Vault.Cpi.Jupiter.{swap}
use graveyield_protocol.Vault.Cpi.Raydium.{dispatch_remove_liquidity}
use graveyield_protocol.Vault.Salvage.Preflight.{preflight, pool_orientation, submission_checks}
use graveyield_protocol.Vault.Salvage.Swap.{swap_leg}
use graveyield_protocol.Vault.Salvage.Settlement.{share_checks, distribute, new_registry}
use graveyield_protocol.Vault.Salvage.Handler.{
  salvage_constraints, prepared, redeem, settle, salvage_pool,
}
use graveyield_protocol.Vault.Salvage.Conservation.{Salvaged, salvage-Salvaged}
use graveyield_protocol.Vault.Lifecycle.{
  initialize_protocol, salvage, claim, process, Step, instruction, Steps, stay, then_step,
  IsGenesis,
}
use graveyield_protocol.Vault.Lifecycle.Invariant.{IsSafe, Steps-IsSafe}
use graveyield_protocol.Vault.Lifecycle.Custody.{
  lp_holder_pool_unsweepable_lem, salvaged_for_good, claimed_for_good,
}
use graveyield_protocol.Vault.Lifecycle.Payout.{settled_holders-AllPaid}
use graveyield_protocol.Vault.Tests.{
  toy_hash, the_pool, accounts, salvage_params, venue, clock, runtime_of_test, certs, genesis,
  init_params, configured, salvaged, salvage_test, claim_params, claimed, claim_test,
}

genesis-IsGenesis : IsGenesis genesis
genesis-IsGenesis = record {
  config = refl;
  registries = λ q. refl;
  receipts = λ q. refl;
  claims = refl;
}

initialize-Step : Step toy_hash genesis configured
unfolding process initialize
initialize-Step = instruction (initialize_protocol 251 init_params) refl

salvage-Step : Step toy_hash configured salvaged
unfolding process
salvage-Step =
    instruction (salvage venue runtime_of_test certs accounts salvage_params) salvage_test

claim-Step : Step toy_hash salvaged claimed
unfolding process
claim-Step = instruction (claim clock 250 11 (claim_params 30 12 70)) claim_test

run_to_claimed : Steps toy_hash genesis claimed
run_to_claimed =
    then_step (then_step (then_step (stay genesis) initialize-Step) salvage-Step) claim-Step

Steps-IsSafe_example : IsSafe claimed
Steps-IsSafe_example = Steps-IsSafe toy_hash genesis claimed genesis-IsGenesis run_to_claimed

pool_before : salvaged.lp_holder_pool the_pool ≡ 890880 + 400198
unfolding salvage_pool preflight salvage_constraints prepared redeem pool_orientation
    submission_checks dispatch_remove_liquidity swap_leg settle is_expired key_bytes key_of_bytes
    minimum_floor effective_slippage_cap_bps swap share_checks split_proceeds distribute
pool_before = refl

first_wallet : salvaged.wallets 12 ≡ 50
unfolding salvage_pool preflight salvage_constraints prepared redeem pool_orientation
    submission_checks dispatch_remove_liquidity swap_leg settle is_expired key_bytes key_of_bytes
    minimum_floor effective_slippage_cap_bps swap share_checks split_proceeds distribute
first_wallet = refl

second_wallet : salvaged.wallets 11 ≡ 50
unfolding salvage_pool preflight salvage_constraints prepared redeem pool_orientation
    submission_checks dispatch_remove_liquidity swap_leg settle is_expired key_bytes key_of_bytes
    minimum_floor effective_slippage_cap_bps swap share_checks split_proceeds distribute
second_wallet = refl

pool_after : claimed.lp_holder_pool the_pool ≡ 890880 + 400198 - 120059
unfolding claim_lp_proceeds claim_checks claim_amount pay_holder verify_proof compute_leaf
    fold_sibling le_value salvage_pool preflight salvage_constraints prepared redeem
    pool_orientation submission_checks dispatch_remove_liquidity swap_leg settle is_expired
    key_bytes key_of_bytes minimum_floor effective_slippage_cap_bps swap share_checks split_proceeds
    distribute
pool_after = refl

shrunk : claimed.lp_holder_pool the_pool < salvaged.lp_holder_pool the_pool
shrunk = rw (pool_before, pool_after) (omega arith)

lp_holder_pool_unsweepable_lem_example :
    (holder : ℕ) × (p : ClaimLpProceedsParams) × (c : Claimed toy_hash holder p salvaged claimed)
    × (p.pool_address ≡ the_pool)
    × (claimed.lp_holder_pool the_pool + c.amount ≡ salvaged.lp_holder_pool the_pool)
lp_holder_pool_unsweepable_lem_example =
    lp_holder_pool_unsweepable_lem toy_hash salvaged claimed the_pool claim-Step shrunk

salvage-Salvaged_example :
    Salvaged venue runtime_of_test certs accounts salvage_params configured salvaged
salvage-Salvaged_example =
    salvage-Salvaged venue runtime_of_test certs accounts salvage_params configured salvaged
      salvage_test

salvaged_for_good_example :
    (salvage_pool venue runtime_of_test certs accounts salvage_params claimed ≢ ok claimed)
    × (r : PoolRegistry) × (claimed.registries the_pool ≡ some r)
    × (r.lp_snapshot_merkle_root ≡ salvage_params.lp_snapshot_merkle_root)
    × (r.lp_total_supply_at_snapshot ≡ 100)
    × (r.salvor ≡ 7)
salvaged_for_good_example =
    salvaged_for_good toy_hash venue venue runtime_of_test runtime_of_test certs certs accounts
      accounts salvage_params salvage_params configured salvaged claimed claimed salvage_test
      (then_step (stay salvaged) claim-Step) refl

claimed_for_good_example :
    claim_lp_proceeds toy_hash clock 250 11 (claim_params 30 12 70) claimed ≢ ok claimed
claimed_for_good_example =
    claimed_for_good toy_hash toy_hash clock clock 250 250 11 (claim_params 30 12 70)
      (claim_params 30 12 70) salvaged claimed claimed claimed claim_test (stay claimed) refl

claim-Claimed_example : Claimed toy_hash 11 (claim_params 30 12 70) salvaged claimed
claim-Claimed_example =
    claim-Claimed toy_hash clock 250 11 (claim_params 30 12 70) salvaged claimed claim_test

abbrev registry : PoolRegistry
registry = record {
  amm_program_id = raydium_v4_program_id;
  pool_address = the_pool;
  salvor = 7;
  lp_snapshot_merkle_root = salvage_params.lp_snapshot_merkle_root;
  lp_total_supply_at_snapshot = 100;
  lp_holder_pool_total_lamports = 400198;
  lp_holder_pool_claimed_lamports = 0;
  salvaged_at_slot = 9;
  salvaged_at_ts = pos 1000;
  bump = 255;
}

registry_found : salvaged.registries the_pool ≡ some registry
unfolding new_registry salvage_pool preflight salvage_constraints prepared redeem pool_orientation
    submission_checks dispatch_remove_liquidity swap_leg settle is_expired key_bytes key_of_bytes
    minimum_floor effective_slippage_cap_bps swap share_checks split_proceeds distribute
registry_found = refl

unclaimed : (h : ℕ) → claimed_already the_pool h salvaged.claims ≡ false
unfolding salvage_pool preflight salvage_constraints prepared redeem pool_orientation
    submission_checks dispatch_remove_liquidity swap_leg settle is_expired key_bytes key_of_bytes
    minimum_floor effective_slippage_cap_bps swap share_checks split_proceeds distribute
unclaimed h = refl

abbrev claimants : List Claimant
claimants = (12, claim_params 70 11 30) ∷ (11, claim_params 30 12 70) ∷ []

claimants-Entitled : All (Entitled toy_hash the_pool 3 registry salvaged) claimants
unfolding verify_proof compute_leaf fold_sibling le_value key_bytes
claimants-Entitled = (
  (refl, omega arith, refl, unclaimed 12, rw first_wallet (omega arith)),
  ((refl, omega arith, refl, unclaimed 11, rw second_wallet (omega arith)), tt),
)

claimants_distinct : DistinctHolders claimants
claimants_distinct = ((λ e. omega (arith, e), tt), (tt, tt))

run_claims-AllPaid_example :
    (w : Vault) × (run_claims toy_hash clock 250 3 claimants salvaged ≡ ok w)
    × AllPaid 3 registry salvaged w claimants
    × (w.registries the_pool
        ≡ some (record registry { lp_holder_pool_claimed_lamports = shares registry claimants }))
    × (w.lp_holder_pool the_pool + shares registry claimants ≡ salvaged.lp_holder_pool the_pool)
run_claims-AllPaid_example =
    run_claims-AllPaid toy_hash clock 250 3 the_pool registry salvaged claimants registry_found refl
      (rw pool_before (omega arith)) (omega arith) (omega arith) (omega arith) claimants-Entitled
      claimants_distinct (omega arith)

abbrev two_holders : Tree
two_holders = node (entry 11 30) (entry 12 70)

toy_hash_bounded : (xs : List ℕ) → toy_hash xs < 256 ^ 32
toy_hash_bounded xs = omega arith

leaf_bounded : compute_leaf toy_hash 12 70 < 256 ^ 32
unfolding compute_leaf
leaf_bounded = toy_hash_bounded (key_bytes 12 ++ le_bytes 8 70)

proof_accepted :
    verify_proof toy_hash
      (root toy_hash two_holders)
      (compute_leaf toy_hash 11 30)
      (compute_leaf toy_hash 12 70 ∷ [])
    ≡ true
unfolding verify_proof root compute_leaf fold_sibling le_value key_bytes
proof_accepted = refl

verify_proof_sound_example :
    Entry 11 30 two_holders
    ⊎ Clash toy_hash two_holders 11 30 (reverse (compute_leaf toy_hash 12 70 ∷ []))
verify_proof_sound_example =
    verify_proof_sound toy_hash two_holders 11 30 (compute_leaf toy_hash 12 70 ∷ [])
      toy_hash_bounded ((omega arith, omega arith), (omega arith, omega arith))
      (omega arith, omega arith) (leaf_bounded, tt) proof_accepted

settled_holders-AllPaid_example :
    (u : Vault) × (run_claims toy_hash clock 250 3 claimants salvaged ≡ ok u)
    × AllPaid 3 registry salvaged u claimants
    × (u.lp_holder_pool the_pool + shares registry claimants ≡ salvaged.lp_holder_pool the_pool)
settled_holders-AllPaid_example =
    settled_holders-AllPaid toy_hash clock 250 3 venue runtime_of_test certs accounts salvage_params
      configured salvaged registry claimants salvage_test registry_found (omega arith) (omega arith)
      (omega arith) claimants-Entitled claimants_distinct (omega arith)
