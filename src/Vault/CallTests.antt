-- ===== src/Vault/CallTests.antt =====
-- The theorems on the configuration, the arithmetic and the calls, at concrete inputs.
use graveyield_protocol.Prelude.{
  ℕ, ◌+◌, ◌*◌, ◌-◌, ◌/◌, ◌≤◌, ◌<◌, ◌≡◌, ◌≢◌, refl, true, not, Bool, none, some, arith, min, put,
  Table, ok, err,
}
use graveyield_protocol.Vault.Errors.{program, invariant_violation, unauthorized}
use graveyield_protocol.Vault.State.{ProtocolConfig}
use graveyield_protocol.Vault.Config.{
  UpdateProtocolConfigParams, update_protocol_config, emergency_pause,
}
use graveyield_protocol.Vault.Config.Invariant.{
  IsCharterValid, update_protocol_config-IsCharterValid, emergency_pause_toggles,
}
use graveyield_protocol.Vault.Proceeds.{effective_slippage_cap_bps, split_proceeds, minimum_floor}
use graveyield_protocol.Vault.Proceeds.Laws.{
  split_proceeds_conserves, effective_slippage_cap_tightens, minimum_floor_bounds,
}
use graveyield_protocol.Vault.Cpi.{RemoveLiquidityOutput}
use graveyield_protocol.Vault.Cpi.Raydium.{dispatch_remove_liquidity}
use graveyield_protocol.Vault.Cpi.Laws.{Withdrawn, dispatch_remove_liquidity-Withdrawn}
use graveyield_protocol.Vault.Salvage.Swap.{removal_input}
use graveyield_protocol.Vault.Dust.{sweep_dust}
use graveyield_protocol.Vault.Dust.Laws.{sweep_once}
use graveyield_protocol.Vault.Tests.{
  venue, accounts, salvage_params, genesis, config, platform, clock, sweep_accounts, sweep_params,
  salvaged, swept, sweep_test,
}

split_proceeds_conserves_example :
    (p : ℕ) × (split_proceeds 10001 4000 4001 ≡ ok (10001 * 4000 / 10000, 10001 * 4001 / 10000, p))
    × (10001 * 4000 / 10000 + 10001 * 4001 / 10000 + p ≡ 10001)
    × (10001 * (10000 - 4000 - 4001) ≤ 10000 * p)
    × (10000 * p < 10001 * (10000 - 4000 - 4001) + 20000)
split_proceeds_conserves_example =
    split_proceeds_conserves 10001 4000 4001 (omega arith) (omega arith)

effective_slippage_cap_tightens_example :
    (effective_slippage_cap_bps 5000 none ≤ 1000)
    × (effective_slippage_cap_bps 5000 none ≤ 5000)
    × (effective_slippage_cap_bps 5000 (some 100) ≡ min (effective_slippage_cap_bps 5000 none) 100)
effective_slippage_cap_tightens_example = effective_slippage_cap_tightens 5000 100 none

floor_test : minimum_floor 5000000 1000000 10000000000 300 ≡ ok 485
unfolding minimum_floor
floor_test = refl

minimum_floor_bounds_example :
    (10000 * 485 ≤ 5000000 * 1000000 / 10000000000 * (10000 - 300))
    × (5000000 * 1000000 / 10000000000 * (10000 - 300) < 10000 * 485 + 10000)
    × (0 < 10000000000)
minimum_floor_bounds_example = minimum_floor_bounds 5000000 1000000 10000000000 300 485 floor_test

abbrev update : UpdateProtocolConfigParams
update = record {
  lp_holder_share_bps = some 5000;
  salvor_share_bps = none;
  protocol_share_bps = some 1000;
  max_priority_fee_ceiling_lamports = none;
  max_slippage_bps = some 250;
  jupiter_dust_threshold_lamports = none;
  timelock_seconds = none;
}

abbrev updated : ProtocolConfig
updated = record config {
  lp_holder_share_bps = 5000;
  protocol_share_bps = 1000;
  max_slippage_bps = 250;
}

update_test : update_protocol_config 50 update (some config) ≡ ok updated
unfolding update_protocol_config
update_test = refl

config-IsCharterValid : IsCharterValid config
config-IsCharterValid = record { ceiling = omega arith; whole = refl }

update_protocol_config-IsCharterValid_example :
    IsCharterValid updated
    × (config.authority ≡ 50)
    × (updated.authority ≡ config.authority)
    × (updated.pending_authority ≡ config.pending_authority)
    × (updated.pending_authority_eta ≡ config.pending_authority_eta)
    × (updated.emergency_paused ≡ config.emergency_paused)
update_protocol_config-IsCharterValid_example =
    update_protocol_config-IsCharterValid 50 update config updated config-IsCharterValid update_test

emergency_pause_toggles_example :
    (config.authority ≡ 50
      → (emergency_pause 50 (not config.emergency_paused) (some config)
          ≡ ok (record config { emergency_paused = not config.emergency_paused }))
        × (emergency_pause 50 config.emergency_paused (some config)
            ≡ err (program invariant_violation)))
    × (¬ (config.authority ≡ 50)
        → (paused : Bool) → emergency_pause 50 paused (some config) ≡ err (program unauthorized))
emergency_pause_toggles_example = emergency_pause_toggles 50 config

abbrev tokens_before : Table ℕ
tokens_before = put (put genesis.tokens 21 0) 22 0

abbrev tokens_withdrawn : Table ℕ
tokens_withdrawn = put (put tokens_before 21 1000000) 22 5000000

abbrev received : RemoveLiquidityOutput
received = record { base_received = 1000000; memecoin_received = 5000000 }

withdraw_test :
    dispatch_remove_liquidity venue (removal_input accounts salvage_params true) tokens_before
    ≡ ok (received, tokens_withdrawn)
unfolding dispatch_remove_liquidity removal_input
withdraw_test = refl

dispatch_remove_liquidity-Withdrawn_example :
    Withdrawn venue
      (removal_input accounts salvage_params true)
      tokens_before
      tokens_withdrawn
      received
dispatch_remove_liquidity-Withdrawn_example =
    dispatch_remove_liquidity-Withdrawn venue (removal_input accounts salvage_params true)
      tokens_before tokens_withdrawn received withdraw_test

abbrev tokens_after : Table ℕ
tokens_after = put (put tokens_withdrawn 21 1000495) 22 10

sweep_once_example : sweep_dust venue platform clock sweep_accounts sweep_params swept ≢ ok swept
sweep_once_example =
    sweep_once venue venue platform platform clock clock sweep_accounts sweep_accounts sweep_params
      sweep_params salvaged swept swept sweep_test (λ e. ground (arith, e)) refl
