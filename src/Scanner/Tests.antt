-- ===== src/Scanner/Tests.antt =====
-- A pool that is anchored in epoch 5, certified in epoch 7, and whose anchor is swept in epoch 20.
use graveyield_protocol.Prelude.{
  ◌+◌, ◌≤◌, ◌≡◌, ◌↔◌, ◌==◌, ◌&&◌, refl, pos, false, none, some, if◌then◌else◌, arith, ok,
}
use graveyield_protocol.Scanner.Adapters.{current_price_q64x64}
use graveyield_protocol.Scanner.Pools.Evidenced.{Evidenced, phase2-Evidenced}
use graveyield_protocol.Scanner.Pools.Baseline.{launch_price-Steps}
use graveyield_protocol.Scanner.SignedTests.{SwapAccepts, runtime}
use graveyield_protocol.Scanner.EvidenceTests.{
  attested_at_five, attested_at_seven, pool_test, locker_test,
}
use graveyield_protocol.Scanner.Fixtures.{pda, config, recorded, evidence, at_epoch}
use graveyield_protocol.Scanner.State.{
  ProtocolConfig, EligibilityAnchor, EligibilityCert, is_expired,
}
use graveyield_protocol.Scanner.Config.{
  InitializeParams, UpdateProtocolConfigParams, initialize, update_protocol_config,
  apply_config_update,
}
use graveyield_protocol.Scanner.Config.Invariant.{IsFloored, update-IsFloored}
use graveyield_protocol.Scanner.Criteria.{
  CriteriaInputs, two, evaluate, compute_drop_bps, epoch_criterion,
}
use graveyield_protocol.Scanner.Criteria.Laws.{IsEligible, evaluate_iff_IsEligible}
use graveyield_protocol.Scanner.Pools.{
  Scanner, thresholds, criteria_inputs, new_anchor, new_cert, put_pool, evaluate_pool_phase1,
  evaluate_pool_phase2, sweep_stale_anchor,
}
use graveyield_protocol.Scanner.Pools.Effects.{
  Certified, phase2-Certified, sweep_stale_anchor_waits,
}
use graveyield_protocol.Scanner.Pools.Lifecycle.{
  initialize_scanner, phase1, phase2, process, Steps, stay, then_step, IsSafe, scanner-Steps-IsSafe,
}

abbrev params : InitializeParams
params = record {
  authority = 50;
  inactivity_seconds = 0;
  price_collapse_bps = 0;
  min_tvl_lamports = 0;
  anchor_staleness_seconds = 0;
  lp_burn_dust_threshold = 0;
  cert_ttl_seconds = pos 0;
}

abbrev genesis : Scanner
genesis = record {
  config = none;
  launch_prices = λ a p. if a == 1 && p == 2 then some recorded else none;
  anchors = λ a p. none;
  certs = λ a p. none;
}

abbrev configured : Scanner
configured = record genesis { config = some config }

abbrev anchor : EligibilityAnchor
anchor = record {
  amm_program_id = 1;
  pool_address = 2;
  writer = 60;
  first_eligible_epoch = 5;
  written_at = pos 10000000;
  invalidated = false;
  criteria_bitmap = 63;
  bump = 254;
}

abbrev anchored : Scanner
anchored = record configured { anchors = put_pool configured.anchors 1 2 (some anchor) }

abbrev cert : EligibilityCert
cert = record {
  amm_program_id = 1;
  pool_address = 2;
  writer = 61;
  anchor_epoch = 5;
  cert_epoch = 7;
  issued_at = pos 10000000;
  expires_at = pos 10003600;
  criteria_bitmap = 63;
  reissue_generation = 1;
  bump = 253;
}

abbrev certified : Scanner
certified = record anchored { certs = put_pool anchored.certs 1 2 (some cert) }

abbrev inputs : CriteriaInputs
inputs = record {
  last_swap_unix_ts = pos 1000;
  current_unix_ts = pos 10000000;
  launch_price_q64x64 = 18446744073709551616;
  current_price_q64x64 = 110680464442257309;
  current_tvl_lamports = 600000000;
  lp_supply = 5000;
  lp_locked_amount = 0;
  current_epoch = 7;
  anchor_first_eligible_epoch = some 5;
}

inputs_at_five :
    criteria_inputs pda (at_epoch 5) config recorded none 1 2 evidence
    ≡ ok (record inputs { current_epoch = 5; anchor_first_eligible_epoch = none })
unfolding criteria_inputs current_price_q64x64
inputs_at_five = rw (attested_at_five, pool_test, locker_test) refl

inputs_at_seven : criteria_inputs pda (at_epoch 7) config recorded (some 5) 1 2 evidence ≡ ok inputs
unfolding criteria_inputs current_price_q64x64
inputs_at_seven = rw (attested_at_seven, pool_test, locker_test) refl

initialize_test : process pda (initialize_scanner 255 params) genesis ≡ ok configured
unfolding process initialize
initialize_test = refl

phase1_test : evaluate_pool_phase1 pda (at_epoch 5) 254 60 1 2 evidence configured ≡ ok anchored
unfolding evaluate_pool_phase1 evaluate compute_drop_bps epoch_criterion thresholds new_anchor
phase1_test = rw inputs_at_five refl

phase2_test : evaluate_pool_phase2 pda (at_epoch 7) 253 61 1 2 evidence anchored ≡ ok certified
unfolding evaluate_pool_phase2 evaluate compute_drop_bps epoch_criterion thresholds new_cert
    is_expired
phase2_test = rw inputs_at_seven refl

phase2-Certified_example : Certified pda (at_epoch 7) 253 61 1 2 evidence anchored certified
phase2-Certified_example =
    phase2-Certified pda (at_epoch 7) 253 61 1 2 evidence anchored certified phase2_test

phase1_step : process pda (phase1 (at_epoch 5) 254 60 1 2 evidence) configured ≡ ok anchored
unfolding process
phase1_step = phase1_test

phase2_step : process pda (phase2 (at_epoch 7) 253 61 1 2 evidence) anchored ≡ ok certified
unfolding process
phase2_step = phase2_test

run_to_certified : Steps pda genesis certified
run_to_certified =
    then_step
      (then_step (then_step (stay genesis) (initialize_scanner 255 params) initialize_test)
        (phase1 (at_epoch 5) 254 60 1 2 evidence) phase1_step)
      (phase2 (at_epoch 7) 253 61 1 2 evidence) phase2_step

scanner-Steps-IsSafe_example : IsSafe certified
scanner-Steps-IsSafe_example =
    scanner-Steps-IsSafe pda genesis certified refl (λ a p. refl) run_to_certified

abbrev swept : Scanner
swept = record anchored { anchors = put_pool anchored.anchors 1 2 none }

sweep_test : sweep_stale_anchor (at_epoch 20) 60 1 2 anchored ≡ ok swept
unfolding sweep_stale_anchor
sweep_test = refl

sweep_stale_anchor_waits_example :
    (anchor : EligibilityAnchor) × (anchored.anchors 1 2 ≡ some anchor)
    × (anchor.writer ≡ 60)
    × ((anchor.first_eligible_epoch + 2) + 2 ≤ 20)
    × (swept ≡ record anchored {
      anchors = λ a p. if a == 1 && p == 2 then none else anchored.anchors a p;
    })
sweep_stale_anchor_waits_example =
    sweep_stale_anchor_waits (at_epoch 20) 60 1 2 anchored swept sweep_test

evaluate_iff_IsEligible_example :
    (evaluate inputs (thresholds config) two ≡ ok 63) ↔ IsEligible inputs (thresholds config) two
evaluate_iff_IsEligible_example = evaluate_iff_IsEligible inputs (thresholds config) two

abbrev update : UpdateProtocolConfigParams
update = record {
  inactivity_seconds = none;
  price_collapse_bps = some 9500;
  min_tvl_lamports = none;
  anchor_staleness_seconds = some 518400;
  lp_burn_dust_threshold = none;
  cert_ttl_seconds = some (pos 600);
  activity_oracle = some 51;
  launch_price_oracle = none;
}

abbrev updated : ProtocolConfig
updated = record config {
  price_collapse_bps = 9500;
  anchor_staleness_seconds = 518400;
  cert_ttl_seconds = pos 600;
  activity_oracle = 51;
}

update_test : update_protocol_config 50 update (some config) ≡ ok updated
unfolding update_protocol_config apply_config_update
update_test = refl

config-IsFloored : IsFloored config
config-IsFloored = record { staleness = omega arith; ttl = omega arith }

update-IsFloored_example : IsFloored updated
update-IsFloored_example =
    update-IsFloored 50 update (some config) updated config-IsFloored update_test

phase2-Evidenced_example :
    (c : Certified pda (at_epoch 7) 253 61 1 2 evidence anchored certified) × Evidenced SwapAccepts
      pda
      (at_epoch 7)
      c.cfg
      c.launch
      1
      2
      evidence
      c.inputs
phase2-Evidenced_example =
    phase2-Evidenced SwapAccepts pda (at_epoch 7) 253 61 1 2 evidence anchored certified runtime
      phase2_test

launch_price-Steps_example : certified.launch_prices 1 2 ≡ some recorded
launch_price-Steps_example =
    launch_price-Steps pda genesis certified 1 2 recorded refl run_to_certified
