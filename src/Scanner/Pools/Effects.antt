-- ===== src/Scanner/Pools/Effects.antt =====
-- What a successful second phase and a successful sweep have found and done.
use graveyield_protocol.Prelude.{
  ℕ, ◌+◌, ◌≤◌, ◌<◌, ◌≡◌, refl, ◌<ℤ◌, ◌≤ℤ◌, ℤ, pos, negsuc, true, false, not, Option, none, some,
  arith, ◌==◌, ◌&&◌, ==→eq, if◌then◌else◌, checked_add, checked_add_i64, u64_mod, ok, bind_ok,
  ok_or_ok, require_ok,
}
use graveyield_protocol.Vault.State.{Clock}
use graveyield_protocol.Scanner.Errors.{
  program, account_in_use, account_not_initialized, unauthorized, math_overflow, protocol_paused,
  criteria_bitmap_mismatch, anchor_invalidated, cert_still_valid,
}
use graveyield_protocol.Scanner.State.{
  ProtocolConfig, LaunchPrice, EligibilityAnchor, EligibilityCert, is_expired,
}
use graveyield_protocol.Scanner.Criteria.{CriteriaInputs, CriteriaThresholds, two, one, evaluate}
use graveyield_protocol.Scanner.Criteria.Laws.{EpochConfirmed, IsEligible, evaluate-IsEligible}
use mathlib.Core.Path.{subst}
use graveyield_protocol.Scanner.Adapters.Locker.{FindProgramAddress}
use graveyield_protocol.Scanner.Pools.{
  Scanner, Evidence, thresholds, criteria_inputs, new_anchor, new_cert, cert_or_zero, vacant,
  evaluate_pool_phase1, evaluate_pool_phase2, sweep_gate, sweep_stale_anchor,
}

criteria_inputs-epochs :
    (pda : FindProgramAddress) (clock : Clock) (cfg : ProtocolConfig) (launch : LaunchPrice)
    (e : Option ℕ) (amm pool : ℕ) (o : Evidence) (i : CriteriaInputs)
    → criteria_inputs pda clock cfg launch e amm pool o ≡ ok i
    → (i.anchor_first_eligible_epoch ≡ e)
      × (i.current_epoch ≡ clock.epoch)
      × (i.current_unix_ts ≡ clock.unix_timestamp)
unfolding criteria_inputs
criteria_inputs-epochs pda clock cfg launch e amm pool o i h =
    (ground arith, ground arith, ground arith)

-- The four thresholds, the generation of the certificate that is there, and the certificate that
-- is due.
abbrev pub config_thresholds : ProtocolConfig → CriteriaThresholds
config_thresholds cfg = record {
  inactivity_seconds = cfg.inactivity_seconds;
  price_collapse_bps = cfg.price_collapse_bps;
  min_tvl_lamports = cfg.min_tvl_lamports;
  lp_burn_dust_threshold = cfg.lp_burn_dust_threshold;
}

abbrev pub generation : Option EligibilityCert → ℕ
generation none = 0
generation (some c) = c.reissue_generation

abbrev pub issued_cert : Clock → ℕ → ℕ → ℕ → ℕ → EligibilityAnchor → ℤ → ℕ → EligibilityCert
issued_cert clock bump writer amm pool anchor expires nth = record {
  amm_program_id = amm;
  pool_address = pool;
  writer = writer;
  anchor_epoch = anchor.first_eligible_epoch;
  cert_epoch = clock.epoch;
  issued_at = clock.unix_timestamp;
  expires_at = expires;
  criteria_bitmap = 63;
  reissue_generation = nth;
  bump = bump;
}

generation_same : (o : Option EligibilityCert) → (cert_or_zero o).reissue_generation ≡ generation o
generation_same none = refl
generation_same (some c) = refl

not_live :
    (o : Option EligibilityCert) (now : ℤ)
    → is_expired (cert_or_zero o) now ≡ true
    → (c : EligibilityCert) → o ≡ some c
    → c.expires_at ≤ℤ now
unfolding is_expired
not_live none now h c e = absurd (cc)
not_live (some x) now h c e =
    let same : x ≡ c = cc in
    let past : x.expires_at ≤ℤ now = ground (arith, h) in subst (λ y. y.expires_at ≤ℤ now) same past

-- What the second phase did, as the comment at `phase2-Certified` says.
pub record Certified (pda : FindProgramAddress) (clock : Clock) (bump writer amm pool : ℕ)
    (o : Evidence) (s u : Scanner) : Type 0 where
  pub cfg : ProtocolConfig
  pub anchor : EligibilityAnchor
  pub launch : LaunchPrice
  pub inputs : CriteriaInputs
  pub expires : ℤ
  pub found_config : s.config ≡ some cfg
  pub found_anchor : s.anchors amm pool ≡ some anchor
  pub found_launch : s.launch_prices amm pool ≡ some launch
  pub unpaused : cfg.paused ≡ false
  pub standing : anchor.invalidated ≡ false
  pub observed :
      criteria_inputs pda clock cfg launch (some anchor.first_eligible_epoch) amm pool o ≡ ok inputs
  pub eligible : IsEligible inputs (config_thresholds cfg) two
  pub confirmed : anchor.first_eligible_epoch + 2 ≤ clock.epoch
  pub no_live_cert :
      (c : EligibilityCert) → s.certs amm pool ≡ some c → c.expires_at ≤ℤ clock.unix_timestamp
  pub lifetime : checked_add_i64 clock.unix_timestamp cfg.cert_ttl_seconds ≡ some expires
  pub result : u ≡ record s {
    certs = λ a p.
        if a == amm && p == pool
        then some (
            issued_cert clock bump writer amm pool anchor expires
              (generation (s.certs amm pool) + 1))
        else s.certs a p;
  }
  pub bitmap : anchor.criteria_bitmap ≡ 63

-- A successful second phase, in an unpaused scanner, found an anchor of the pool that is not
-- invalidated, whose six criteria had passed and whose epoch is at least two before the current
-- one; the inputs that it observed meet all six criteria at the config's thresholds. The pool had
-- no certificate, or one that is expired, and now has one with the mask of all criteria, both
-- epochs, the current time as start, the end of the configured lifetime and the next generation.
-- Nothing else changes.
pub phase2-Certified :
    (pda : FindProgramAddress) (clock : Clock) (bump writer amm pool : ℕ) (o : Evidence)
    (s u : Scanner)
    → evaluate_pool_phase2 pda clock bump writer amm pool o s ≡ ok u
    → Certified pda clock bump writer amm pool o s u
unfolding evaluate_pool_phase2 thresholds new_cert
phase2-Certified pda clock bump writer amm pool o s u h =
    ok_or_ok s.config account_not_initialized _ h λ cfg fc h1.
      ok_or_ok (s.anchors amm pool) account_not_initialized _ h1 λ anchor fa h2.
        ok_or_ok (s.launch_prices amm pool) account_not_initialized _ h2 λ launch fl h3.
          require_ok (not cfg.paused) (program protocol_paused) _ h3 λ e1 h4.
            require_ok (not anchor.invalidated) (program anchor_invalidated) _ h4 λ e2 h5.
              bind_ok
                (criteria_inputs pda clock cfg launch (some anchor.first_eligible_epoch) amm pool o)
                _ h5
                λ i fi h6. bind_ok (evaluate i (thresholds cfg) two) _ h6 λ b fb h7.
                  require_ok (b == anchor.criteria_bitmap) (program criteria_bitmap_mismatch) _ h7
                    λ e3 h8.
                      let old = cert_or_zero (s.certs amm pool) in
                      require_ok (is_expired old clock.unix_timestamp) (program cert_still_valid) _
                        h8
                        λ e4 h9.
                          ok_or_ok (checked_add_i64 clock.unix_timestamp cfg.cert_ttl_seconds)
                            (program math_overflow) _ h9
                            λ x fx h10.
                              ok_or_ok (checked_add u64_mod old.reissue_generation 1)
                                (program math_overflow) _ h10
                                λ g fg h11.
                                  let full = evaluate-IsEligible i (thresholds cfg) two b fb in
                                  let epochs =
                                    criteria_inputs-epochs pda clock cfg launch
                                      (some anchor.first_eligible_epoch) amm pool o i fi in
                                  let gap : anchor.first_eligible_epoch + 2 ≤ i.current_epoch =
                                    subst (λ e. EpochConfirmed two e i.current_epoch) epochs.0
                                      full.1.confirmed in
                                  let next : g ≡ generation (s.certs amm pool) + 1 =
                                    ground (arith, generation_same (s.certs amm pool), fg) in
                                  record {
                                    cfg = cfg;
                                    anchor = anchor;
                                    launch = launch;
                                    inputs = i;
                                    expires = x;
                                    found_config = fc;
                                    found_anchor = fa;
                                    found_launch = fl;
                                    unpaused = ground arith;
                                    standing = ground arith;
                                    observed = fi;
                                    eligible = full.1;
                                    confirmed = rw (← epochs.1) gap;
                                    no_live_cert = λ c at.
                                        not_live (s.certs amm pool) clock.unix_timestamp e4 c at;
                                    lifetime = fx;
                                    result = ground (arith, full.0, next);
                                    bitmap =
                                        ground (arith, full.0, ==→eq b anchor.criteria_bitmap e3);
                                  }

-- The gate opens only after more than three full epochs, whatever window is configured.
sweep_gate-late : (first window now : ℕ) → sweep_gate first window now ≡ ok tt → first + 3 < now
unfolding sweep_gate
sweep_gate-late first window now h = ground arith

-- A successful sweep closes the pool's anchor and nothing else. The submitted account is the
-- anchor's writer, and the current epoch is more than three after the anchor's, so that the second
-- phase, which opens after two, had been open for two epochs at least.
pub sweep_stale_anchor_waits :
    (clock : Clock) (writer amm pool : ℕ) (s u : Scanner)
    → sweep_stale_anchor clock writer amm pool s ≡ ok u
    → (anchor : EligibilityAnchor) × (s.anchors amm pool ≡ some anchor)
      × (anchor.writer ≡ writer)
      × ((anchor.first_eligible_epoch + 2) + 2 ≤ clock.epoch)
      × (u ≡ record s { anchors = λ a p. if a == amm && p == pool then none else s.anchors a p })
unfolding sweep_stale_anchor
sweep_stale_anchor_waits clock writer amm pool s u h =
    ok_or_ok s.config account_not_initialized _ h λ cfg fc h1.
      ok_or_ok (s.anchors amm pool) account_not_initialized _ h1 λ anchor fa h2.
        require_ok (anchor.writer == writer) (program unauthorized) _ h2 λ e1 h3.
          bind_ok (sweep_gate anchor.first_eligible_epoch cfg.anchor_staleness_seconds clock.epoch)
            _ h3
            λ _ open_gate h4.
              let late =
                sweep_gate-late anchor.first_eligible_epoch cfg.anchor_staleness_seconds clock.epoch
                  open_gate in
              (anchor, fa, ==→eq anchor.writer writer e1, omega (arith, late), ground arith)

-- What the first phase did.
pub record Anchored (clock : Clock) (bump writer amm pool : ℕ) (s u : Scanner) : Type 0 where
  pub vacant_before : s.anchors amm pool ≡ none
  pub config : u.config ≡ s.config
  pub certs : u.certs ≡ s.certs
  pub launch_prices : u.launch_prices ≡ s.launch_prices
  pub anchors :
      (a p : ℕ)
      → u.anchors a p ≡ (
          if a == amm && p == pool
          then some (new_anchor clock bump writer amm pool 63)
          else s.anchors a p)

pub phase1-Anchored :
    (pda : FindProgramAddress) (clock : Clock) (bump writer amm pool : ℕ) (o : Evidence)
    (s u : Scanner)
    → evaluate_pool_phase1 pda clock bump writer amm pool o s ≡ ok u
    → Anchored clock bump writer amm pool s u
unfolding evaluate_pool_phase1
phase1-Anchored pda clock bump writer amm pool o s u h =
    ok_or_ok s.config account_not_initialized _ h λ cfg fc h1.
      require_ok (vacant (s.anchors amm pool)) account_in_use _ h1 λ e0 h2.
        ok_or_ok (s.launch_prices amm pool) account_not_initialized _ h2 λ launch fl h3.
          require_ok (not cfg.paused) (program protocol_paused) _ h3 λ e1 h4.
            bind_ok (criteria_inputs pda clock cfg launch none amm pool o) _ h4 λ i fi h5.
              bind_ok (evaluate i (thresholds cfg) one) _ h5 λ b fb h6.
                let full = evaluate-IsEligible i (thresholds cfg) one b fb in
                record {
                  vacant_before = ground arith;
                  config = ground arith;
                  certs = ground arith;
                  launch_prices = ground arith;
                  anchors = λ a p. ground (arith, full.0);
                }

-- An end that the checked addition gives is after the start, for a lifetime of ten minutes or more.
pub expires_later : (now ttl e : ℤ) → checked_add_i64 now ttl ≡ some e → pos 600 ≤ℤ ttl → now <ℤ e
expires_later (pos n) (pos t) e h f = ground arith
expires_later (negsuc n) (pos t) e h f = ground arith
expires_later (pos n) (negsuc t) e h f = absurd (omega (arith, f))
expires_later (negsuc n) (negsuc t) e h f = absurd (omega (arith, f))
