-- ===== src/Scanner/Constants.antt =====
-- programs/grave-scanner/src/constants.rs and the flags of programs/grave-scanner/src/criteria.rs.
use graveyield_protocol.Prelude.{ℕ, ◌+◌, ◌*◌, ℤ, pos}

abbrev pub default_inactivity_seconds : ℕ
default_inactivity_seconds = 7776000

abbrev pub default_price_collapse_bps : ℕ
default_price_collapse_bps = 9900

abbrev pub default_min_tvl_lamports : ℕ
default_min_tvl_lamports = 500000000

abbrev pub min_epoch_confirmation : ℕ
min_epoch_confirmation = 2

abbrev pub default_lp_burn_dust_threshold : ℕ
default_lp_burn_dust_threshold = 1000

abbrev pub default_anchor_staleness_seconds : ℕ
default_anchor_staleness_seconds = 1209600

abbrev pub default_cert_ttl_seconds : ℤ
default_cert_ttl_seconds = pos 3600

abbrev pub min_cert_ttl_seconds : ℤ
min_cert_ttl_seconds = pos 600

abbrev pub approx_epoch_duration_seconds : ℕ
approx_epoch_duration_seconds = 172800

abbrev pub min_anchor_staleness_seconds : ℕ
min_anchor_staleness_seconds = (min_epoch_confirmation + 1) * approx_epoch_duration_seconds

abbrev pub criterion_inactivity : ℕ
criterion_inactivity = 1

abbrev pub criterion_price_collapse : ℕ
criterion_price_collapse = 2

abbrev pub criterion_min_tvl : ℕ
criterion_min_tvl = 4

abbrev pub criterion_lp_not_burned : ℕ
criterion_lp_not_burned = 8

abbrev pub criterion_no_lock : ℕ
criterion_no_lock = 16

abbrev pub criterion_epoch_confirmed : ℕ
criterion_epoch_confirmed = 32

abbrev pub all_criteria_mask : ℕ
all_criteria_mask = 63
