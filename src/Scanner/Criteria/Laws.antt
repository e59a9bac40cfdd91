-- ===== src/Scanner/Criteria/Laws.antt =====
-- What the evaluation decides.
use graveyield_protocol.Prelude.{
  ℕ, ◌+◌, ◌-◌, ◌*◌, ◌/◌, ◌≤◌, ◌<◌, ◌≡◌, ◌≤ℤ◌, ◌+ℤ◌, ℤ, pos, pos_part, neg_part, sub_ℕ, ◌↔◌, refl,
  true, Option, none, some, arith, leb, ltb, leb_ℤ, ◌==◌, u128_mod, Result, ok, bind_ok, ok_or_ok,
  require_ok, leb→le, ltb→lt, ==→eq, Bool-cases, Option-cases, inl, inr,
}
use mathlib.Core.Path.{subst}
use native.Mathlib.Nat.{le-div_iff_mul-le, le_of_mul-le-mul_right, le_trans}
use graveyield_protocol.Scanner.Errors.{
  ScannerFailure, program, invalid_clock, pool_not_eligible, launch_price_not_found,
  anchor_not_found,
}
use graveyield_protocol.Scanner.Criteria.{
  CriteriaInputs, CriteriaThresholds, Phase, one, two, compute_drop_bps, elapsed_seconds,
  epoch_criterion, evaluate,
}

-- The sixth criterion: nothing in the first phase; in the second, two epochs since the anchor's.
abbrev pub EpochConfirmed : Phase → Option ℕ → ℕ → Type 0
EpochConfirmed one anchor now = Unit
EpochConfirmed two none now = ⊥
EpochConfirmed two (some epoch) now = epoch + 2 ≤ now

-- The six criteria, with the two conditions under which the evaluation computes them: the clock is
-- not behind the swap, and the price drop times 10,000 fits 128 bits.
pub record IsEligible (i : CriteriaInputs) (t : CriteriaThresholds) (phase : Phase) : Type 0 where
  pub clock : i.last_swap_unix_ts ≤ℤ i.current_unix_ts
  pub inactive : i.last_swap_unix_ts +ℤ pos t.inactivity_seconds ≤ℤ i.current_unix_ts
  pub launched : 0 < i.launch_price_q64x64
  pub drop_fits : (i.launch_price_q64x64 - i.current_price_q64x64) * 10000 < u128_mod
  pub collapsed :
      t.price_collapse_bps * i.launch_price_q64x64
      ≤ (i.launch_price_q64x64 - i.current_price_q64x64) * 10000
  pub worth_it : t.min_tvl_lamports ≤ i.current_tvl_lamports
  pub not_burned : t.lp_burn_dust_threshold < i.lp_supply
  pub not_locked : i.lp_locked_amount ≡ 0
  pub confirmed : EpochConfirmed phase i.anchor_first_eligible_epoch i.current_epoch

-- A number of seconds has passed exactly if the later time is that much past the earlier one.
sub_ℕ-parts : (a b : ℕ) → pos_part (sub_ℕ a b) + b ≡ a + neg_part (sub_ℕ a b)
sub_ℕ-parts a b = elim (Bool-cases (leb b a)) [
  | inl e ↦ ground (arith, e)
  | inr e ↦ ground (arith, e)
]

elapsed-later : (t now : ℤ) (n : ℕ) → t ≤ℤ now → n ≤ elapsed_seconds now t → t +ℤ pos n ≤ℤ now
elapsed-later t now n past h = omega (arith, sub_ℕ-parts (pos_part t + n) (neg_part t + 0), past, h)

later-elapsed : (t now : ℤ) (n : ℕ) → t +ℤ pos n ≤ℤ now → n ≤ elapsed_seconds now t
later-elapsed t now n h = omega (arith, sub_ℕ-parts (pos_part t + n) (neg_part t + 0), h)

-- The floor at a divisor that is at least as large as the quotient's bound.
quotient_le : (x l : ℕ) → 0 < l → x ≤ 10000 * l → x / l ≤ 10000
quotient_le x l p h =
    let below = (le-div_iff_mul-le {k = l} {x = x / l} {y = x} p).0 (omega arith) in
    le_of_mul-le-mul_right (le_trans below h) p

-- For a positive launch price whose drop fits, the drop in basis points is the floor.
drop_floor :
    (l c : ℕ) → 0 < l → (l - c) * 10000 < u128_mod → compute_drop_bps l c ≡ ok ((l - c) * 10000 / l)
unfolding compute_drop_bps
drop_floor l c p h = elim (Bool-cases (leb l c)) [
  | inl e ↦
      let none_left : l - c ≡ 0 = omega (arith, leb→le l c e) in
      rw (e, none_left) (zero_quotient l p)
  | inr e ↦ let bound = quotient_le ((l - c) * 10000) l p (omega arith) in ground (arith, e, bound)
]
  where
    zero_quotient : (l : ℕ) → 0 < l → Path (Result ScannerFailure ℕ) (ok 0) (ok (0 * 10000 / l))
    zero_quotient l p = ground arith

drop_fits_of_ok : (l c d : ℕ) → compute_drop_bps l c ≡ ok d → (l - c) * 10000 < u128_mod
unfolding compute_drop_bps
drop_fits_of_ok l c d h = ground arith

epoch_criterion-eq-ok :
    (phase : Phase) (i : CriteriaInputs) (f : ℕ)
    → epoch_criterion phase i ≡ ok f
    → (f ≡ 32) × EpochConfirmed phase i.anchor_first_eligible_epoch i.current_epoch
unfolding epoch_criterion
epoch_criterion-eq-ok one i f h = (ground arith, tt)
epoch_criterion-eq-ok two i f h =
    ok_or_ok i.anchor_first_eligible_epoch (program anchor_not_found) _ h λ a found h1.
      let late : leb 2 (i.current_epoch - a) ≡ true = ground arith in
      (ground arith, rw found (omega (arith, leb→le 2 (i.current_epoch - a) late)))

epoch_criterion_ok :
    (phase : Phase) (i : CriteriaInputs)
    → EpochConfirmed phase i.anchor_first_eligible_epoch i.current_epoch
    → epoch_criterion phase i ≡ ok 32
unfolding epoch_criterion
epoch_criterion_ok one i c = refl
epoch_criterion_ok two i c = elim (Option-cases i.anchor_first_eligible_epoch) [
  | inl e ↦ absurd (subst (λ o. EpochConfirmed two o i.current_epoch) e c)
  | inr (a, e) ↦
      let gap : a + 2 ≤ i.current_epoch = subst (λ o. EpochConfirmed two o i.current_epoch) e c in
      ground (arith, e, gap)
]

-- The evaluation accepts only eligible inputs, and then with the mask of all six criteria.
pub evaluate-IsEligible :
    (i : CriteriaInputs) (t : CriteriaThresholds) (phase : Phase) (b : ℕ)
    → evaluate i t phase ≡ ok b
    → (b ≡ 63) × IsEligible i t phase
unfolding evaluate
evaluate-IsEligible i t phase b h =
    require_ok (leb_ℤ i.last_swap_unix_ts i.current_unix_ts) (program invalid_clock) _ h λ e1 h1.
      require_ok (leb t.inactivity_seconds (elapsed_seconds i.current_unix_ts i.last_swap_unix_ts))
        (program pool_not_eligible) _ h1
        λ e2 h2.
          require_ok (ltb 0 i.launch_price_q64x64) (program launch_price_not_found) _ h2 λ e3 h3.
            bind_ok (compute_drop_bps i.launch_price_q64x64 i.current_price_q64x64) _ h3 λ d fd h4.
              require_ok (leb t.price_collapse_bps d) (program pool_not_eligible) _ h4 λ e4 h5.
                require_ok (leb t.min_tvl_lamports i.current_tvl_lamports)
                  (program pool_not_eligible) _ h5
                  λ e5 h6.
                    require_ok (ltb t.lp_burn_dust_threshold i.lp_supply)
                      (program pool_not_eligible) _ h6
                      λ e6 h7.
                        require_ok (i.lp_locked_amount == 0) (program pool_not_eligible) _ h7
                          λ e7 h8. bind_ok (epoch_criterion phase i) _ h8 λ f ff h9.
                            let sixth = epoch_criterion-eq-ok phase i f ff in
                            let l = i.launch_price_q64x64 in
                            let c = i.current_price_q64x64 in
                            let fits = drop_fits_of_ok l c d fd in
                            let positive = ltb→lt 0 l e3 in
                            let drop : t.price_collapse_bps ≤ (l - c) * 10000 / l = ground (
                              arith,
                              drop_floor l c positive fits,
                              fd,
                              leb→le t.price_collapse_bps d e4,
                            ) in
                            (
                              ground (arith, sixth.0),
                              record {
                                clock = ground arith;
                                inactive =
                                    elapsed-later i.last_swap_unix_ts i.current_unix_ts
                                      t.inactivity_seconds (ground arith) (ground arith);
                                launched = positive;
                                drop_fits = fits;
                                collapsed = (le-div_iff_mul-le positive).0 drop;
                                worth_it = leb→le t.min_tvl_lamports i.current_tvl_lamports e5;
                                not_burned = ltb→lt t.lp_burn_dust_threshold i.lp_supply e6;
                                not_locked = ==→eq i.lp_locked_amount 0 e7;
                                confirmed = sixth.1;
                              },
                            )

-- The evaluation succeeds, with the mask of all six criteria, exactly on the eligible inputs.
pub evaluate_iff_IsEligible :
    (i : CriteriaInputs) (t : CriteriaThresholds) (phase : Phase)
    → (evaluate i t phase ≡ ok 63) ↔ IsEligible i t phase
unfolding evaluate
evaluate_iff_IsEligible i t phase = (
  λ h. (evaluate-IsEligible i t phase 63 h).1,
  λ s.
      let drop = drop_floor i.launch_price_q64x64 i.current_price_q64x64 s.launched s.drop_fits in
      let enough = (le-div_iff_mul-le s.launched).1 s.collapsed in
      let sixth = epoch_criterion_ok phase i s.confirmed in
      let waited =
        later-elapsed i.last_swap_unix_ts i.current_unix_ts t.inactivity_seconds s.inactive in
      ground (
        arith, s.clock, waited, s.launched, drop, enough, s.worth_it, s.not_burned, s.not_locked,
        sixth,
      ),
)
