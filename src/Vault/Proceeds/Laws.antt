-- ===== src/Vault/Proceeds/Laws.antt =====
-- The split exhausts the proceeds, and the slippage cap only tightens.
use graveyield_protocol.Prelude.{
  ℕ, ◌+◌, ◌-◌, ◌*◌, ◌/◌, ◌≤◌, ◌<◌, ◌≡◌, refl, ap, Option, none, some, arith, min, ok, u64_mod,
}
use native.Mathlib.Nat.{mul-le-mul_left}
use graveyield_protocol.Vault.Proceeds.{
  effective_slippage_cap_bps, bps_share, split_proceeds, minimum_floor,
}

-- A u64 amount at a share of at most the whole: the floor, with no overflow and no truncation.
bps_share-floor :
    (total bps : ℕ) → total < u64_mod → bps ≤ 10000 → bps_share total bps ≡ ok (total * bps / 10000)
unfolding bps_share
bps_share-floor total bps ht hb = let le = mul-le-mul_left total hb in ground arith

-- For u64 proceeds and two shares that sum to at most 10,000 bps the split succeeds, the salvor
-- and the LP holders get the floors of their shares, the three amounts sum to the proceeds, and
-- the protocol gets its share of the rest with all of the rounding, less than two lamports.
pub split_proceeds_conserves :
    (total sb lb : ℕ)
    → total < u64_mod
    → sb + lb ≤ 10000
    → (p : ℕ) × (split_proceeds total sb lb ≡ ok (total * sb / 10000, total * lb / 10000, p))
      × (total * sb / 10000 + total * lb / 10000 + p ≡ total)
      × (total * (10000 - sb - lb) ≤ 10000 * p)
      × (10000 * p < total * (10000 - sb - lb) + 20000)
unfolding split_proceeds
split_proceeds_conserves total sb lb ht hb =
    let s = total * sb / 10000 in
    let l = total * lb / 10000 in
    let whole : total * sb + total * lb + total * (10000 - sb - lb) ≡ total * 10000 =
      let parts : sb + lb + (10000 - sb - lb) ≡ 10000 = omega arith in
      omega (arith, ap (λ (t : ℕ). total * t) parts) in
    (
      total - s - l,
      ground (arith, bps_share-floor total sb ht, bps_share-floor total lb ht),
      omega arith,
      omega arith,
      omega arith,
    )

-- Whatever the shares, a split that succeeds gives away exactly the proceeds.
pub split_proceeds_exhausts :
    (total sb lb s l p : ℕ) → split_proceeds total sb lb ≡ ok (s, l, p) → s + l + p ≡ total
unfolding split_proceeds
split_proceeds_exhausts total sb lb s l p h = ground arith

-- The effective cap is at most the hard ceiling of 10% and the configured cap, and a per-transaction
-- override gives exactly the smaller of the override and the cap without one.
pub effective_slippage_cap_tightens :
    (config o : ℕ) (override : Option ℕ)
    → (effective_slippage_cap_bps config override ≤ 1000)
      × (effective_slippage_cap_bps config override ≤ config)
      × (effective_slippage_cap_bps config (some o)
          ≡ min (effective_slippage_cap_bps config none) o)
unfolding effective_slippage_cap_bps
effective_slippage_cap_tightens config o none = (omega arith, omega arith, refl)
effective_slippage_cap_tightens config o (some x) = (omega arith, omega arith, refl)

-- The lowest floor that the protocol accepts, when it computes one: 10,000 times it is at most
-- the pool-implied conversion times what the cap leaves, and misses that by less than 10,000.
pub minimum_floor_bounds :
    (received wsol memecoin cap f : ℕ)
    → minimum_floor received wsol memecoin cap ≡ ok f
    → (10000 * f ≤ received * wsol / memecoin * (10000 - cap))
      × (received * wsol / memecoin * (10000 - cap) < 10000 * f + 10000)
      × (0 < memecoin)
unfolding minimum_floor
minimum_floor_bounds received wsol memecoin cap f h = ground arith
