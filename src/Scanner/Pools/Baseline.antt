-- ===== src/Scanner/Pools/Baseline.antt =====
-- Launch prices over time, programs/grave-scanner/src/instructions/record_launch_price.rs: the
-- record is written once.
use graveyield_protocol.Prelude.{
  ℕ, ◌≡◌, ◌==◌, ◌&&◌, Option, none, some, arith, Bool-cases, both_eq, ok, bind_ok, inl, inr, refl,
}
use graveyield_protocol.Vault.State.{Clock}
use graveyield_protocol.Scanner.State.{ProtocolConfig, LaunchPrice}
use graveyield_protocol.Scanner.Attestation.{Sysvars}
use graveyield_protocol.Scanner.Attestation.LaunchPrices.{
  RecordLaunchPriceParams, record_launch_price,
}
use graveyield_protocol.Scanner.Adapters.Locker.{FindProgramAddress}
use graveyield_protocol.Scanner.Config.{initialize, update_protocol_config, emergency_pause}
use graveyield_protocol.Scanner.Pools.{Scanner, put_pool, record_price}
use graveyield_protocol.Scanner.Pools.Effects.{
  phase2-Certified, sweep_stale_anchor_waits, phase1-Anchored,
}
use graveyield_protocol.Scanner.Pools.Lifecycle.{
  GraveScannerInstruction, initialize_scanner, update_config, pause, phase1, phase2, record_launch,
  invalidate, sweep_stale, process, invalidate-same, Steps, stay, then_step,
}

-- A launch price that is recorded stays.
abbrev Keeps : Scanner → Scanner → Type 0
Keeps s u =
    (a p : ℕ) (l : LaunchPrice) → s.launch_prices a p ≡ some l → u.launch_prices a p ≡ some l

record_launch_price_vacant :
    (clock : Clock) (bump : ℕ) (v : Sysvars) (p : RecordLaunchPriceParams)
    (config : Option ProtocolConfig) (old : Option LaunchPrice) (n : LaunchPrice)
    → record_launch_price clock bump v p config old ≡ ok n
    → old ≡ none
unfolding record_launch_price
record_launch_price_vacant clock bump v p config none n h = refl
record_launch_price_vacant clock bump v p config (some l) n h = absurd (cc)

record_price-Keeps :
    (clock : Clock) (bump : ℕ) (v : Sysvars) (p : RecordLaunchPriceParams) (s u : Scanner)
    → record_price clock bump v p s ≡ ok u
    → Keeps s u
unfolding record_price
record_price-Keeps clock bump v p s u h a q l e =
    let amm = p.amm_program_id in
    let pool = p.pool_address in
    bind_ok (record_launch_price clock bump v p s.config (s.launch_prices amm pool)) _ h λ n fn h1.
      let was =
        record_launch_price_vacant clock bump v p s.config (s.launch_prices amm pool) n fn in
      let now : record s { launch_prices = put_pool s.launch_prices amm pool (some n) } ≡ u = cc in
      rw (← now) (elim (Bool-cases (a == amm && q == pool)) [
        | inl c ↦
            let (ea, eq) = both_eq a amm q pool c in
            let here : s.launch_prices amm pool ≡ some l = rw (← ea, ← eq) e in absurd (cc)
        | inr c ↦ rw c e
      ])

process-Keeps :
    (pda : FindProgramAddress) (i : GraveScannerInstruction) (s u : Scanner)
    → process pda i s ≡ ok u
    → Keeps s u
unfolding process
process-Keeps pda (initialize_scanner bump p) s u h a q l e =
    bind_ok (initialize bump p s.config) _ h λ c fc h1. ground (arith, e, h1)
process-Keeps pda (update_config signer p) s u h a q l e =
    bind_ok (update_protocol_config signer p s.config) _ h λ c fc h1. ground (arith, e, h1)
process-Keeps pda (pause signer paused) s u h a q l e =
    bind_ok (emergency_pause signer paused s.config) _ h λ c fc h1. ground (arith, e, h1)
process-Keeps pda (phase1 clock bump writer amm pool o) s u h a q l e =
    let a1 = phase1-Anchored pda clock bump writer amm pool o s u h in rw a1.launch_prices e
process-Keeps pda (phase2 clock bump writer amm pool o) s u h a q l e =
    let c = phase2-Certified pda clock bump writer amm pool o s u h in rw c.result e
process-Keeps pda (record_launch clock bump v p) s u h a q l e =
    record_price-Keeps clock bump v p s u h a q l e
process-Keeps pda (invalidate signer amm pool) s u h a q l e =
    let same = invalidate-same signer amm pool s u h in rw same.2 e
process-Keeps pda (sweep_stale clock writer amm pool) s u h a q l e =
    let (anchor, found, writes, late, same) =
      sweep_stale_anchor_waits clock writer amm pool s u h in
    rw same e

-- A launch price, once recorded for a pool, is never changed or removed: it is the same in every
-- later state, whatever instructions succeed between.
pub launch_price-Steps :
    (pda : FindProgramAddress) (s u : Scanner) (amm pool : ℕ) (l : LaunchPrice)
    → s.launch_prices amm pool ≡ some l
    → Steps pda s u
    → u.launch_prices amm pool ≡ some l
launch_price-Steps pda s u amm pool l e (stay _) = e
launch_price-Steps pda s u amm pool l e (then_step {t = t} run i h) =
    process-Keeps pda i t u h amm pool l (launch_price-Steps pda s t amm pool l e run)
