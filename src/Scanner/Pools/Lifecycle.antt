-- ===== src/Scanner/Pools/Lifecycle.antt =====
-- The scanner over time: its pool instructions as steps, and what every reachable state satisfies.
use graveyield_protocol.Prelude.{
  ℕ, ◌+◌, ◌≤◌, ◌≡◌, ◌<ℤ◌, ◌==◌, ◌&&◌, Bool, Option, none, some, arith, Bool-cases, Result, ok,
  bind_ok, ok_or_ok, require_ok, not, inl, inr, ◌>>=◌, refl,
}
use mathlib.Core.Path.{subst}
use graveyield_protocol.Vault.State.{Clock}
use graveyield_protocol.Scanner.Errors.{
  ScannerFailure, program, account_not_initialized, unauthorized, anchor_invalidated,
}
use graveyield_protocol.Scanner.State.{ProtocolConfig, EligibilityCert}
use graveyield_protocol.Scanner.Config.{
  InitializeParams, UpdateProtocolConfigParams, initialize, update_protocol_config, emergency_pause,
}
use graveyield_protocol.Scanner.Config.Invariant.{
  IsFloored, Floored, initialize-IsFloored, update-IsFloored, pause-IsFloored,
}
use graveyield_protocol.Scanner.Attestation.{Sysvars}
use graveyield_protocol.Scanner.Attestation.LaunchPrices.{
  RecordLaunchPriceParams, record_launch_price,
}
use graveyield_protocol.Scanner.Adapters.Locker.{FindProgramAddress}
use graveyield_protocol.Scanner.Pools.{
  Scanner, record_price, Evidence, new_cert, evaluate_pool_phase1, evaluate_pool_phase2,
  invalidate_anchor, sweep_stale_anchor,
}
use graveyield_protocol.Scanner.Pools.Effects.{
  phase2-Certified, sweep_stale_anchor_waits, phase1-Anchored, expires_later,
}

pub data GraveScannerInstruction : Type 0 where
  initialize_scanner : ℕ → InitializeParams → GraveScannerInstruction
  update_config : ℕ → UpdateProtocolConfigParams → GraveScannerInstruction
  pause : ℕ → Bool → GraveScannerInstruction
  phase1 : Clock → (bump writer amm pool : ℕ) → Evidence → GraveScannerInstruction
  phase2 : Clock → (bump writer amm pool : ℕ) → Evidence → GraveScannerInstruction
  record_launch : Clock → (bump : ℕ) → Sysvars → RecordLaunchPriceParams → GraveScannerInstruction
  invalidate : (signer amm pool : ℕ) → GraveScannerInstruction
  sweep_stale : Clock → (writer amm pool : ℕ) → GraveScannerInstruction

unfoldable pub process :
    FindProgramAddress → GraveScannerInstruction → Scanner → Result ScannerFailure Scanner
process pda (initialize_scanner bump p) s =
    initialize bump p s.config >>= λ c. ok (record s { config = some c })
process pda (update_config signer p) s =
    update_protocol_config signer p s.config >>= λ c. ok (record s { config = some c })
process pda (pause signer paused) s =
    emergency_pause signer paused s.config >>= λ c. ok (record s { config = some c })
process pda (phase1 clock bump writer amm pool o) s =
    evaluate_pool_phase1 pda clock bump writer amm pool o s
process pda (phase2 clock bump writer amm pool o) s =
    evaluate_pool_phase2 pda clock bump writer amm pool o s
process pda (record_launch clock bump v p) s = record_price clock bump v p s
process pda (invalidate signer amm pool) s = invalidate_anchor signer amm pool s
process pda (sweep_stale clock writer amm pool) s = sweep_stale_anchor clock writer amm pool s

pub data Steps (pda : FindProgramAddress) : Scanner → Scanner → Type 0 where
  stay : (s : Scanner) → Steps pda s s
  then_step :
      {s t u : Scanner}
      → Steps pda s t
      → (i : GraveScannerInstruction) → process pda i t ≡ ok u
      → Steps pda s u

-- A certificate that the vault may rely on.
abbrev pub CertSound : ℕ → ℕ → Option EligibilityCert → Type 0
CertSound amm pool none = Unit
CertSound amm pool (some c) =
    (c.amm_program_id ≡ amm)
    × (c.pool_address ≡ pool)
    × (c.criteria_bitmap ≡ 63)
    × (c.anchor_epoch + 2 ≤ c.cert_epoch)
    × (c.issued_at <ℤ c.expires_at)

pub record IsSafe (s : Scanner) : Type 0 where
  pub config : Floored s.config
  pub certs : (a p : ℕ) → CertSound a p (s.certs a p)

with_config-IsSafe :
    (s u : Scanner) (c : ProtocolConfig)
    → IsSafe s
    → IsFloored c
    → Path (Result ScannerFailure Scanner) (ok (record s { config = some c })) (ok u)
    → IsSafe u
with_config-IsSafe s u c safe floored e =
    let same : record s { config = some c } ≡ u = cc in
    rw (← same) (record { config = floored; certs = safe.certs })

same-IsSafe : (s u : Scanner) → IsSafe s → u.config ≡ s.config → u.certs ≡ s.certs → IsSafe u
same-IsSafe s u safe ec et = record {
  config = rw ec safe.config;
  certs = λ a p. rw et (safe.certs a p);
}

phase2-IsSafe :
    (pda : FindProgramAddress) (clock : Clock) (bump writer amm pool : ℕ) (o : Evidence)
    (s u : Scanner)
    → IsSafe s
    → evaluate_pool_phase2 pda clock bump writer amm pool o s ≡ ok u
    → IsSafe u
unfolding new_cert
phase2-IsSafe pda clock bump writer amm pool o s u safe h =
    let c = phase2-Certified pda clock bump writer amm pool o s u h in
    let floored : IsFloored c.cfg = subst Floored c.found_config safe.config in
    let later =
      expires_later clock.unix_timestamp c.cfg.cert_ttl_seconds c.expires c.lifetime floored.ttl in
    rw c.result (record {
      config = safe.config;
      certs = λ a p. elim (Bool-cases (a == amm && p == pool)) [
        | inl e ↦
            let same_amm : a ≡ amm = ground (arith, e) in
            let same_pool : p ≡ pool = ground (arith, e) in
            rw (e, same_amm, same_pool) (refl, refl, refl, c.confirmed, later)
        | inr e ↦ rw e (safe.certs a p)
      ];
    })

record_price-same :
    (clock : Clock) (bump : ℕ) (v : Sysvars) (p : RecordLaunchPriceParams) (s u : Scanner)
    → record_price clock bump v p s ≡ ok u
    → (u.config ≡ s.config) × (u.certs ≡ s.certs)
unfolding record_price
record_price-same clock bump v p s u h =
    bind_ok
      (record_launch_price clock bump v p s.config
        (s.launch_prices p.amm_program_id p.pool_address))
      _ h λ l fl h1. (ground arith, ground arith)

pub invalidate-same :
    (signer amm pool : ℕ) (s u : Scanner)
    → invalidate_anchor signer amm pool s ≡ ok u
    → (u.config ≡ s.config) × (u.certs ≡ s.certs) × (u.launch_prices ≡ s.launch_prices)
unfolding invalidate_anchor
invalidate-same signer amm pool s u h = ok_or_ok s.config account_not_initialized _ h λ cfg fc h1.
    ok_or_ok (s.anchors amm pool) account_not_initialized _ h1 λ anchor fa h2.
      require_ok (cfg.authority == signer) (program unauthorized) _ h2 λ e1 h3.
        require_ok (not anchor.invalidated) (program anchor_invalidated) _ h3
          λ e2 h4. (ground arith, ground arith, ground arith)

process-IsSafe :
    (pda : FindProgramAddress) (i : GraveScannerInstruction) (s u : Scanner)
    → IsSafe s
    → process pda i s ≡ ok u
    → IsSafe u
unfolding process
process-IsSafe pda (initialize_scanner bump p) s u safe h =
    bind_ok (initialize bump p s.config) _ h
      λ c fc e. with_config-IsSafe s u c safe (initialize-IsFloored bump p s.config c fc) e
process-IsSafe pda (update_config signer p) s u safe h =
    bind_ok (update_protocol_config signer p s.config) _ h λ c fc e.
      with_config-IsSafe s u c safe (update-IsFloored signer p s.config c safe.config fc) e
process-IsSafe pda (pause signer paused) s u safe h =
    bind_ok (emergency_pause signer paused s.config) _ h λ c fc e.
      with_config-IsSafe s u c safe (pause-IsFloored signer paused s.config c safe.config fc) e
process-IsSafe pda (phase1 clock bump writer amm pool o) s u safe h =
    let a = phase1-Anchored pda clock bump writer amm pool o s u h in
    same-IsSafe s u safe a.config a.certs
process-IsSafe pda (phase2 clock bump writer amm pool o) s u safe h =
    phase2-IsSafe pda clock bump writer amm pool o s u safe h
process-IsSafe pda (record_launch clock bump v p) s u safe h =
    let e = record_price-same clock bump v p s u h in same-IsSafe s u safe e.0 e.1
process-IsSafe pda (invalidate signer amm pool) s u safe h =
    let e = invalidate-same signer amm pool s u h in same-IsSafe s u safe e.0 e.1
process-IsSafe pda (sweep_stale clock writer amm pool) s u safe h =
    let (anchor, found, writes, late, same) =
      sweep_stale_anchor_waits clock writer amm pool s u h in
    same-IsSafe s u safe (ground (arith, same)) (ground (arith, same))

-- From a scanner without a config and certificates, after any successful instructions with any
-- evidence: every certificate is for the pool at whose address it stands, has the mask of all
-- six criteria, was issued at least two epochs after its anchor and ends after it starts; and the
-- config, if there, keeps the floors of the sweep window and of the certificates' lifetime.
pub scanner-Steps-IsSafe :
    (pda : FindProgramAddress) (s u : Scanner)
    → s.config ≡ none
    → ((a p : ℕ) → s.certs a p ≡ none)
    → Steps pda s u
    → IsSafe u
scanner-Steps-IsSafe pda s u c n (stay _) = record {
  config = rw c tt;
  certs = λ a p. rw (n a p) tt;
}
scanner-Steps-IsSafe pda s u c n (then_step {t = t} run i h) =
    process-IsSafe pda i t u (scanner-Steps-IsSafe pda s t c n run) h
