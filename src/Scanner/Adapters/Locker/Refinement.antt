-- ===== src/Scanner/Adapters/Locker/Refinement.antt =====
-- The loop of the locker adapter, programs/grave-scanner/src/adapters/locker.rs, refines the sums
-- over its accounts.
use graveyield_protocol.Prelude.{
  ℕ, ◌<◌, ◌≡◌, ◌↔◌, sym, ap, ◌∙◌, true, false, List, [], ◌∷◌, All, ◌==◌, ltb, key_bytes,
  if◌then◌else◌, u32_mod, u64_mod, Result, ok, ◌>>◌, require, bind_ok, arith, inl, inr, Bool-cases,
}
use graveyield_protocol.Vault.Cpi.{AccountInfo}
use graveyield_protocol.Scanner.Errors.{
  ScannerFailure, program, invalid_locker_account, locker_marker_account_required,
  locker_lock_evidence_required,
}
use graveyield_protocol.Scanner.Adapters.Locker.{
  FindProgramAddress, LockerScan, marker_address, marker_seed, uncx_program_id, scan_accounts,
  locked_lp_amount,
}
use graveyield_protocol.Scanner.Adapters.Locker.Evidence.{
  IsAdmissible, lock_count, lock_total, names_marker, has_marker,
}
use graveyield_protocol.Scanner.Adapters.Locker.Accounts.{
  IsWellFormed, count_locks, sum_locks, some_at_marker, some_marker, lock_count-eq-count_locks,
  lock_total-eq-sum_locks, names_marker-eq-some_at_marker, has_marker-eq-some_marker,
  All-IsWellFormed, All-IsAdmissible,
}
use graveyield_protocol.Scanner.Adapters.Locker.Loop.{
  or_false, scan_accounts-Swept, scan_accounts_ok,
}

module _ (find_program_address : FindProgramAddress) (lp_mint pool : ℕ) where
  abbrev m : ℕ
  m = find_program_address (marker_seed ∷ key_bytes pool ∷ []) uncx_program_id

  -- What the loop and the checks after it compute on the accounts.
  record IsScanned (accounts : List AccountInfo) (locked : ℕ) : Type 0 where
    admissible : All (IsAdmissible find_program_address m lp_mint pool) accounts
    total : locked ≡ lock_total find_program_address m lp_mint pool accounts
    fits : locked < u64_mod
    few : lock_count find_program_address m lp_mint pool accounts < u32_mod
    named : names_marker find_program_address m lp_mint pool accounts ≡ true
    locks :
        has_marker find_program_address m lp_mint pool accounts ≡ true
        → 0 < lock_count find_program_address m lp_mint pool accounts
    no_locks :
        has_marker find_program_address m lp_mint pool accounts ≡ false
        → lock_count find_program_address m lp_mint pool accounts ≡ 0

  -- The specification, on the fields of the accounts, in whatever order they come.
  pub record IsLockerEvidence (accounts : List AccountInfo) (locked : ℕ) : Type 0 where
    pub well_formed : All (IsWellFormed find_program_address m lp_mint pool) accounts
    pub total : locked ≡ sum_locks find_program_address m lp_mint pool accounts
    pub fits : locked < u64_mod
    pub few : count_locks find_program_address m lp_mint pool accounts < u32_mod
    pub named : some_at_marker find_program_address m lp_mint pool accounts ≡ true
    pub locks :
        some_marker find_program_address m lp_mint pool accounts ≡ true
        → 0 < count_locks find_program_address m lp_mint pool accounts
    pub no_locks :
        some_marker find_program_address m lp_mint pool accounts ≡ false
        → count_locks find_program_address m lp_mint pool accounts ≡ 0

  -- The branches of the loop agree with the specification on each account.
  record Agreement (accounts : List AccountInfo) : Type 0 where
    count :
        lock_count find_program_address m lp_mint pool accounts
        ≡ count_locks find_program_address m lp_mint pool accounts
    sum :
        lock_total find_program_address m lp_mint pool accounts
        ≡ sum_locks find_program_address m lp_mint pool accounts
    named :
        names_marker find_program_address m lp_mint pool accounts
        ≡ some_at_marker find_program_address m lp_mint pool accounts
    present :
        has_marker find_program_address m lp_mint pool accounts
        ≡ some_marker find_program_address m lp_mint pool accounts

  agreement : (accounts : List AccountInfo) → Agreement accounts
  agreement accounts = record {
    count = lock_count-eq-count_locks find_program_address m lp_mint pool accounts;
    sum = lock_total-eq-sum_locks find_program_address m lp_mint pool accounts;
    named = names_marker-eq-some_at_marker find_program_address m lp_mint pool accounts;
    present = has_marker-eq-some_marker find_program_address m lp_mint pool accounts;
  }

  IsScanned-IsLockerEvidence :
      (accounts : List AccountInfo) (t : ℕ) → IsScanned accounts t → IsLockerEvidence accounts t
  IsScanned-IsLockerEvidence accounts t e =
      let g = agreement accounts in
      record {
        well_formed = All-IsWellFormed find_program_address m lp_mint pool accounts e.admissible;
        total = e.total ∙ g.sum;
        fits = e.fits;
        few = omega (arith, e.few, g.count);
        named = sym g.named ∙ e.named;
        locks = λ p. omega (arith, e.locks (g.present ∙ p), g.count);
        no_locks = λ p. omega (arith, e.no_locks (g.present ∙ p), g.count);
      }

  IsLockerEvidence-IsScanned :
      (accounts : List AccountInfo) (t : ℕ) → IsLockerEvidence accounts t → IsScanned accounts t
  IsLockerEvidence-IsScanned accounts t e =
      let g = agreement accounts in
      record {
        admissible = All-IsAdmissible find_program_address m lp_mint pool accounts e.well_formed;
        total = e.total ∙ sym g.sum;
        fits = e.fits;
        few = omega (arith, e.few, g.count);
        named = g.named ∙ e.named;
        locks = λ p. omega (arith, e.locks (sym g.present ∙ p), g.count);
        no_locks = λ p. omega (arith, e.no_locks (sym g.present ∙ p), g.count);
      }

  abbrev start : LockerScan
  start = record {
    marker_present_on_chain = false;
    marker_supplied = false;
    locks_seen = 0;
    total_locked = 0;
  }

  -- The checks after the loop.
  abbrev conclude : LockerScan → Result ScannerFailure ℕ
  conclude s = do
    require s.marker_supplied (program locker_marker_account_required)
    (if s.marker_present_on_chain
        then require (ltb 0 s.locks_seen) (program locker_lock_evidence_required)
        else require (s.locks_seen == 0) (program invalid_locker_account))
    ok s.total_locked

  conclude-cases :
      (s : LockerScan) (t : ℕ)
      → conclude s ≡ ok t
      → (t ≡ s.total_locked)
        × (s.marker_supplied ≡ true)
        × (s.marker_present_on_chain ≡ true → 0 < s.locks_seen)
        × (s.marker_present_on_chain ≡ false → s.locks_seen ≡ 0)
  conclude-cases s t h =
      (ground arith, ground arith, λ e. ground (arith, e, h), λ e. ground (arith, e, h))

  conclude_ok :
      (s : LockerScan)
      → s.marker_supplied ≡ true
      → (s.marker_present_on_chain ≡ true → 0 < s.locks_seen)
      → (s.marker_present_on_chain ≡ false → s.locks_seen ≡ 0)
      → conclude s ≡ ok s.total_locked
  conclude_ok s e some_locks none_seen = elim (Bool-cases s.marker_present_on_chain) [
    | inl p ↦ let n = some_locks p in ground (arith, e, p, n)
    | inr p ↦ let n = none_seen p in ground (arith, e, p, n)
  ]

  evidence_sound :
      (accounts : List AccountInfo) (t : ℕ)
      → locked_lp_amount find_program_address lp_mint pool accounts ≡ ok t
      → IsScanned accounts t
  unfolding locked_lp_amount marker_address
  evidence_sound accounts t h =
      bind_ok (scan_accounts find_program_address m lp_mint pool accounts start) _ h λ s fs h1.
        let swept =
          scan_accounts-Swept find_program_address m lp_mint pool accounts start s (omega arith)
            (omega arith) fs in
        let (same, supplied, some_locks, none_seen) = conclude-cases s t h1 in
        let present : has_marker find_program_address m lp_mint pool accounts
            ≡ s.marker_present_on_chain =
          sym
            (swept.present ∙ or_false (has_marker find_program_address m lp_mint pool accounts)) in
        record {
          admissible = swept.admissible;
          total = omega (arith, swept.total, same);
          fits = rw same swept.fits;
          few = omega (arith, swept.locks, swept.few);
          named =
              sym (or_false (names_marker find_program_address m lp_mint pool accounts))
              ∙ sym swept.supplied
              ∙ supplied;
          locks = λ e. omega (arith, some_locks (sym present ∙ e), swept.locks);
          no_locks = λ e. omega (arith, none_seen (sym present ∙ e), swept.locks);
        }

  evidence_complete :
      (accounts : List AccountInfo) (t : ℕ)
      → IsScanned accounts t
      → locked_lp_amount find_program_address lp_mint pool accounts ≡ ok t
  unfolding locked_lp_amount marker_address
  evidence_complete accounts t e =
      let (s, fs) =
        scan_accounts_ok find_program_address m lp_mint pool accounts start e.admissible
          (omega (arith, e.few)) (omega (arith, e.fits, e.total)) in
      let swept =
        scan_accounts-Swept find_program_address m lp_mint pool accounts start s (omega arith)
          (omega arith) fs in
      let present : s.marker_present_on_chain
          ≡ has_marker find_program_address m lp_mint pool accounts =
        swept.present ∙ or_false (has_marker find_program_address m lp_mint pool accounts) in
      let supplied : s.marker_supplied ≡ true =
        swept.supplied
        ∙ or_false (names_marker find_program_address m lp_mint pool accounts)
        ∙ e.named in
      let settled : conclude s ≡ ok s.total_locked =
        conclude_ok s supplied (λ p. omega (arith, e.locks (sym present ∙ p), swept.locks))
          (λ p. omega (arith, e.no_locks (sym present ∙ p), swept.locks)) in
      let same : s.total_locked ≡ t = omega (arith, swept.total, e.total) in
      rw fs (settled ∙ ap ok same)

  -- The amount that the locker adapter gives is exactly what the specification says, and it fails
  -- on all else. Of the submitted accounts, those that exist and that the locker's program owns are
  -- at the derived marker address a marker of 9 bytes, and elsewhere locks of 146 bytes, of this
  -- pool and mint, at the address derived from their id. The marker's address is among the accounts,
  -- absent or the locker's; there are locks if the marker exists and none if it does not, fewer than
  -- 2^32; and the amount is the sum of the locks' amounts, within u64.
  pub locked_lp_amount_iff_IsLockerEvidence :
      (accounts : List AccountInfo) (t : ℕ)
      → (locked_lp_amount find_program_address lp_mint pool accounts ≡ ok t)
        ↔ IsLockerEvidence accounts t
  locked_lp_amount_iff_IsLockerEvidence accounts t = (
    λ h. IsScanned-IsLockerEvidence accounts t (evidence_sound accounts t h),
    λ e. evidence_complete accounts t (IsLockerEvidence-IsScanned accounts t e),
  )
