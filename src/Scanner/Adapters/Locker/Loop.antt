-- ===== src/Scanner/Adapters/Locker/Loop.antt =====
-- The loop of the locker adapter, programs/grave-scanner/src/adapters/locker.rs: what it leaves in
-- its variables.
use graveyield_protocol.Prelude.{
  ℕ, ◌+◌, ◌<◌, ◌≡◌, refl, sym, ◌∙◌, Bool, true, false, ◌||◌, List, [], ◌∷◌, All, u32_mod, u64_mod,
  ok, bind_ok, arith,
}
use mathlib.Core.Path.{subst}
use graveyield_protocol.Vault.Cpi.{AccountInfo}
use graveyield_protocol.Scanner.Adapters.Locker.{
  FindProgramAddress, LockerScan, AccountKind, absent, foreign, marker, lock, kind_of, scan_kind,
  scan_accounts,
}
use graveyield_protocol.Scanner.Adapters.Locker.Evidence.{
  IsAdmissible, kind_locks, kind_amount, kind_supplies, kind_presents, kind_advance, lock_count,
  lock_total, names_marker, has_marker, scan_kind-KindStep, kind_advance_ok,
}

or_rotate : (a b c : Bool) → Path Bool (a || (b || c)) ((b || a) || c)
or_rotate true true c = refl
or_rotate true false c = refl
or_rotate false true c = refl
or_rotate false false c = refl

pub or_false : (a : Bool) → Path Bool (a || false) a
or_false true = refl
or_false false = refl

module _ (find_program_address : FindProgramAddress) (expected_marker lp_mint pool : ℕ) where
  abbrev kind : AccountInfo → AccountKind
  kind a = kind_of find_program_address expected_marker a

  abbrev advance : AccountInfo → LockerScan → LockerScan
  advance a s = kind_advance find_program_address expected_marker lp_mint pool (kind a) a s

  -- What one account adds to each variable.
  record Advanced (k : AccountKind) (a : AccountInfo) (s t : LockerScan) : Type 0 where
    present : t.marker_present_on_chain ≡ (
        kind_presents find_program_address expected_marker lp_mint pool k
        || s.marker_present_on_chain)
    supplied :
        t.marker_supplied
        ≡ (kind_supplies find_program_address expected_marker lp_mint pool k a || s.marker_supplied)
    locks :
        t.locks_seen ≡ s.locks_seen + kind_locks find_program_address expected_marker lp_mint pool k
    total :
        t.total_locked
        ≡ s.total_locked + kind_amount find_program_address expected_marker lp_mint pool k a

  kind_advance-Advanced :
      (k : AccountKind) (a : AccountInfo) (s : LockerScan)
      → Advanced k a s (kind_advance find_program_address expected_marker lp_mint pool k a s)
  kind_advance-Advanced absent a s = record {
    present = refl;
    supplied = refl;
    locks = omega arith;
    total = omega arith;
  }
  kind_advance-Advanced foreign a s = record {
    present = refl;
    supplied = refl;
    locks = omega arith;
    total = omega arith;
  }
  kind_advance-Advanced marker a s = record {
    present = refl;
    supplied = refl;
    locks = omega arith;
    total = omega arith;
  }
  kind_advance-Advanced lock a s = record {
    present = refl;
    supplied = refl;
    locks = omega arith;
    total = omega arith;
  }

  -- What the whole loop did.
  pub record Swept (accounts : List AccountInfo) (s u : LockerScan) : Type 0 where
    pub admissible : All (IsAdmissible find_program_address expected_marker lp_mint pool) accounts
    pub present : u.marker_present_on_chain ≡ (
        has_marker find_program_address expected_marker lp_mint pool accounts
        || s.marker_present_on_chain)
    pub supplied : u.marker_supplied ≡ (
        names_marker find_program_address expected_marker lp_mint pool accounts
        || s.marker_supplied)
    pub locks :
        u.locks_seen
        ≡ s.locks_seen + lock_count find_program_address expected_marker lp_mint pool accounts
    pub total :
        u.total_locked
        ≡ s.total_locked + lock_total find_program_address expected_marker lp_mint pool accounts
    pub few : u.locks_seen < u32_mod
    pub fits : u.total_locked < u64_mod

  pub scan_accounts-Swept :
      (accounts : List AccountInfo) (s u : LockerScan)
      → s.locks_seen < u32_mod
      → s.total_locked < u64_mod
      → scan_accounts find_program_address expected_marker lp_mint pool accounts s ≡ ok u
      → Swept accounts s u
  unfolding scan_accounts
  scan_accounts-Swept [] s u few fits h =
      let e : s ≡ u = cc in
      subst (Swept [] s) e (record {
        admissible = tt;
        present = refl;
        supplied = refl;
        locks = omega arith;
        total = omega arith;
        few = few;
        fits = fits;
      })
  scan_accounts-Swept (a ∷ rest) s u few fits h =
      bind_ok (scan_kind find_program_address (kind a) expected_marker lp_mint pool a s) _ h
        λ t ft h1.
          let step =
            scan_kind-KindStep find_program_address expected_marker lp_mint pool (kind a) a s t few
              fits ft in
          let ih = scan_accounts-Swept rest t u step.few step.fits h1 in
          let fields : Advanced (kind a) a s t =
            subst (Advanced (kind a) a s) (sym step.advances)
              (kind_advance-Advanced (kind a) a s) in
          record {
            admissible = (step.admits, ih.admissible);
            present =
                ih.present
                ∙ rw fields.present (
                    or_rotate (has_marker find_program_address expected_marker lp_mint pool rest)
                      (kind_presents find_program_address expected_marker lp_mint pool (kind a))
                      s.marker_present_on_chain);
            supplied =
                ih.supplied
                ∙ rw fields.supplied (
                    or_rotate (names_marker find_program_address expected_marker lp_mint pool rest)
                      (kind_supplies find_program_address expected_marker lp_mint pool (kind a) a)
                      s.marker_supplied);
            locks = omega (arith, ih.locks, fields.locks);
            total = omega (arith, ih.total, fields.total);
            few = ih.few;
            fits = ih.fits;
          }

  pub scan_accounts_ok :
      (accounts : List AccountInfo) (s : LockerScan)
      → All (IsAdmissible find_program_address expected_marker lp_mint pool) accounts
      → s.locks_seen + lock_count find_program_address expected_marker lp_mint pool accounts
        < u32_mod
      → s.total_locked + lock_total find_program_address expected_marker lp_mint pool accounts
        < u64_mod
      → (u : LockerScan) × (scan_accounts find_program_address expected_marker lp_mint pool accounts
            s
          ≡ ok u)
  unfolding scan_accounts
  scan_accounts_ok [] s admits few fits = (s, refl)
  scan_accounts_ok (a ∷ rest) s (admits, more) few fits =
      let fields = kind_advance-Advanced (kind a) a s in
      let step =
        kind_advance_ok find_program_address expected_marker lp_mint pool (kind a) a s admits
          (omega arith) (omega arith) in
      let (u, ih) =
        scan_accounts_ok rest (advance a s) more (omega (arith, fields.locks))
          (omega (arith, fields.total)) in
      (u, rw step ih)
