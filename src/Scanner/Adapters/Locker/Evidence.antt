-- ===== src/Scanner/Adapters/Locker/Evidence.antt =====
-- The locker adapter of programs/grave-scanner/src/adapters/locker.rs against a specification that
-- knows no order: what each account must be, and sums over the accounts.
use graveyield_protocol.Prelude.{
  ℕ, ◌+◌, ◌<◌, ◌≡◌, refl, Bool, true, false, ◌||◌, List, [], ◌∷◌, length, ◌==◌, ==→eq, ==_refl,
  checked_add-some, checked_add_fits, inl, inr, Bool-cases, slice, le_value, le_bytes, key_of_bytes,
  u32_mod, u64_mod, checked_add, ok, ok_or_ok, require_ok, arith,
}
use graveyield_protocol.Vault.Cpi.{AccountInfo}
use graveyield_protocol.Scanner.Adapters.Locker.{
  FindProgramAddress, LockerScan, AccountKind, absent, foreign, marker, lock, token_lock_disc,
  marker_disc, token_lock_size, marker_size, token_lock_address, token_lock_seed, uncx_program_id,
  kind_of, scan_kind,
}

module _ (find_program_address : FindProgramAddress) (expected_marker lp_mint pool : ℕ) where
  -- A lock of this pool and this mint, at the address of the id that it declares.
  pub record IsTokenLock (a : AccountInfo) : Type 0 where
    pub size : length a.bytes ≡ 146
    pub disc : key_of_bytes (slice a.bytes 0 8) ≡ 0x49e490f19a2c5dee
    pub address :
        a.key
        ≡ find_program_address
            (token_lock_seed ∷ le_bytes 8 (le_value (slice a.bytes 73 8)) ∷ [])
            uncx_program_id
    pub of_pool : key_of_bytes (slice a.bytes 9 32) ≡ pool
    pub of_mint : key_of_bytes (slice a.bytes 41 32) ≡ lp_mint

  pub record IsMarker (a : AccountInfo) : Type 0 where
    pub size : length a.bytes ≡ 9
    pub disc : key_of_bytes (slice a.bytes 0 8) ≡ 0xc2d588e24a7e7bb2

  abbrev pub KindAdmits : AccountKind → AccountInfo → Type 0
  KindAdmits absent a = Unit
  KindAdmits foreign a = Unit
  KindAdmits marker a = IsMarker a
  KindAdmits lock a = IsTokenLock a

  -- An account that may be submitted: of the locker's accounts only the marker and such locks.
  abbrev pub IsAdmissible : AccountInfo → Type 0
  IsAdmissible a = KindAdmits (kind_of find_program_address expected_marker a) a

  abbrev pub kind_locks : AccountKind → ℕ
  kind_locks absent = 0
  kind_locks foreign = 0
  kind_locks marker = 0
  kind_locks lock = 1

  abbrev pub kind_amount : AccountKind → AccountInfo → ℕ
  kind_amount absent a = 0
  kind_amount foreign a = 0
  kind_amount marker a = 0
  kind_amount lock a = le_value (slice a.bytes 106 8)

  abbrev pub kind_supplies : AccountKind → AccountInfo → Bool
  kind_supplies absent a = a.key == expected_marker
  kind_supplies foreign a = false
  kind_supplies marker a = true
  kind_supplies lock a = false

  abbrev pub kind_presents : AccountKind → Bool
  kind_presents absent = false
  kind_presents foreign = false
  kind_presents marker = true
  kind_presents lock = false

  -- How many locks there are, their sum, and whether the marker's address and the marker are there.
  abbrev pub lock_count : List AccountInfo → ℕ
  lock_count [] = 0
  lock_count (a ∷ rest) =
      kind_locks (kind_of find_program_address expected_marker a) + lock_count rest

  abbrev pub lock_total : List AccountInfo → ℕ
  lock_total [] = 0
  lock_total (a ∷ rest) =
      kind_amount (kind_of find_program_address expected_marker a) a + lock_total rest

  abbrev pub names_marker : List AccountInfo → Bool
  names_marker [] = false
  names_marker (a ∷ rest) =
      kind_supplies (kind_of find_program_address expected_marker a) a || names_marker rest

  abbrev pub has_marker : List AccountInfo → Bool
  has_marker [] = false
  has_marker (a ∷ rest) =
      kind_presents (kind_of find_program_address expected_marker a) || has_marker rest

  -- The variables after an account, and after a list of them.
  abbrev pub kind_advance : AccountKind → AccountInfo → LockerScan → LockerScan
  kind_advance absent a s = record s {
    marker_supplied = a.key == expected_marker || s.marker_supplied;
  }
  kind_advance foreign a s = s
  kind_advance marker a s = record s { marker_supplied = true; marker_present_on_chain = true }
  kind_advance lock a s = record s {
    locks_seen = s.locks_seen + 1;
    total_locked = s.total_locked + le_value (slice a.bytes 106 8);
  }

  pub record KindStep (k : AccountKind) (a : AccountInfo) (s u : LockerScan) : Type 0 where
    pub admits : KindAdmits k a
    pub advances : u ≡ kind_advance k a s
    pub few : u.locks_seen < u32_mod
    pub fits : u.total_locked < u64_mod

  pub scan_kind-KindStep :
      (k : AccountKind) (a : AccountInfo) (s u : LockerScan)
      → s.locks_seen < u32_mod
      → s.total_locked < u64_mod
      → scan_kind find_program_address k expected_marker lp_mint pool a s ≡ ok u
      → KindStep k a s u
  unfolding scan_kind token_lock_address
  scan_kind-KindStep absent a s u few fits h = record {
    admits = tt;
    advances = ground arith;
    few = ground arith;
    fits = ground arith;
  }
  scan_kind-KindStep foreign a s u few fits h = record {
    admits = tt;
    advances = ground arith;
    few = ground arith;
    fits = ground arith;
  }
  scan_kind-KindStep marker a s u few fits h =
      require_ok (length a.bytes == marker_size) _ _ h λ c1 h1.
        require_ok (key_of_bytes (slice a.bytes 0 8) == marker_disc) _ _ h1 λ c2 h2. record {
          admits = record { size = ==→eq _ _ c1; disc = ==→eq _ _ c2 };
          advances = ground arith;
          few = ground arith;
          fits = ground arith;
        }
  scan_kind-KindStep lock a s u few fits h =
      let d = a.bytes in
      let amount = le_value (slice d 106 8) in
      require_ok (length d == token_lock_size) _ _ h λ c1 h1.
        require_ok (key_of_bytes (slice d 0 8) == token_lock_disc) _ _ h1 λ c2 h2.
          require_ok (a.key == token_lock_address find_program_address (le_value (slice d 73 8))) _
            _ h2
            λ c3 h3. require_ok (key_of_bytes (slice d 9 32) == pool) _ _ h3 λ c4 h4.
              require_ok (key_of_bytes (slice d 41 32) == lp_mint) _ _ h4 λ c5 h5.
                ok_or_ok (checked_add u64_mod s.total_locked amount) _ _ h5 λ t ft h6.
                  ok_or_ok (checked_add u32_mod s.locks_seen 1) _ _ h6 λ n fn h7.
                    let et = checked_add-some u64_mod s.total_locked amount t ft in
                    let en = checked_add-some u32_mod s.locks_seen 1 n fn in
                    let eu : record s { total_locked = t; locks_seen = n } ≡ u = cc in
                    record {
                      admits = record {
                        size = ==→eq _ _ c1;
                        disc = ==→eq _ _ c2;
                        address = ==→eq _ _ c3;
                        of_pool = ==→eq _ _ c4;
                        of_mint = ==→eq _ _ c5;
                      };
                      advances = rw (← en.0, ← et.0) (cc);
                      few = rw (← eu) en.1;
                      fits = rw (← eu) et.1;
                    }

  -- An account that is admitted takes the loop on, where the sum and the count fit.
  pub kind_advance_ok :
      (k : AccountKind) (a : AccountInfo) (s : LockerScan)
      → KindAdmits k a
      → s.locks_seen + kind_locks k < u32_mod
      → s.total_locked + kind_amount k a < u64_mod
      → scan_kind find_program_address k expected_marker lp_mint pool a s ≡ ok (kind_advance k a s)
  unfolding scan_kind token_lock_address
  kind_advance_ok absent a s admits few fits = elim (Bool-cases (a.key == expected_marker)) [
    | inl e ↦ rw e refl
    | inr e ↦ rw e refl
  ]
  kind_advance_ok foreign a s admits few fits = refl
  kind_advance_ok marker a s admits few fits = rw (admits.size, admits.disc) refl
  kind_advance_ok lock a s admits few fits =
      rw
        (
          admits.size,
          admits.disc,
          admits.of_pool,
          admits.of_mint,
          ← admits.address,
          checked_add_fits u64_mod s.total_locked (le_value (slice a.bytes 106 8)) fits,
          checked_add_fits u32_mod s.locks_seen 1 few,
          ==_refl a.key,
          ==_refl pool,
          ==_refl lp_mint,
        )
        refl
