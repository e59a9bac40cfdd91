-- ===== src/Scanner/Adapters/Locker.antt =====
-- programs/grave-scanner/src/adapters/locker.rs: how much of a pool's LP the supported locker holds,
-- from the submitted accounts. `Pubkey::find_program_address` is a parameter, on seeds and program.
pub mod Evidence
pub mod Accounts
pub mod Loop
pub mod Refinement
use graveyield_protocol.Prelude.{
  ℕ, ◌+◌, ◌<◌, ◌≡◌, Bool, true, false, not, ◌&&◌, ◌||◌, List, [], ◌∷◌, length, ltb, ◌==◌,
  if◌then◌else◌, slice, le_value, le_bytes, key_bytes, key_of_bytes, u32_mod, u64_mod, checked_add,
  Result, ok, err, ◌>>=◌, ◌>>◌, require, ok_or,
}
use graveyield_protocol.Vault.Cpi.{AccountInfo}
use graveyield_protocol.Scanner.Errors.{
  ScannerFailure, program, invalid_locker_account, locker_account_mismatch, math_overflow,
  locker_marker_account_required, locker_lock_evidence_required,
}

abbrev pub uncx_program_id : ℕ
uncx_program_id = 0xebcad5b5a3869c094b749546e7981be86f0801540a861e7a1c930f69ccb19b6e

-- The discriminators, as the big-endian values of their eight bytes.
abbrev pub token_lock_disc : ℕ
token_lock_disc = 0x49e490f19a2c5dee

abbrev pub marker_disc : ℕ
marker_disc = 0xc2d588e24a7e7bb2

-- "uncx_locker" and "global_lp_tracker".
abbrev pub token_lock_seed : List ℕ
token_lock_seed = 117 ∷ 110 ∷ 99 ∷ 120 ∷ 95 ∷ 108 ∷ 111 ∷ 99 ∷ 107 ∷ 101 ∷ 114 ∷ []

abbrev pub marker_seed : List ℕ
marker_seed =
    103 ∷ 108 ∷ 111 ∷ 98 ∷ 97 ∷ 108 ∷ 95 ∷ 108 ∷ 112 ∷ 95 ∷ 116 ∷ 114 ∷ 97 ∷ 99 ∷ 107 ∷ 101 ∷ 114
    ∷ []

abbrev pub token_lock_size : ℕ
token_lock_size = 146

abbrev pub marker_size : ℕ
marker_size = 9

abbrev pub amm_id_offset : ℕ
amm_id_offset = 9

abbrev pub lock_lp_mint_offset : ℕ
lock_lp_mint_offset = 41

abbrev pub lock_global_id_offset : ℕ
lock_global_id_offset = 73

abbrev pub current_locked_amount_offset : ℕ
current_locked_amount_offset = 106

-- The four variables of the loop.
pub record LockerScan : Type 0 where
  pub marker_present_on_chain : Bool
  pub marker_supplied : Bool
  pub locks_seen : ℕ
  pub total_locked : ℕ

-- The four ways through the loop's body, up to its checks.
pub data AccountKind : Type 0 where
  absent foreign marker lock : AccountKind

abbrev pub FindProgramAddress : Type 0
FindProgramAddress = List (List ℕ) → ℕ → ℕ

module _ (find_program_address : FindProgramAddress) where
  unfoldable pub token_lock_address : ℕ → ℕ
  token_lock_address lock_global_id =
      find_program_address (token_lock_seed ∷ le_bytes 8 lock_global_id ∷ []) uncx_program_id

  unfoldable pub marker_address : ℕ → ℕ
  marker_address amm_id = find_program_address (marker_seed ∷ key_bytes amm_id ∷ []) uncx_program_id

  -- The conditions of the loop's three branches, in their order.
  unfoldable pub kind_of : ℕ → AccountInfo → AccountKind
  kind_of expected_marker account =
      if length account.bytes == 0 && account.lamports == 0
      then absent
      else (if not (account.owner == uncx_program_id)
          then foreign
          else (if account.key == expected_marker then marker else lock))

  -- The branches' bodies.
  unfoldable pub scan_kind :
      AccountKind → ℕ → ℕ → ℕ → AccountInfo → LockerScan → Result ScannerFailure LockerScan
  unfolding token_lock_address
  scan_kind absent expected_marker lp_mint pool account s =
      ok (if account.key == expected_marker then record s { marker_supplied = true } else s)
  scan_kind foreign expected_marker lp_mint pool account s = ok s
  scan_kind marker expected_marker lp_mint pool account s = do
    require (length account.bytes == marker_size) (program invalid_locker_account)
    require (key_of_bytes (slice account.bytes 0 8) == marker_disc) (program invalid_locker_account)
    ok (record s { marker_supplied = true; marker_present_on_chain = true })
  scan_kind lock expected_marker lp_mint pool account s =
      let d = account.bytes in
      do
        require (length d == token_lock_size) (program invalid_locker_account)
        require (key_of_bytes (slice d 0 8) == token_lock_disc) (program invalid_locker_account)
        require (account.key == token_lock_address (le_value (slice d lock_global_id_offset 8)))
            (program invalid_locker_account)
        require (key_of_bytes (slice d amm_id_offset 32) == pool) (program locker_account_mismatch)
        require (key_of_bytes (slice d lock_lp_mint_offset 32) == lp_mint)
            (program locker_account_mismatch)
        total ←
            ok_or
              (checked_add u64_mod s.total_locked
                (le_value (slice d current_locked_amount_offset 8)))
              (program math_overflow)
        seen ← ok_or (checked_add u32_mod s.locks_seen 1) (program math_overflow)
        ok (record s { total_locked = total; locks_seen = seen })

  -- The loop over the accounts.
  unfoldable pub scan_accounts :
      ℕ → ℕ → ℕ → List AccountInfo → LockerScan → Result ScannerFailure LockerScan
  unfolding scan_kind kind_of
  scan_accounts expected_marker lp_mint pool [] s = ok s
  scan_accounts expected_marker lp_mint pool (account ∷ rest) s =
      scan_kind (kind_of expected_marker account) expected_marker lp_mint pool account s >>= λ t.
      scan_accounts expected_marker lp_mint pool rest t

  unfoldable pub uncx_locked_lp_amount : ℕ → ℕ → List AccountInfo → Result ScannerFailure ℕ
  unfolding marker_address scan_accounts
  uncx_locked_lp_amount lp_mint pool accounts = do
    s ← scan_accounts (marker_address pool) lp_mint pool accounts (record {
      marker_present_on_chain = false;
      marker_supplied = false;
      locks_seen = 0;
      total_locked = 0;
    })
    require s.marker_supplied (program locker_marker_account_required)
    (if s.marker_present_on_chain
        then require (ltb 0 s.locks_seen) (program locker_lock_evidence_required)
        else require (s.locks_seen == 0) (program invalid_locker_account))
    ok s.total_locked

  unfoldable pub locked_lp_amount : ℕ → ℕ → List AccountInfo → Result ScannerFailure ℕ
  unfolding uncx_locked_lp_amount
  locked_lp_amount lp_mint pool accounts = uncx_locked_lp_amount lp_mint pool accounts
