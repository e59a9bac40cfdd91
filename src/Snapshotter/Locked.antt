-- ===== src/Snapshotter/Locked.antt =====
-- snapshotter/src/locked.rs and snapshotter/src/source.rs: the parsing of the locker's accounts, and
-- the in-memory sources. `Pubkey::find_program_address` is the parameter `pda`.
use graveyield_protocol.Prelude.{
  ℕ, ◌+◌, ◌<◌, true, u32_mod, u64_mod, bind_ok, arith, ◌≡◌, ◌↔◌, refl, sym, ap, ◌∙◌, Bool, ◌&&◌,
  List, [], ◌∷◌, length, ltb, leb, ◌==◌, ==→eq, ==_refl, if◌then◌else◌, slice, le_value, le_bytes,
  key_of_bytes, Result, ok, err, ◌>>◌, require, require_ok,
}
use mathlib.Core.Path.{subst}
use graveyield_protocol.Vault.Cpi.{AccountInfo}
use graveyield_protocol.Scanner.Adapters.Locker.{
  FindProgramAddress, LockerScan, lock, kind_of, scan_kind, scan_accounts,
}
use graveyield_protocol.Scanner.Adapters.Locker.Accounts.{is_lock, kind-lock}
use graveyield_protocol.Scanner.Adapters.Locker.Evidence.{
  IsTokenLock, KindAdmits, scan_kind-KindStep, kind_advance_ok,
}
use graveyield_protocol.Snapshotter.Model.{SnapshotError, lock_record_invalid, source}
use graveyield_protocol.Snapshotter.Builder.{
  TokenLockRecord, TokenAccountSnapshot, LpAccountSource, LockedLpEvidence,
}

-- The crate's own copies of the locker's constants.
abbrev uncx_program : ℕ
uncx_program = 0xebcad5b5a3869c094b749546e7981be86f0801540a861e7a1c930f69ccb19b6e

abbrev uncx_token_lock_disc : ℕ
uncx_token_lock_disc = 0x49e490f19a2c5dee

abbrev uncx_token_lock_seed : List ℕ
uncx_token_lock_seed = 117 ∷ 110 ∷ 99 ∷ 120 ∷ 95 ∷ 108 ∷ 111 ∷ 99 ∷ 107 ∷ 101 ∷ 114 ∷ []

abbrev uncx_token_lock_size : ℕ
uncx_token_lock_size = 146

abbrev uncx_amm_id : ℕ
uncx_amm_id = 9

abbrev uncx_lp_mint : ℕ
uncx_lp_mint = 41

abbrev uncx_lock_global_id : ℕ
uncx_lock_global_id = 73

abbrev uncx_current_locked_amount : ℕ
uncx_current_locked_amount = 106

abbrev uncx_lock_owner : ℕ
uncx_lock_owner = 114

module _ (pda : FindProgramAddress) where
  unfoldable pub uncx_token_lock_address : ℕ → ℕ
  uncx_token_lock_address lock_global_id =
      pda (uncx_token_lock_seed ∷ le_bytes 8 lock_global_id ∷ []) uncx_program

  -- `TokenLockRecord::parse`, on an address and its data.
  unfoldable pub parse_token_lock : ℕ → List ℕ → ℕ → ℕ → Result SnapshotError TokenLockRecord
  unfolding uncx_token_lock_address
  parse_token_lock address d amm_id lp_mint =
      let lock_global_id = le_value (slice d uncx_lock_global_id 8) in
      do
        require (length d == uncx_token_lock_size) lock_record_invalid
        require (key_of_bytes (slice d 0 8) == uncx_token_lock_disc) lock_record_invalid
        require (address == uncx_token_lock_address lock_global_id) lock_record_invalid
        require (key_of_bytes (slice d uncx_amm_id 32) == amm_id) lock_record_invalid
        require (key_of_bytes (slice d uncx_lp_mint 32) == lp_mint) lock_record_invalid
        ok (record {
          address = address;
          lock_global_id = lock_global_id;
          current_locked_amount = le_value (slice d uncx_current_locked_amount 8);
          lock_owner = key_of_bytes (slice d uncx_lock_owner 32);
        })

  -- The record of an account that is a lock.
  abbrev pub lock_record : AccountInfo → TokenLockRecord
  lock_record a = record {
    address = a.key;
    lock_global_id = le_value (slice a.bytes 73 8);
    current_locked_amount = le_value (slice a.bytes 106 8);
    lock_owner = key_of_bytes (slice a.bytes 114 32);
  }

  parsed :
      (marker mint pool : ℕ) (a : AccountInfo) (r : TokenLockRecord)
      → parse_token_lock a.key a.bytes pool mint ≡ ok r
      → IsTokenLock pda marker mint pool a × (r ≡ lock_record a)
  unfolding parse_token_lock
  parsed marker mint pool a r h =
      let d = a.bytes in
      require_ok (length d == uncx_token_lock_size) _ _ h λ c1 h1.
        require_ok (key_of_bytes (slice d 0 8) == uncx_token_lock_disc) _ _ h1 λ c2 h2.
          require_ok (a.key == uncx_token_lock_address (le_value (slice d 73 8))) _ _ h2 λ c3 h3.
            require_ok (key_of_bytes (slice d 9 32) == pool) _ _ h3 λ c4 h4.
              require_ok (key_of_bytes (slice d 41 32) == mint) _ _ h4 λ c5 h5.
                let made : lock_record a ≡ r = cc in
                (
                  record {
                    size = ==→eq _ _ c1;
                    disc = ==→eq _ _ c2;
                    address = ==→eq _ _ c3;
                    of_pool = ==→eq _ _ c4;
                    of_mint = ==→eq _ _ c5;
                  },
                  sym made,
                )

  parses :
      (marker mint pool : ℕ) (a : AccountInfo)
      → IsTokenLock pda marker mint pool a
      → parse_token_lock a.key a.bytes pool mint ≡ ok (lock_record a)
  unfolding parse_token_lock
  parses marker mint pool a l =
      rw
        (
          l.size,
          l.disc,
          l.of_pool,
          l.of_mint,
          ← l.address,
          ==_refl a.key,
          ==_refl pool,
          ==_refl mint,
        )
        refl

  -- The adapter's loop on one account that counts as a lock.
  counted : LockerScan → ℕ → LockerScan
  counted s amount = record s {
    locks_seen = s.locks_seen + 1;
    total_locked = s.total_locked + amount;
  }

  adapter_counts :
      (marker mint pool : ℕ) (a : AccountInfo) (s : LockerScan)
      → is_lock pda marker mint pool a ≡ true
      → s.locks_seen + 1 < u32_mod
      → s.total_locked + le_value (slice a.bytes 106 8) < u64_mod
      → IsTokenLock pda marker mint pool a
      → scan_accounts pda marker mint pool (a ∷ []) s
        ≡ ok (counted s (le_value (slice a.bytes 106 8)))
  unfolding scan_accounts counted
  adapter_counts marker mint pool a s of_locker few fits l =
      let branch = kind-lock pda marker mint pool a of_locker in
      rw (branch, kind_advance_ok pda marker mint pool lock a s l few fits) refl

  adapter_counted :
      (marker mint pool : ℕ) (a : AccountInfo) (s u : LockerScan)
      → is_lock pda marker mint pool a ≡ true
      → s.locks_seen + 1 < u32_mod
      → s.total_locked + le_value (slice a.bytes 106 8) < u64_mod
      → scan_accounts pda marker mint pool (a ∷ []) s ≡ ok u
      → IsTokenLock pda marker mint pool a
  unfolding scan_accounts
  adapter_counted marker mint pool a s u of_locker few fits h =
      let branch = kind-lock pda marker mint pool a of_locker in
      bind_ok (scan_kind pda (kind_of pda marker a) marker mint pool a s) _ h λ t ft h1.
        let step =
          scan_kind-KindStep pda marker mint pool (kind_of pda marker a) a s t (omega (arith, few))
            (omega (arith, fits)) ft in
        subst (λ k. KindAdmits pda marker mint pool k a) branch step.admits

  -- The snapshotter and the scanner agree on locks. On an account that exists, that the locker's
  -- program owns and that is not at the marker's address, and where the count and the sum stay
  -- within their words: the snapshotter parses a record for a pool and mint exactly where the
  -- adapter's loop accepts the account for them, as one more lock with the record's amount; and the
  -- record then has the account's key, and the id, the amount and the owner in its bytes.
  pub parse_iff_IsTokenLock :
      (marker mint pool : ℕ) (a : AccountInfo) (s : LockerScan) (r : TokenLockRecord)
      → is_lock pda marker mint pool a ≡ true
      → s.locks_seen + 1 < u32_mod
      → s.total_locked + le_value (slice a.bytes 106 8) < u64_mod
      → (parse_token_lock a.key a.bytes pool mint ≡ ok r) ↔ (
          (scan_accounts pda marker mint pool (a ∷ []) s
            ≡ ok (record s {
              locks_seen = s.locks_seen + 1;
              total_locked = s.total_locked + r.current_locked_amount;
            }))
          × (r ≡ lock_record a))
  unfolding counted
  parse_iff_IsTokenLock marker mint pool a s r of_locker few fits = (
    λ h.
        let (l, same) = parsed marker mint pool a r h in
        let amount : r.current_locked_amount ≡ le_value (slice a.bytes 106 8) =
          ap (λ x. x.current_locked_amount) same in
        (rw amount (adapter_counts marker mint pool a s of_locker few fits l), same),
    λ (h, same).
        parses marker mint pool a (adapter_counted marker mint pool a s _ of_locker few fits h)
        ∙ ap ok (sym same),
  )

-- The in-memory source of one mint.
pub record InMemorySource : Type 0 where
  pub mint : ℕ
  pub slot : ℕ
  pub supply : ℕ
  pub accounts : List TokenAccountSnapshot

unfoldable pub in_memory_source : InMemorySource → LpAccountSource
in_memory_source s = record {
  lp_mint_supply = λ lp_mint.
      if lp_mint == s.mint then ok (record { amount = s.supply; slot = s.slot }) else err source;
  token_accounts = λ lp_mint. if lp_mint == s.mint then ok s.accounts else err source;
}

pub record InMemoryLocks : Type 0 where
  pub amm_id : ℕ
  pub lp_mint : ℕ
  pub records : List TokenLockRecord

-- The derived order of records: by the fields in their order.
abbrev before : TokenLockRecord → TokenLockRecord → Bool
before r x =
    if r.address == x.address
    then (if r.lock_global_id == x.lock_global_id
        then (if r.current_locked_amount == x.current_locked_amount
            then leb r.lock_owner x.lock_owner
            else ltb r.current_locked_amount x.current_locked_amount)
        else ltb r.lock_global_id x.lock_global_id)
    else ltb r.address x.address

abbrev insert_in_order : TokenLockRecord → List TokenLockRecord → List TokenLockRecord
insert_in_order r [] = r ∷ []
insert_in_order r (x ∷ xs) =
    let later = x ∷ insert_in_order r xs in if before r x then r ∷ x ∷ xs else later

unfoldable pub sorted_records : List TokenLockRecord → List TokenLockRecord
sorted_records [] = []
sorted_records (r ∷ rs) = insert_in_order r (sorted_records rs)

unfoldable pub in_memory_locks : InMemoryLocks → LockedLpEvidence
unfolding sorted_records
in_memory_locks l = record {
  token_locks = λ amm_id lp_mint.
      if amm_id == l.amm_id && lp_mint == l.lp_mint
      then ok (sorted_records l.records)
      else err source;
}
