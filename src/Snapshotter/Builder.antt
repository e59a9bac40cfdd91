-- ===== src/Snapshotter/Builder.antt =====
-- snapshotter/src/builder.rs with the types of snapshotter/src/model.rs: the pipeline from the token
-- accounts of an LP mint to the leaf set. The two traits of snapshotter/src/{source,locked}.rs are
-- records of functions. As in a release build, `debug_assert_eq!` tests nothing.
pub mod Aggregate
pub mod Ledger
pub mod Custody
pub mod Sealed
use graveyield_protocol.Prelude.{
  ℕ, ◌+◌, Bool, true, false, not, ◌||◌, Option, none, some, List, [], ◌∷◌, length, leb, ltb, ◌==◌,
  if◌then◌else◌, u64_mod, u128_mod, checked_add, Result, ok, err, ◌>>=◌, ◌>>◌, require, ok_or,
}
use graveyield_protocol.Snapshotter.Model.{
  SnapshotError, overflow, supply_mismatch, custody_not_found, custody_ambiguous,
  lock_owner_is_custody, custody_excluded_as_sink, invariant_violated, HolderEntry,
  validate_entries,
}
use graveyield_protocol.Snapshotter.Balances.{entry, add_balance, contains_key, remove_key}

pub data ExclusionReason : Type 0 where
  zero_balance explicit_sink : ExclusionReason

pub record ExcludedBalance : Type 0 where
  pub owner : ℕ
  pub lp_balance : ℕ
  pub reason : ExclusionReason

pub record TokenAccountSnapshot : Type 0 where
  pub address : ℕ
  pub owner : ℕ
  pub amount : ℕ

pub record MintSupply : Type 0 where
  pub amount : ℕ
  pub slot : ℕ

pub record TokenLockRecord : Type 0 where
  pub address : ℕ
  pub lock_global_id : ℕ
  pub current_locked_amount : ℕ
  pub lock_owner : ℕ

pub data CustodyMatchMethod : Type 0 where
  exact_balance_match explicit_override : CustodyMatchMethod

pub record CustodyResolution : Type 0 where
  pub token_account : ℕ
  pub owner : ℕ
  pub balance : ℕ
  pub method : CustodyMatchMethod

pub record LockedReport : Type 0 where
  pub lock_records_seen : ℕ
  pub total_locked : ℕ
  pub attributions : List HolderEntry
  pub custody : Option CustodyResolution

pub record Reconciliation : Type 0 where
  pub enumerated_total : ℕ
  pub entries_total : ℕ
  pub sink_exclusions_total : ℕ

pub record LpSnapshot : Type 0 where
  pub pool_address : ℕ
  pub amm_program_id : ℕ
  pub lp_mint : ℕ
  pub snapshot_slot : ℕ
  pub lp_total_supply_at_snapshot : ℕ
  pub entries : List HolderEntry
  pub exclusions : List ExcludedBalance
  pub locked : LockedReport
  pub reconciliation : Reconciliation

pub record SnapshotRequest : Type 0 where
  pub pool_address : ℕ
  pub amm_program_id : ℕ
  pub lp_mint : ℕ
  pub sink_exclusions : List ℕ
  pub custody_owner_overrides : List ℕ

pub record LpAccountSource : Type 0 where
  pub lp_mint_supply : ℕ → Result SnapshotError MintSupply
  pub token_accounts : ℕ → Result SnapshotError (List TokenAccountSnapshot)

-- The pool, then the mint.
pub record LockedLpEvidence : Type 0 where
  pub token_locks : ℕ → ℕ → Result SnapshotError (List TokenLockRecord)

-- Membership in the set of a list.
abbrev pub contains : List ℕ → ℕ → Bool
contains [] k = false
contains (x ∷ xs) k = x == k || contains xs k

unfoldable pub to_u64 : ℕ → Result SnapshotError ℕ
to_u64 value = if ltb value u64_mod then ok value else err overflow

-- The sum in u128 of the accounts' amounts, and of the entries' balances.
unfoldable pub sum_amounts : List TokenAccountSnapshot → ℕ → Result SnapshotError ℕ
sum_amounts [] sum = ok sum
sum_amounts (a ∷ rest) sum = ok_or (checked_add u128_mod sum a.amount) overflow >>= sum_amounts rest

unfoldable pub sum_entries : List HolderEntry → ℕ → Result SnapshotError ℕ
sum_entries [] sum = ok sum
sum_entries (e ∷ rest) sum =
    ok_or (checked_add u128_mod sum e.lp_balance) overflow >>= sum_entries rest

-- Step 4: the balances by owner.
unfoldable pub aggregate :
    List TokenAccountSnapshot → List HolderEntry → Result SnapshotError (List HolderEntry)
aggregate [] per_owner = ok per_owner
aggregate (a ∷ rest) per_owner =
    ok_or (add_balance a.owner a.amount per_owner) overflow >>= aggregate rest

-- What step 5 gives: the two ledgers and the sum of the sinks.
pub record Excluded : Type 0 where
  pub exclusions : List ExcludedBalance
  pub sink_total : ℕ
  pub claimable : List HolderEntry

abbrev pub exclude : ExcludedBalance → Excluded → Excluded
exclude x r = record r { exclusions = x ∷ r.exclusions }

abbrev pub claim : HolderEntry → Excluded → Excluded
claim e r = record r { claimable = e ∷ r.claimable }

abbrev pub excluded : HolderEntry → ExclusionReason → ExcludedBalance
excluded e reason = record { owner = e.owner; lp_balance = e.lp_balance; reason = reason }

-- Step 5, over the owners in ascending order: what it pushes and inserts it lists in that order.
unfoldable pub exclusion_pass : List ℕ → List HolderEntry → ℕ → Result SnapshotError Excluded
exclusion_pass sinks [] sink_total =
    ok (record { exclusions = []; sink_total = sink_total; claimable = [] })
exclusion_pass sinks (e ∷ rest) sink_total = elim (e.lp_balance == 0) [
  | true ↦ exclusion_pass sinks rest sink_total >>= λ r. ok (exclude (excluded e zero_balance) r)
  | false ↦ elim (contains sinks e.owner) [
    | true ↦ ok_or (checked_add u128_mod sink_total e.lp_balance) overflow >>= λ t.
        exclusion_pass sinks rest t >>= λ r. ok (exclude (excluded e explicit_sink) r)
    | false ↦ exclusion_pass sinks rest sink_total >>= λ r. ok (claim e r)
  ]
]

-- `sort_by` of the address, which is stable.
unfoldable pub insert_record : TokenLockRecord → List TokenLockRecord → List TokenLockRecord
insert_record r [] = r ∷ []
insert_record r (x ∷ xs) =
    let later = x ∷ insert_record r xs in if leb r.address x.address then r ∷ x ∷ xs else later

unfoldable pub sort_records : List TokenLockRecord → List TokenLockRecord
unfolding insert_record
sort_records [] = []
sort_records (r ∷ rs) = insert_record r (sort_records rs)

-- The first part of step 6: the attributions and the locked total.
pub record Attributed : Type 0 where
  pub attributions : List HolderEntry
  pub total_locked : ℕ

unfoldable pub attribute : List TokenLockRecord → Attributed → Result SnapshotError Attributed
attribute [] t = ok t
attribute (r ∷ rest) t =
    ok_or (checked_add u128_mod t.total_locked r.current_locked_amount) overflow >>= λ total.
    ok_or (add_balance r.lock_owner r.current_locked_amount t.attributions) overflow >>= λ m.
    attribute rest (record { attributions = m; total_locked = total })

-- The accounts that hold the locked total, and those of them whose owner an override lists.
unfoldable pub holding : List TokenAccountSnapshot → ℕ → List TokenAccountSnapshot
holding [] total = []
holding (a ∷ rest) total =
    let later = holding rest total in if a.amount == total then a ∷ later else later

unfoldable pub overridden : List TokenAccountSnapshot → List ℕ → List TokenAccountSnapshot
overridden [] overrides = []
overridden (a ∷ rest) overrides =
    let later = overridden rest overrides in if contains overrides a.owner then a ∷ later else later

pub record Chosen : Type 0 where
  pub account : TokenAccountSnapshot
  pub method : CustodyMatchMethod

abbrev only_override : ℕ → ℕ → List TokenAccountSnapshot → Result SnapshotError Chosen
only_override locked_total candidates (a ∷ []) =
    ok (record { account = a; method = explicit_override })
only_override locked_total candidates [] = err (custody_ambiguous locked_total candidates)
only_override locked_total candidates (a ∷ b ∷ rest) =
    err (custody_ambiguous locked_total candidates)

-- The `match` on the number of candidates.
unfoldable pub choose_custody : List TokenAccountSnapshot → List ℕ → ℕ → Result SnapshotError Chosen
unfolding overridden
choose_custody [] overrides locked_total = err (custody_not_found locked_total)
choose_custody (a ∷ []) overrides locked_total =
    ok (record { account = a; method = exact_balance_match })
choose_custody (a ∷ b ∷ rest) overrides locked_total =
    only_override locked_total (length (a ∷ b ∷ rest)) (overridden (a ∷ b ∷ rest) overrides)

-- The second part of step 6: what is left of the claimable balances, and the custody account.
pub record Lifted : Type 0 where
  pub claimable : List HolderEntry
  pub custody : Option CustodyResolution

-- Where something is locked.
unfoldable pub resolve_custody :
    SnapshotRequest
    → List TokenAccountSnapshot
    → Attributed
    → List HolderEntry
    → Result SnapshotError Lifted
unfolding to_u64 holding choose_custody contains_key
resolve_custody request accounts t claimable = do
  locked_total ← to_u64 t.total_locked
  chosen ←
      choose_custody (holding accounts t.total_locked) request.custody_owner_overrides locked_total
  require (not (contains_key chosen.account.owner t.attributions)) lock_owner_is_custody
  rest ← ok_or (remove_key chosen.account.owner claimable) custody_excluded_as_sink
  ok (record {
    claimable = rest;
    custody = some (record {
      token_account = chosen.account.address;
      owner = chosen.account.owner;
      balance = chosen.account.amount;
      method = chosen.method;
    });
  })

unfoldable pub lift_custody :
    SnapshotRequest
    → List TokenAccountSnapshot
    → Attributed
    → List HolderEntry
    → Result SnapshotError Lifted
unfolding resolve_custody
lift_custody request accounts t claimable =
    if ltb 0 t.total_locked
    then resolve_custody request accounts t claimable
    else ok (record { claimable = claimable; custody = none })

-- Step 7: the attributions go into the claimable balances.
unfoldable pub merge : List HolderEntry → List HolderEntry → Result SnapshotError (List HolderEntry)
merge [] claimable = ok claimable
merge (e ∷ rest) claimable =
    ok_or (add_balance e.owner e.lp_balance claimable) overflow >>= merge rest

-- The whole pipeline. The sum of the two totals is far below the range of u128.
unfoldable pub build :
    SnapshotRequest → LpAccountSource → LockedLpEvidence → Result SnapshotError LpSnapshot
unfolding sum_amounts to_u64 aggregate exclusion_pass sort_records attribute lift_custody merge
    sum_entries
build request source locks = do
  supply ← source.lp_mint_supply request.lp_mint
  accounts ← source.token_accounts request.lp_mint
  enumerated ← sum_amounts accounts 0
  (if enumerated == supply.amount
      then ok tt
      else (to_u64 enumerated >>= λ n. err (supply_mismatch supply.amount n)))
  per_owner ← aggregate accounts []
  x ← exclusion_pass request.sink_exclusions per_owner 0
  records ← locks.token_locks request.pool_address request.lp_mint
  t ← attribute (sort_records records) (record { attributions = []; total_locked = 0 })
  lifted ← lift_custody request accounts t x.claimable
  entries ← merge t.attributions lifted.claimable
  entries_total ← sum_entries entries 0
  require (entries_total + x.sink_total == enumerated) invariant_violated
  total_locked ← to_u64 t.total_locked
  enumerated_u64 ← to_u64 enumerated
  entries_u64 ← to_u64 entries_total
  sinks_u64 ← to_u64 x.sink_total
  validate_entries entries
  ok (record {
    pool_address = request.pool_address;
    amm_program_id = request.amm_program_id;
    lp_mint = request.lp_mint;
    snapshot_slot = supply.slot;
    lp_total_supply_at_snapshot = supply.amount;
    entries = entries;
    exclusions = x.exclusions;
    locked = record {
      lock_records_seen = length records;
      total_locked = total_locked;
      attributions = t.attributions;
      custody = lifted.custody;
    };
    reconciliation = record {
      enumerated_total = enumerated_u64;
      entries_total = entries_u64;
      sink_exclusions_total = sinks_u64;
    };
  })
