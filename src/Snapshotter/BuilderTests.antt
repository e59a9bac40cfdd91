-- ===== src/Snapshotter/BuilderTests.antt =====
-- A snapshot of five holders with one lock, and the artifact of a single holder.
use graveyield_protocol.Prelude.{
  true, ◌+◌, ◌<◌, slice, u64_mod, arith, ℕ, ◌%◌, ◌^◌, false, ◌≡◌, ◌↔◌, refl, some, [], ◌∷◌, ◌++◌,
  replicate, ok,
}
use graveyield_protocol.Prelude.Bytes.{le_bytes, le_value, key_bytes, key_of_bytes}
use graveyield_protocol.Snapshotter.Model.{validate_entries}
use graveyield_protocol.Snapshotter.Balances.{entry, add_balance, contains_key, remove_key}
use graveyield_protocol.Snapshotter.Builder.{
  TokenAccountSnapshot, TokenLockRecord, SnapshotRequest, LpSnapshot, explicit_sink, zero_balance,
  exact_balance_match, to_u64, sum_amounts, sum_entries, aggregate, exclusion_pass, insert_record,
  sort_records, attribute, holding, overridden, choose_custody, resolve_custody, lift_custody,
  merge, build,
}
use graveyield_protocol.Snapshotter.Builder.Sealed.{IsSnapshot, build-IsSnapshot}
use graveyield_protocol.Snapshotter.Locked.{
  InMemorySource, in_memory_source, InMemoryLocks, in_memory_locks, sorted_records,
  uncx_token_lock_address, parse_token_lock, lock_record, parse_iff_IsTokenLock,
}
use graveyield_protocol.Vault.Merkle.{Hash}
use graveyield_protocol.Vault.Cpi.{AccountInfo}
use graveyield_protocol.Scanner.Adapters.Locker.{FindProgramAddress}
use graveyield_protocol.Snapshotter.Tree.{
  from_entries, levels_from, next_level, hash_pair, compute_leaf, leaf, proof, root, leaf_count,
  tree_depth,
}
use graveyield_protocol.Snapshotter.Artifact.{
  SnapshotArtifact, returned, verify_integrity, check_tree, check_entries, sum_balances,
  check_identity,
}
use graveyield_protocol.Scanner.Adapters.Locker.{LockerScan, scan_accounts}
use graveyield_protocol.Scanner.Adapters.Locker.Accounts.{is_lock}
use graveyield_protocol.Snapshotter.Artifact.Publication.{IsArtifactOf, seal-verify_integrity}
use graveyield_protocol.Snapshotter.Artifact.Published.{IsPublished, verify_integrity-IsPublished}

abbrev request : SnapshotRequest
request = record {
  pool_address = 2;
  amm_program_id = 1;
  lp_mint = 78;
  sink_exclusions = 99 ∷ [];
  custody_owner_overrides = [];
}

abbrev holding_account : (address owner amount : ℕ) → TokenAccountSnapshot
holding_account address owner amount = record { address = address; owner = owner; amount = amount }

abbrev memory : InMemorySource
memory = record {
  mint = 78;
  slot = 5;
  supply = 1000;
  accounts =
      holding_account 1 10 500
      ∷ holding_account 2 20 300
      ∷ holding_account 3 30 40
      ∷ holding_account 4 10 100
      ∷ holding_account 5 99 60
      ∷ holding_account 6 50 0
      ∷ [];
}

abbrev lock_records : InMemoryLocks
lock_records = record {
  amm_id = 2;
  lp_mint = 78;
  records =
      record { address = 18; lock_global_id = 7; current_locked_amount = 30; lock_owner = 20 }
      ∷ record { address = 17; lock_global_id = 6; current_locked_amount = 10; lock_owner = 5 }
      ∷ [];
}

abbrev snapshot : LpSnapshot
snapshot = record {
  pool_address = 2;
  amm_program_id = 1;
  lp_mint = 78;
  snapshot_slot = 5;
  lp_total_supply_at_snapshot = 1000;
  entries = entry 5 10 ∷ entry 10 600 ∷ entry 20 330 ∷ [];
  exclusions =
      record { owner = 50; lp_balance = 0; reason = zero_balance }
      ∷ record { owner = 99; lp_balance = 60; reason = explicit_sink }
      ∷ [];
  locked = record {
    lock_records_seen = 2;
    total_locked = 40;
    attributions = entry 5 10 ∷ entry 20 30 ∷ [];
    custody =
        some (record { token_account = 3; owner = 30; balance = 40; method = exact_balance_match });
  };
  reconciliation = record {
    enumerated_total = 1000;
    entries_total = 940;
    sink_exclusions_total = 60;
  };
}

snapshot_test : build request (in_memory_source memory) (in_memory_locks lock_records) ≡ ok snapshot
unfolding build in_memory_source in_memory_locks sorted_records add_balance contains_key remove_key
    to_u64 sum_amounts sum_entries aggregate exclusion_pass insert_record sort_records attribute
    holding overridden choose_custody resolve_custody lift_custody merge validate_entries
snapshot_test = refl

build-IsSnapshot_example :
    IsSnapshot request (in_memory_source memory) (in_memory_locks lock_records) snapshot
build-IsSnapshot_example =
    build-IsSnapshot request (in_memory_source memory) (in_memory_locks lock_records) snapshot
      snapshot_test

-- An address for each pair of seeds.
abbrev pda : FindProgramAddress
pda [] p = 0
pda (a ∷ []) p = 0
pda (a ∷ b ∷ rest) p = key_of_bytes b

-- The lock of id 6 of 40 LP for the holder 5.
abbrev lock_account : AccountInfo
lock_account = record {
  key = key_of_bytes (le_bytes 8 6);
  owner = 0xebcad5b5a3869c094b749546e7981be86f0801540a861e7a1c930f69ccb19b6e;
  lamports = 1;
  executable = false;
  is_signer = false;
  is_writable = false;
  bytes =
      le_bytes 8 0xee5d2c9af190e449
      ++ (255
          ∷ (key_bytes 2
              ++ (key_bytes 78
                  ++ (le_bytes 8 6 ++ (replicate 25 0 ++ (le_bytes 8 40 ++ key_bytes 5))))));
}

abbrev lock_of_five : TokenLockRecord
lock_of_five = record {
  address = key_of_bytes (le_bytes 8 6);
  lock_global_id = 6;
  current_locked_amount = 40;
  lock_owner = 5;
}

parse_test : parse_token_lock pda lock_account.key lock_account.bytes 2 78 ≡ ok lock_of_five
unfolding parse_token_lock uncx_token_lock_address le_bytes le_value key_bytes key_of_bytes
parse_test = refl

-- Two locks of 7 LP together are counted already.
abbrev two_seen : LockerScan
two_seen = record {
  marker_present_on_chain = true;
  marker_supplied = true;
  locks_seen = 2;
  total_locked = 7;
}

lock_account-is_lock : is_lock pda 3 78 2 lock_account ≡ true
unfolding le_bytes key_bytes key_of_bytes
lock_account-is_lock = refl

lock_account_fits : 7 + le_value (slice lock_account.bytes 106 8) < u64_mod
unfolding le_bytes le_value key_bytes
lock_account_fits = omega arith

parse_iff_IsTokenLock_example :
    (parse_token_lock pda lock_account.key lock_account.bytes 2 78 ≡ ok lock_of_five) ↔ (
      (scan_accounts pda 3 78 2 (lock_account ∷ []) two_seen
        ≡ ok (record two_seen { locks_seen = 2 + 1; total_locked = 7 + 40 }))
      × (lock_of_five ≡ lock_record pda lock_account))
parse_iff_IsTokenLock_example =
    parse_iff_IsTokenLock pda 3 78 2 lock_account two_seen lock_of_five lock_account-is_lock
      (omega arith) lock_account_fits

abbrev toy_hash : Hash
toy_hash xs = le_value xs % 256 ^ 32

abbrev leaf_of : ℕ → ℕ → ℕ
leaf_of = compute_leaf toy_hash

abbrev artifact : SnapshotArtifact
artifact = record {
  format_version = 1;
  pool_address = 2;
  amm_program_id = 1;
  lp_mint = 78;
  snapshot_slot = 5;
  lp_total_supply_at_snapshot = 100;
  merkle_root = hash_pair toy_hash (leaf_of 11 30) (leaf_of 12 60);
  leaf_count = 2;
  tree_depth = 1;
  entries =
      record { owner = 11; lp_balance = 30; leaf = leaf_of 11 30; proof = leaf_of 12 60 ∷ [] }
      ∷ record { owner = 12; lp_balance = 60; leaf = leaf_of 12 60; proof = leaf_of 11 30 ∷ [] }
      ∷ [];
  reconciliation = record {
    enumerated_total = 100;
    entries_total = 90;
    sink_exclusions_total = 10;
  };
}

integrity_test : verify_integrity toy_hash artifact ≡ returned (ok tt)
unfolding verify_integrity check_tree check_entries sum_balances check_identity from_entries
    levels_from next_level hash_pair compute_leaf validate_entries leaf proof root leaf_count
    tree_depth le_bytes le_value key_bytes
integrity_test = refl

verify_integrity-IsPublished_example : IsPublished toy_hash artifact
verify_integrity-IsPublished_example = verify_integrity-IsPublished toy_hash artifact integrity_test

seal-verify_integrity_example : (a : SnapshotArtifact) × IsArtifactOf toy_hash snapshot a
seal-verify_integrity_example =
    seal-verify_integrity toy_hash request (in_memory_source memory) (in_memory_locks lock_records)
      snapshot snapshot_test
