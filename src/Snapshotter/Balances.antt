-- ===== src/Snapshotter/Balances.antt =====
-- `BTreeMap<Pubkey, u64>` as snapshotter/src/builder.rs uses it: the entries in the order of their
-- keys, each key once.
pub mod Laws
use graveyield_protocol.Prelude.{
  ℕ, Bool, true, false, ◌||◌, Option, none, some, List, [], ◌∷◌, ltb, ◌==◌, if◌then◌else◌, u64_mod,
  checked_add,
}
use graveyield_protocol.Snapshotter.Model.{HolderEntry}

abbrev pub entry : ℕ → ℕ → HolderEntry
entry owner lp_balance = record { owner = owner; lp_balance = lp_balance }

-- A new entry in front, where its balance is there.
abbrev put_entry : ℕ → Option ℕ → List HolderEntry → Option (List HolderEntry)
put_entry owner none rest = none
put_entry owner (some v) rest = some (entry owner v ∷ rest)

abbrev keep : HolderEntry → Option (List HolderEntry) → Option (List HolderEntry)
keep e none = none
keep e (some rest) = some (e ∷ rest)

-- `*map.entry(owner).or_insert(0)` with `checked_add` of an amount; `none` is its overflow.
unfoldable pub add_balance : ℕ → ℕ → List HolderEntry → Option (List HolderEntry)
add_balance owner amount [] = put_entry owner (checked_add u64_mod 0 amount) []
add_balance owner amount (e ∷ es) =
    let later = add_balance owner amount es in
    if ltb owner e.owner
    then put_entry owner (checked_add u64_mod 0 amount) (e ∷ es)
    else (if owner == e.owner
        then put_entry owner (checked_add u64_mod e.lp_balance amount) es
        else keep e later)

unfoldable pub contains_key : ℕ → List HolderEntry → Bool
contains_key owner [] = false
contains_key owner (e ∷ es) = e.owner == owner || contains_key owner es

-- `map.remove(owner)`: the map without the entry, if it was there.
unfoldable pub remove_key : ℕ → List HolderEntry → Option (List HolderEntry)
remove_key owner [] = none
remove_key owner (e ∷ es) =
    let later = remove_key owner es in if e.owner == owner then some es else keep e later
