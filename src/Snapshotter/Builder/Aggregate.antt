-- ===== src/Snapshotter/Builder/Aggregate.antt =====
-- The sums and the maps of snapshotter/src/builder.rs, against sums over the lists they come from.
use graveyield_protocol.Prelude.{
  ℕ, ◌+◌, ◌≡◌, refl, List, [], ◌∷◌, leb, u128_mod, checked_add, checked_add-some, Bool-cases, inl,
  inr, ok, ok_or_ok, arith,
}
use mathlib.Core.Path.{subst}
use graveyield_protocol.Snapshotter.Model.{overflow, HolderEntry}
use graveyield_protocol.Snapshotter.Balances.{add_balance}
use graveyield_protocol.Snapshotter.Balances.Laws.{
  total_balance, share, balance_of, IsSorted, AddsBalance, add_balance-AddsBalance,
}
use graveyield_protocol.Snapshotter.Builder.{
  TokenAccountSnapshot, TokenLockRecord, Attributed, sum_amounts, sum_entries, aggregate,
  insert_record, sort_records, attribute, merge,
}

-- What the accounts hold, and what those of one owner hold.
abbrev pub total_amount : List TokenAccountSnapshot → ℕ
total_amount [] = 0
total_amount (a ∷ rest) = a.amount + total_amount rest

abbrev pub held : ℕ → List TokenAccountSnapshot → ℕ
held k [] = 0
held k (a ∷ rest) = share a.owner k a.amount + held k rest

-- What the records lock, and what they lock for one owner.
abbrev pub total_records : List TokenLockRecord → ℕ
total_records [] = 0
total_records (r ∷ rest) = r.current_locked_amount + total_records rest

abbrev pub locked_for : ℕ → List TokenLockRecord → ℕ
locked_for k [] = 0
locked_for k (r ∷ rest) = share r.lock_owner k r.current_locked_amount + locked_for k rest

pub sum_amounts-total :
    (accounts : List TokenAccountSnapshot) (s t : ℕ)
    → sum_amounts accounts s ≡ ok t
    → t ≡ s + total_amount accounts
unfolding sum_amounts
sum_amounts-total [] s t h = ground arith
sum_amounts-total (a ∷ rest) s t h =
    ok_or_ok (checked_add u128_mod s a.amount) overflow _ h λ n fn h1.
      let (e, _) = checked_add-some u128_mod s a.amount n fn in
      omega (arith, sum_amounts-total rest n t h1, e)

pub sum_entries-total :
    (es : List HolderEntry) (s t : ℕ) → sum_entries es s ≡ ok t → t ≡ s + total_balance es
unfolding sum_entries
sum_entries-total [] s t h = ground arith
sum_entries-total (a ∷ rest) s t h =
    ok_or_ok (checked_add u128_mod s a.lp_balance) overflow _ h λ n fn h1.
      let (e, _) = checked_add-some u128_mod s a.lp_balance n fn in
      omega (arith, sum_entries-total rest n t h1, e)

-- What a series of additions did to a map.
pub record Grows (added : ℕ) (of_owner : ℕ → ℕ) (m u : List HolderEntry) : Type 0 where
  pub total : total_balance u ≡ total_balance m + added
  pub balance : (k : ℕ) → balance_of k u ≡ balance_of k m + of_owner k
  pub sorted : IsSorted m → IsSorted u

no_growth : (m : List HolderEntry) → Grows 0 (λ k. 0) m m
no_growth m = record { total = omega arith; balance = λ k. omega arith; sorted = λ s. s }

one_more :
    (owner amount added : ℕ) (of_owner : ℕ → ℕ) (m n u : List HolderEntry)
    → AddsBalance owner amount m n
    → Grows added of_owner n u
    → Grows (amount + added) (λ k. share owner k amount + of_owner k) m u
one_more owner amount added of_owner m n u a g = record {
  total = omega (arith, a.total, g.total);
  balance = λ k. omega (arith, a.balance k, g.balance k);
  sorted = λ s. g.sorted (a.sorted s);
}

pub aggregate-Grows :
    (accounts : List TokenAccountSnapshot) (m u : List HolderEntry)
    → aggregate accounts m ≡ ok u
    → Grows (total_amount accounts) (λ k. held k accounts) m u
unfolding aggregate
aggregate-Grows [] m u h = let e : m ≡ u = cc in subst (Grows 0 (λ k. 0) m) e (no_growth m)
aggregate-Grows (a ∷ rest) m u h = ok_or_ok (add_balance a.owner a.amount m) overflow _ h λ n fn h1.
    one_more a.owner a.amount (total_amount rest) (λ k. held k rest) m n u
      (add_balance-AddsBalance a.owner a.amount m n fn) (aggregate-Grows rest n u h1)

pub merge-Grows :
    (es m u : List HolderEntry)
    → merge es m ≡ ok u
    → Grows (total_balance es) (λ k. balance_of k es) m u
unfolding merge
merge-Grows [] m u h = let e : m ≡ u = cc in subst (Grows 0 (λ k. 0) m) e (no_growth m)
merge-Grows (a ∷ rest) m u h = ok_or_ok (add_balance a.owner a.lp_balance m) overflow _ h λ n fn h1.
    one_more a.owner a.lp_balance (total_balance rest) (λ k. balance_of k rest) m n u
      (add_balance-AddsBalance a.owner a.lp_balance m n fn) (merge-Grows rest n u h1)

-- What the records add to the attributions and to the locked total.
pub record Attributes (rs : List TokenLockRecord) (t u : Attributed) : Type 0 where
  pub grows : Grows (total_records rs) (λ k. locked_for k rs) t.attributions u.attributions
  pub locked : u.total_locked ≡ t.total_locked + total_records rs

attribute-Attributes :
    (rs : List TokenLockRecord) (t u : Attributed) → attribute rs t ≡ ok u → Attributes rs t u
unfolding attribute
attribute-Attributes [] t u h =
    let e : t ≡ u = cc in
    subst (Attributes [] t) e (record { grows = no_growth t.attributions; locked = omega arith })
attribute-Attributes (r ∷ rest) t u h =
    ok_or_ok (checked_add u128_mod t.total_locked r.current_locked_amount) overflow _ h λ n fn h1.
      ok_or_ok (add_balance r.lock_owner r.current_locked_amount t.attributions) overflow _ h1
        λ m fm h2.
          let ih = attribute-Attributes rest (record { attributions = m; total_locked = n }) u h2 in
          let (e, _) = checked_add-some u128_mod t.total_locked r.current_locked_amount n fn in
          record {
            grows =
                one_more r.lock_owner r.current_locked_amount (total_records rest)
                  (λ k. locked_for k rest) t.attributions m u.attributions
                  (add_balance-AddsBalance r.lock_owner r.current_locked_amount t.attributions m fm)
                  ih.grows;
            locked = omega (arith, ih.locked, e);
          }

-- Sorting the records changes no sum.
insert_record-sums :
    (r : TokenLockRecord) (rs : List TokenLockRecord)
    → (total_records (insert_record r rs) ≡ total_records (r ∷ rs))
      × ((k : ℕ) → locked_for k (insert_record r rs) ≡ locked_for k (r ∷ rs))
unfolding insert_record
insert_record-sums r [] = (refl, λ k. refl)
insert_record-sums r (x ∷ xs) = elim (Bool-cases (leb r.address x.address)) [
  | inl c ↦ (rw c refl, λ k. rw c refl)
  | inr c ↦
      let (total, each) = insert_record-sums r xs in
      (rw c (omega (arith, total)), λ k. rw c (omega (arith, each k)))
]

sort_records-sums :
    (rs : List TokenLockRecord)
    → (total_records (sort_records rs) ≡ total_records rs)
      × ((k : ℕ) → locked_for k (sort_records rs) ≡ locked_for k rs)
unfolding sort_records
sort_records-sums [] = (refl, λ k. refl)
sort_records-sums (r ∷ rs) =
    let (total, each) = sort_records-sums rs in
    let (total', each') = insert_record-sums r (sort_records rs) in
    (omega (arith, total, total'), λ k. omega (arith, each k, each' k))

pub sorted-Attributes :
    (rs : List TokenLockRecord) (t u : Attributed)
    → attribute (sort_records rs) t ≡ ok u
    → Attributes rs t u
sorted-Attributes rs t u h =
    let a = attribute-Attributes (sort_records rs) t u h in
    let (total, each) = sort_records-sums rs in
    record {
      grows = record {
        total = omega (arith, a.grows.total, total);
        balance = λ k. omega (arith, a.grows.balance k, each k);
        sorted = a.grows.sorted;
      };
      locked = omega (arith, a.locked, total);
    }
