-- ===== src/Snapshotter/Balances/Laws.antt =====
-- What the updates of the balances' map do to its total, to each owner's balance and to its order.
use graveyield_protocol.Prelude.{
  ℕ, ◌+◌, ◌<◌, ◌≡◌, refl, sym, Option, none, some, List, [], ◌∷◌, All, ltb, ◌==◌, ==→eq, ltb→lt,
  if◌then◌else◌, u64_mod, checked_add, Bool-cases, inl, inr, arith,
}
use mathlib.Core.Path.{subst}
use graveyield_protocol.Snapshotter.Model.{HolderEntry}
use graveyield_protocol.Snapshotter.Balances.{entry, put_entry, keep, add_balance, remove_key}

-- The sum of all balances, and of those of one owner.
abbrev pub total_balance : List HolderEntry → ℕ
total_balance [] = 0
total_balance (e ∷ es) = e.lp_balance + total_balance es

abbrev pub share : ℕ → ℕ → ℕ → ℕ
share owner k amount = if owner == k then amount else 0

abbrev pub balance_of : ℕ → List HolderEntry → ℕ
balance_of k [] = 0
balance_of k (e ∷ es) = share e.owner k e.lp_balance + balance_of k es

-- Owners strictly ascending.
abbrev pub Above : ℕ → List HolderEntry → Type 0
Above x es = All (λ (f : HolderEntry). x < f.owner) es

abbrev pub IsSorted : List HolderEntry → Type 0
IsSorted [] = Unit
IsSorted (e ∷ es) = Above e.owner es × IsSorted es

-- The four ways to add to a balance.
data Added (owner amount : ℕ) : List HolderEntry → List HolderEntry → Type 0 where
  at_end : Added owner amount [] (entry owner amount ∷ [])
  before :
      (e : HolderEntry) (es : List HolderEntry)
      → owner < e.owner
      → Added owner amount (e ∷ es) (entry owner amount ∷ e ∷ es)
  merged :
      (e : HolderEntry) (es : List HolderEntry)
      → owner ≡ e.owner
      → Added owner amount (e ∷ es) (entry owner (e.lp_balance + amount) ∷ es)
  later :
      (e : HolderEntry) {es us : List HolderEntry}
      → e.owner < owner
      → Added owner amount es us
      → Added owner amount (e ∷ es) (e ∷ us)

put_entry-some :
    (owner b amount : ℕ) (rest us : List HolderEntry)
    → put_entry owner (checked_add u64_mod b amount) rest ≡ some us
    → us ≡ entry owner (b + amount) ∷ rest
put_entry-some owner b amount rest us h = ground arith

keep-some :
    (e : HolderEntry) (o : Option (List HolderEntry)) (us : List HolderEntry)
    → keep e o ≡ some us
    → (vs : List HolderEntry) × (o ≡ some vs) × (us ≡ e ∷ vs)
keep-some e none us h = absurd (cc)
keep-some e (some vs) us h = (vs, refl, cc)

add_balance-Added :
    (owner amount : ℕ) (es us : List HolderEntry)
    → add_balance owner amount es ≡ some us
    → Added owner amount es us
unfolding add_balance
add_balance-Added owner amount [] us h =
    let none_before : 0 + amount ≡ amount = omega arith in
    rw (put_entry-some owner 0 amount [] us h, none_before) at_end
add_balance-Added owner amount (e ∷ es) us h = elim (Bool-cases (ltb owner e.owner)) [
  | inl c ↦
      let none_before : 0 + amount ≡ amount = omega arith in
      let put_here : put_entry owner (checked_add u64_mod 0 amount) (e ∷ es) ≡ some us =
        ground (arith, c, h) in
      rw (put_entry-some owner 0 amount (e ∷ es) us put_here, none_before)
        (before e es (ltb→lt owner e.owner c))
  | inr c ↦ elim (Bool-cases (owner == e.owner)) [
    | inl d ↦
        let put_here : put_entry owner (checked_add u64_mod e.lp_balance amount) es ≡ some us =
          ground (arith, c, d, h) in
        rw (put_entry-some owner e.lp_balance amount es us put_here)
          (merged e es (==→eq owner e.owner d))
    | inr d ↦
        let kept : keep e (add_balance owner amount es) ≡ some us = ground (arith, c, d, h) in
        let (vs, found, same) = keep-some e (add_balance owner amount es) us kept in
        rw same (later e (ground (arith, c, d)) (add_balance-Added owner amount es vs found))
  ]
]

total-Added :
    (owner amount : ℕ) (es us : List HolderEntry)
    → Added owner amount es us
    → total_balance us ≡ total_balance es + amount
total-Added owner amount es us at_end = omega arith
total-Added owner amount es us (before e rest c) = omega arith
total-Added owner amount es us (merged e rest c) = omega arith
total-Added owner amount es us (later e {es = xs} {us = ys} c a) =
    omega (arith, total-Added owner amount xs ys a)

balance_of-Added :
    (k owner amount : ℕ) (es us : List HolderEntry)
    → Added owner amount es us
    → balance_of k us ≡ balance_of k es + share owner k amount
balance_of-Added k owner amount es us at_end = omega arith
balance_of-Added k owner amount es us (before e rest c) = omega arith
balance_of-Added k owner amount es us (merged e rest c) =
    rw (← c)
      (elim (Bool-cases (owner == k)) [ inl d ↦ rw d (omega arith) | inr d ↦ rw d (omega arith) ])
balance_of-Added k owner amount es us (later e {es = xs} {us = ys} c a) =
    omega (arith, balance_of-Added k owner amount xs ys a)

Above-Added :
    (x owner amount : ℕ) (es us : List HolderEntry)
    → Added owner amount es us
    → x < owner
    → Above x es
    → Above x us
Above-Added x owner amount es us at_end h a = (h, tt)
Above-Added x owner amount es us (before e rest c) h a = (h, a)
Above-Added x owner amount es us (merged e rest c) h a = (h, a.1)
Above-Added x owner amount es us (later e {es = xs} {us = ys} c d) h a =
    (a.0, Above-Added x owner amount xs ys d h a.1)

Above-trans : (x y : ℕ) (es : List HolderEntry) → x < y → Above y es → Above x es
Above-trans x y [] h a = tt
Above-trans x y (e ∷ es) h a = (omega (arith, a.0), Above-trans x y es h a.1)

IsSorted-Added :
    (owner amount : ℕ) (es us : List HolderEntry)
    → Added owner amount es us
    → IsSorted es
    → IsSorted us
IsSorted-Added owner amount es us at_end s = (tt, tt)
IsSorted-Added owner amount es us (before e rest c) s =
    ((c, Above-trans owner e.owner rest c s.0), s)
IsSorted-Added owner amount es us (merged e rest c) s = (rw c s.0, s.1)
IsSorted-Added owner amount es us (later e {es = xs} {us = ys} c a) s =
    (Above-Added e.owner owner amount xs ys a c s.0, IsSorted-Added owner amount xs ys a s.1)

-- Adding an amount to an owner's balance adds it to the total and to that owner's balance only,
-- and keeps the order.
pub record AddsBalance (owner amount : ℕ) (es us : List HolderEntry) : Type 0 where
  pub total : total_balance us ≡ total_balance es + amount
  pub balance : (k : ℕ) → balance_of k us ≡ balance_of k es + share owner k amount
  pub sorted : IsSorted es → IsSorted us

pub add_balance-AddsBalance :
    (owner amount : ℕ) (es us : List HolderEntry)
    → add_balance owner amount es ≡ some us
    → AddsBalance owner amount es us
add_balance-AddsBalance owner amount es us h =
    let a = add_balance-Added owner amount es us h in
    record {
      total = total-Added owner amount es us a;
      balance = λ k. balance_of-Added k owner amount es us a;
      sorted = IsSorted-Added owner amount es us a;
    }

-- An owner below all others has no balance.
balance_of-Above : (k : ℕ) (es : List HolderEntry) → Above k es → balance_of k es ≡ 0
balance_of-Above k [] a = refl
balance_of-Above k (e ∷ es) a = ground (arith, a.0, balance_of-Above k es a.1)

-- Removing an owner takes away the owner's balance and nothing else.
pub record RemovesKey (owner : ℕ) (es us : List HolderEntry) : Type 0 where
  pub total : total_balance es ≡ total_balance us + balance_of owner es
  pub own : balance_of owner us ≡ 0
  pub others : (k : ℕ) → ¬ (owner ≡ k) → balance_of k us ≡ balance_of k es
  pub sorted : IsSorted us
  pub above : (x : ℕ) → Above x es → Above x us

pub remove_key-RemovesKey :
    (owner : ℕ) (es us : List HolderEntry)
    → remove_key owner es ≡ some us
    → IsSorted es
    → RemovesKey owner es us
unfolding remove_key
remove_key-RemovesKey owner [] us h s = absurd (cc)
remove_key-RemovesKey owner (e ∷ es) us h s = elim (Bool-cases (e.owner == owner)) [
  | inl c ↦
      let same : es ≡ us = ground (arith, c, h) in
      let owned = ==→eq e.owner owner c in
      let rest_none : balance_of owner es ≡ 0 = balance_of-Above owner es (rw (← owned) s.0) in
      subst (RemovesKey owner (e ∷ es)) same (record {
        total = rw c (omega (arith, rest_none));
        own = rest_none;
        others = λ k n. ground (arith, owned, n);
        sorted = s.1;
        above = λ x a. a.1;
      })
  | inr c ↦
      let kept : keep e (remove_key owner es) ≡ some us = ground (arith, c, h) in
      let (vs, found, same) = keep-some e (remove_key owner es) us kept in
      let ih = remove_key-RemovesKey owner es vs found s.1 in
      subst (RemovesKey owner (e ∷ es)) (sym same) (record {
        total = rw c (omega (arith, ih.total));
        own = rw c (omega (arith, ih.own));
        others = λ k n. omega (arith, ih.others k n);
        sorted = (ih.above e.owner s.0, ih.sorted);
        above = λ x a. (a.0, ih.above x a.1);
      })
]
