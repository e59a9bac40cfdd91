-- ===== src/Snapshotter/Builder/Custody.antt =====
-- The custody account of snapshotter/src/builder.rs: which account is chosen, and what leaves the
-- claimable balances with it.
use graveyield_protocol.Prelude.{
  ℕ, ◌<◌, ◌≡◌, refl, ◌⊎◌, Bool, true, false, not, none, some, List, [], ◌∷◌, ltb, ◌==◌, ==→eq,
  ltb→lt, length, if◌then◌else◌, Bool-cases, inl, inr, Member, here, there, ok, bind_ok, ok_or_ok,
  require_ok, arith,
}
use mathlib.Core.Path.{subst}
use graveyield_protocol.Snapshotter.Model.{custody_excluded_as_sink, HolderEntry}
use graveyield_protocol.Snapshotter.Balances.{contains_key, remove_key}
use graveyield_protocol.Snapshotter.Balances.Laws.{IsSorted, RemovesKey, remove_key-RemovesKey}
use graveyield_protocol.Snapshotter.Builder.{
  TokenAccountSnapshot, CustodyResolution, SnapshotRequest, Attributed, Chosen, Lifted, contains,
  to_u64, holding, overridden, only_override, choose_custody, resolve_custody, lift_custody,
}

-- An account of the list that holds an amount.
abbrev pub HeldBy : List TokenAccountSnapshot → ℕ → TokenAccountSnapshot → Type 0
HeldBy accounts total a = Member a accounts × (a.amount ≡ total)

-- A member of a filtered list, at its head.
pick-Member :
    (b : Bool) (x a : TokenAccountSnapshot) (later : List TokenAccountSnapshot)
    → Member a (if b then x ∷ later else later)
    → ((b ≡ true) × (a ≡ x)) ⊎ Member a later
pick-Member true x _ later (here _) = inl (refl, refl)
pick-Member true x a later (there _ m) = inr m
pick-Member false x a later m = inr m

holding-HeldBy :
    (accounts : List TokenAccountSnapshot) (total : ℕ) (a : TokenAccountSnapshot)
    → Member a (holding accounts total)
    → HeldBy accounts total a
unfolding holding
holding-HeldBy [] total a m = elim m [ ]
holding-HeldBy (x ∷ rest) total a m =
    elim (pick-Member (x.amount == total) x a (holding rest total) m) [
      | inl (e, same) ↦ rw same (here rest, ==→eq x.amount total e)
      | inr later ↦
          let (found, amount) = holding-HeldBy rest total a later in (there x found, amount)
    ]

overridden-Member :
    (accounts : List TokenAccountSnapshot) (overrides : List ℕ) (a : TokenAccountSnapshot)
    → Member a (overridden accounts overrides)
    → Member a accounts
unfolding overridden
overridden-Member [] overrides a m = elim m [ ]
overridden-Member (x ∷ rest) overrides a m =
    elim (pick-Member (contains overrides x.owner) x a (overridden rest overrides) m) [
      | inl (e, same) ↦ rw same (here rest)
      | inr later ↦ there x (overridden-Member rest overrides a later)
    ]

only_override-Member :
    (total n : ℕ) (held_by : List TokenAccountSnapshot) (c : Chosen)
    → only_override total n held_by ≡ ok c
    → Member c.account held_by
only_override-Member total n [] c h = absurd (cc)
only_override-Member total n (a ∷ []) c h =
    let same : a ≡ c.account = ground arith in subst (λ x. Member x (a ∷ [])) same (here [])
only_override-Member total n (a ∷ b ∷ rest) c h = absurd (cc)

choose_custody-Member :
    (held_by : List TokenAccountSnapshot) (overrides : List ℕ) (total : ℕ) (c : Chosen)
    → choose_custody held_by overrides total ≡ ok c
    → Member c.account held_by
unfolding choose_custody
choose_custody-Member [] overrides total c h = absurd (cc)
choose_custody-Member (a ∷ []) overrides total c h =
    let same : a ≡ c.account = ground arith in subst (λ x. Member x (a ∷ [])) same (here [])
choose_custody-Member (a ∷ b ∷ rest) overrides total c h =
    overridden-Member (a ∷ b ∷ rest) overrides c.account
      (only_override-Member total (length (a ∷ b ∷ rest)) (overridden (a ∷ b ∷ rest) overrides) c h)

-- The custody account of a report: one of the accounts, which holds all that is locked.
pub record IsCustody (accounts : List TokenAccountSnapshot) (total : ℕ) (c : CustodyResolution)
    : Type 0 where
  pub account : TokenAccountSnapshot
  pub listed : Member account accounts
  pub address : c.token_account ≡ account.address
  pub owner : c.owner ≡ account.owner
  pub amount : account.amount ≡ total
  pub balance : c.balance ≡ total

-- What the step left of the claimable balances: nothing is locked and all is left, or the custody
-- owner's whole balance left.
pub data Lifts (accounts : List TokenAccountSnapshot) (t : Attributed) (m : List HolderEntry)
    : Lifted → Type 0 where
  unlocked : t.total_locked ≡ 0 → Lifts accounts t m (record { claimable = m; custody = none })
  lifted :
      (c : CustodyResolution) (rest : List HolderEntry)
      → 0 < t.total_locked
      → IsCustody accounts t.total_locked c
      → contains_key c.owner t.attributions ≡ false
      → RemovesKey c.owner m rest
      → Lifts accounts t m (record { claimable = rest; custody = some c })

resolve_custody-Lifts :
    (request : SnapshotRequest) (accounts : List TokenAccountSnapshot) (t : Attributed)
    (m : List HolderEntry) (l : Lifted)
    → IsSorted m
    → 0 < t.total_locked
    → resolve_custody request accounts t m ≡ ok l
    → Lifts accounts t m l
unfolding resolve_custody
resolve_custody-Lifts request accounts t m l s positive h =
    bind_ok (to_u64 t.total_locked) _ h λ n fn h1.
      bind_ok (choose_custody (holding accounts t.total_locked) request.custody_owner_overrides n) _
        h1
        λ c fc h2. require_ok (not (contains_key c.account.owner t.attributions)) _ _ h2 λ other h3.
          ok_or_ok (remove_key c.account.owner m) custody_excluded_as_sink _ h3 λ rest fr h4.
            let (listed, amount) = holding-HeldBy accounts t.total_locked c.account (
              choose_custody-Member (holding accounts t.total_locked)
                request.custody_owner_overrides n c fc) in
            let custody : CustodyResolution = record {
              token_account = c.account.address;
              owner = c.account.owner;
              balance = c.account.amount;
              method = c.method;
            } in
            let made : Path Lifted (record { claimable = rest; custody = some custody }) l = cc in
            subst (Lifts accounts t m) made (
              lifted custody rest positive
                (record {
                  account = c.account;
                  listed = listed;
                  address = refl;
                  owner = refl;
                  amount = amount;
                  balance = amount;
                })
                (ground (arith, other)) (remove_key-RemovesKey c.account.owner m rest fr s))

pub lift_custody-Lifts :
    (request : SnapshotRequest) (accounts : List TokenAccountSnapshot) (t : Attributed)
    (m : List HolderEntry) (l : Lifted)
    → IsSorted m
    → lift_custody request accounts t m ≡ ok l
    → Lifts accounts t m l
unfolding lift_custody
lift_custody-Lifts request accounts t m l s h = elim (Bool-cases (ltb 0 t.total_locked)) [
  | inr e ↦
      let made : Path Lifted (record { claimable = m; custody = none }) l = ground (arith, e, h) in
      subst (Lifts accounts t m) made (unlocked (ground (arith, e)))
  | inl e ↦
      let h1 : resolve_custody request accounts t m ≡ ok l = ground (arith, e, h) in
      resolve_custody-Lifts request accounts t m l s (ltb→lt 0 t.total_locked e) h1
]
