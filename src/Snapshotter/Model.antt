-- ===== src/Snapshotter/Model.antt =====
-- snapshotter/src/error.rs and snapshotter/src/model.rs: the errors, without their message texts,
-- and the canonical entry set. A key is the big-endian value of its bytes, so the order of owner
-- bytes is the order of numbers.
use graveyield_protocol.Prelude.{
  ℕ, ◌<◌, ◌≡◌, refl, List, [], ◌∷◌, arith, leb, ◌==◌, if◌then◌else◌, Result, ok, err, All,
}

pub data SnapshotError : Type 0 where
  source custody_excluded_as_sink empty_snapshot invariant_violated overflow : SnapshotError
  serialization artifact_mismatch lock_owner_is_custody lock_record_invalid : SnapshotError
  supply_mismatch : (mint_supply enumerated_total : ℕ) → SnapshotError
  custody_not_found : (locked_total : ℕ) → SnapshotError
  custody_ambiguous : (locked_total candidates : ℕ) → SnapshotError

pub record HolderEntry : Type 0 where
  pub owner : ℕ
  pub lp_balance : ℕ

-- The loop over `entries.windows(2)` and the test of the last entry.
unfoldable pub validate_windows : HolderEntry → List HolderEntry → Result SnapshotError (Unit {0})
validate_windows a [] = if a.lp_balance == 0 then err invariant_violated else ok tt
validate_windows a (b ∷ rest) =
    let next = validate_windows b rest in
    if leb b.owner a.owner
    then err invariant_violated
    else (if a.lp_balance == 0 then err invariant_violated else next)

unfoldable pub validate_entries : List HolderEntry → Result SnapshotError (Unit {0})
unfolding validate_windows
validate_entries [] = err empty_snapshot
validate_entries (e ∷ es) = validate_windows e es

-- Owners strictly ascending and every balance positive.
abbrev pub IsCanonical : List HolderEntry → Type 0
IsCanonical [] = Unit
IsCanonical (e ∷ es) = (0 < e.lp_balance) × All (λ f. e.owner < f.owner) es × IsCanonical es

All-above :
    (x y : ℕ) (es : List HolderEntry)
    → x < y
    → All (λ f. y < f.owner) es
    → All (λ f. x < f.owner) es
All-above x y [] h a = tt
All-above x y (e ∷ es) h a = (omega arith, All-above x y es h a.1)

validate_windows-IsCanonical :
    (e : HolderEntry) (es : List HolderEntry) → validate_windows e es ≡ ok tt → IsCanonical (e ∷ es)
unfolding validate_windows
validate_windows-IsCanonical e [] h = ground arith
validate_windows-IsCanonical e (f ∷ es) h =
    let ih : validate_windows f es ≡ ok tt → IsCanonical (f ∷ es) =
      validate_windows-IsCanonical f es in
    let h' : validate_windows f es ≡ ok tt = ground arith in
    let below : e.owner < f.owner = ground arith in
    (ground arith, (below, All-above e.owner f.owner es below (ih h').1), ih h')

-- An entry set that `validate_entries` accepts is not empty, has its owners in strictly ascending
-- order, so each once, and has no zero balance.
pub validate_entries-IsCanonical :
    (es : List HolderEntry) → validate_entries es ≡ ok tt → IsCanonical es × ¬ (es ≡ [])
unfolding validate_entries
validate_entries-IsCanonical [] h = cc
validate_entries-IsCanonical (e ∷ es) h = (validate_windows-IsCanonical e es h, λ p. cc)

IsCanonical-validate_windows :
    (e : HolderEntry) (es : List HolderEntry) → IsCanonical (e ∷ es) → validate_windows e es ≡ ok tt
unfolding validate_windows
IsCanonical-validate_windows e [] c = ground (arith, c.0)
IsCanonical-validate_windows e (f ∷ es) c =
    let next = IsCanonical-validate_windows f es c.2 in
    let positive : 0 < e.lp_balance = c.0 in
    let above : e.owner < f.owner = c.1.0 in ground (arith, next, positive, above)

-- And it accepts each of these.
pub IsCanonical-validate_entries :
    (es : List HolderEntry) → IsCanonical es → ¬ (es ≡ []) → validate_entries es ≡ ok tt
unfolding validate_entries
IsCanonical-validate_entries [] c some_entry = absurd (some_entry refl)
IsCanonical-validate_entries (e ∷ es) c some_entry = IsCanonical-validate_windows e es c
