-- ===== src/Scanner/Adapters/Locker/Accounts.antt =====
-- What the locker adapter of programs/grave-scanner/src/adapters/locker.rs asks of the submitted
-- accounts, by their fields, against the branches of its loop.
use graveyield_protocol.Prelude.{
  ℕ, ◌+◌, ◌≡◌, refl, sym, Bool, true, false, not, ◌&&◌, ◌||◌, List, [], ◌∷◌, length, ◌==◌,
  if◌then◌else◌, Bool-cases, inl, inr, slice, le_value, arith, All,
}
use mathlib.Core.Path.{subst}
use graveyield_protocol.Vault.Cpi.{AccountInfo}
use graveyield_protocol.Scanner.Adapters.Locker.{
  FindProgramAddress, AccountKind, absent, foreign, marker, lock, kind_of,
}
use graveyield_protocol.Scanner.Adapters.Locker.Evidence.{
  IsTokenLock, IsMarker, KindAdmits, IsAdmissible, kind_locks, kind_amount, kind_supplies,
  kind_presents, lock_count, lock_total, names_marker, has_marker,
}

-- The locker's program, as the big-endian value of its id.
abbrev locker : ℕ
locker = 0xebcad5b5a3869c094b749546e7981be86f0801540a861e7a1c930f69ccb19b6e

-- An account that does not exist: it has neither data nor lamports.
abbrev pub is_absent : AccountInfo → Bool
is_absent a = length a.bytes == 0 && a.lamports == 0

module _ (find_program_address : FindProgramAddress) (expected_marker lp_mint pool : ℕ) where
  -- An account of the locker's: at the marker's address the marker, and else a lock.
  abbrev pub is_marker : AccountInfo → Bool
  is_marker a =
      if is_absent a then false else (if a.owner == locker then a.key == expected_marker else false)

  abbrev pub is_lock : AccountInfo → Bool
  is_lock a =
      if is_absent a
      then false
      else (if a.owner == locker then not (a.key == expected_marker) else false)

  -- The marker's address, absent or the locker's.
  abbrev pub at_marker : AccountInfo → Bool
  at_marker a =
      if is_absent a
      then a.key == expected_marker
      else (if a.owner == locker then a.key == expected_marker else false)

  pub record IsWellFormed (a : AccountInfo) : Type 0 where
    pub as_marker :
        is_marker a ≡ true → IsMarker find_program_address expected_marker lp_mint pool a
    pub as_lock : is_lock a ≡ true → IsTokenLock find_program_address expected_marker lp_mint pool a

  abbrev pub count_locks : List AccountInfo → ℕ
  count_locks [] = 0
  count_locks (a ∷ rest) = (if is_lock a then 1 else 0) + count_locks rest

  abbrev pub sum_locks : List AccountInfo → ℕ
  sum_locks [] = 0
  sum_locks (a ∷ rest) = (if is_lock a then le_value (slice a.bytes 106 8) else 0) + sum_locks rest

  abbrev pub some_at_marker : List AccountInfo → Bool
  some_at_marker [] = false
  some_at_marker (a ∷ rest) = at_marker a || some_at_marker rest

  abbrev pub some_marker : List AccountInfo → Bool
  some_marker [] = false
  some_marker (a ∷ rest) = is_marker a || some_marker rest

  abbrev kind : AccountInfo → AccountKind
  kind a = kind_of find_program_address expected_marker a

  -- The four ways through the loop's body.
  data View (a : AccountInfo) : Type 0 where
    as_absent : kind a ≡ absent → is_absent a ≡ true → View a
    as_foreign : kind a ≡ foreign → is_absent a ≡ false → (a.owner == locker) ≡ false → View a
    as_marker :
        kind a ≡ marker
        → is_absent a ≡ false
        → (a.owner == locker) ≡ true
        → (a.key == expected_marker) ≡ true
        → View a
    as_lock :
        kind a ≡ lock
        → is_absent a ≡ false
        → (a.owner == locker) ≡ true
        → (a.key == expected_marker) ≡ false
        → View a

  view : (a : AccountInfo) → View a
  unfolding kind_of
  view a = elim (Bool-cases (is_absent a)) [
    | inl e ↦ as_absent (rw e refl) e
    | inr e ↦ elim (Bool-cases (a.owner == locker)) [
      | inr o ↦ as_foreign (rw (e, o) refl) e o
      | inl o ↦ elim (Bool-cases (a.key == expected_marker)) [
        | inl k ↦ as_marker (rw (e, o, k) refl) e o k
        | inr k ↦ as_lock (rw (e, o, k) refl) e o k
      ]
    ]
  ]

  -- What an account adds to the loop's variables.
  record Agrees (a : AccountInfo) : Type 0 where
    locks :
        kind_locks find_program_address expected_marker lp_mint pool (kind a)
        ≡ (if is_lock a then 1 else 0)
    amount :
        kind_amount find_program_address expected_marker lp_mint pool (kind a) a
        ≡ (if is_lock a then le_value (slice a.bytes 106 8) else 0)
    supplies :
        kind_supplies find_program_address expected_marker lp_mint pool (kind a) a ≡ at_marker a
    presents :
        kind_presents find_program_address expected_marker lp_mint pool (kind a) ≡ is_marker a

  agrees : (a : AccountInfo) → Agrees a
  agrees a = elim (view a) [
    | as_absent k e ↦ record {
      locks = rw (k, e) refl;
      amount = rw (k, e) refl;
      supplies = rw (k, e) refl;
      presents = rw (k, e) refl;
    }
    | as_foreign k e o ↦ record {
      locks = rw (k, e, o) refl;
      amount = rw (k, e, o) refl;
      supplies = rw (k, e, o) refl;
      presents = rw (k, e, o) refl;
    }
    | as_marker k e o m ↦ record {
      locks = rw (k, e, o, m) refl;
      amount = rw (k, e, o, m) refl;
      supplies = rw (k, e, o, m) refl;
      presents = rw (k, e, o, m) refl;
    }
    | as_lock k e o m ↦ record {
      locks = rw (k, e, o, m) refl;
      amount = rw (k, e, o, m) refl;
      supplies = rw (k, e, o, m) refl;
      presents = rw (k, e, o, m) refl;
    }
  ]

  pub lock_count-eq-count_locks :
      (accounts : List AccountInfo)
      → lock_count find_program_address expected_marker lp_mint pool accounts ≡ count_locks accounts
  lock_count-eq-count_locks [] = refl
  lock_count-eq-count_locks (a ∷ rest) =
      omega (arith, (agrees a).locks, lock_count-eq-count_locks rest)

  pub lock_total-eq-sum_locks :
      (accounts : List AccountInfo)
      → lock_total find_program_address expected_marker lp_mint pool accounts ≡ sum_locks accounts
  lock_total-eq-sum_locks [] = refl
  lock_total-eq-sum_locks (a ∷ rest) =
      omega (arith, (agrees a).amount, lock_total-eq-sum_locks rest)

  pub names_marker-eq-some_at_marker :
      (accounts : List AccountInfo)
      → names_marker find_program_address expected_marker lp_mint pool accounts
        ≡ some_at_marker accounts
  names_marker-eq-some_at_marker [] = refl
  names_marker-eq-some_at_marker (a ∷ rest) =
      rw ((agrees a).supplies, names_marker-eq-some_at_marker rest) refl

  pub has_marker-eq-some_marker :
      (accounts : List AccountInfo)
      → has_marker find_program_address expected_marker lp_mint pool accounts ≡ some_marker accounts
  has_marker-eq-some_marker [] = refl
  has_marker-eq-some_marker (a ∷ rest) =
      rw ((agrees a).presents, has_marker-eq-some_marker rest) refl

  abbrev Admits : AccountKind → AccountInfo → Type 0
  Admits k a = KindAdmits find_program_address expected_marker lp_mint pool k a

  IsAdmissible-IsWellFormed : (a : AccountInfo) → Admits (kind a) a → IsWellFormed a
  IsAdmissible-IsWellFormed a h = elim (view a) [
    | as_absent k e ↦ record {
      as_marker = λ t. absurd (ground (arith, t, e));
      as_lock = λ t. absurd (ground (arith, t, e));
    }
    | as_foreign k e o ↦ record {
      as_marker = λ t. absurd (ground (arith, t, e, o));
      as_lock = λ t. absurd (ground (arith, t, e, o));
    }
    | as_marker k e o m ↦ record {
      as_marker = λ _. subst (λ x. Admits x a) k h;
      as_lock = λ t. absurd (ground (arith, t, e, o, m));
    }
    | as_lock k e o m ↦ record {
      as_marker = λ t. absurd (ground (arith, t, e, o, m));
      as_lock = λ _. subst (λ x. Admits x a) k h;
    }
  ]

  IsWellFormed-IsAdmissible : (a : AccountInfo) → IsWellFormed a → Admits (kind a) a
  IsWellFormed-IsAdmissible a w = elim (view a) [
    | as_absent k e ↦ subst (λ x. Admits x a) (sym k) tt
    | as_foreign k e o ↦ subst (λ x. Admits x a) (sym k) tt
    | as_marker k e o m ↦ subst (λ x. Admits x a) (sym k) (w.as_marker (rw (e, o, m) refl))
    | as_lock k e o m ↦ subst (λ x. Admits x a) (sym k) (w.as_lock (rw (e, o, m) refl))
  ]

  pub All-IsWellFormed :
      (accounts : List AccountInfo)
      → All (IsAdmissible find_program_address expected_marker lp_mint pool) accounts
      → All IsWellFormed accounts
  All-IsWellFormed [] h = tt
  All-IsWellFormed (a ∷ rest) h = (IsAdmissible-IsWellFormed a h.0, All-IsWellFormed rest h.1)

  pub All-IsAdmissible :
      (accounts : List AccountInfo)
      → All IsWellFormed accounts
      → All (IsAdmissible find_program_address expected_marker lp_mint pool) accounts
  All-IsAdmissible [] h = tt
  All-IsAdmissible (a ∷ rest) h = (IsWellFormed-IsAdmissible a h.0, All-IsAdmissible rest h.1)

  -- A present account of the locker's that is not at the marker's address takes the lock's branch.
  pub kind-lock :
      (a : AccountInfo) → is_lock a ≡ true → kind_of find_program_address expected_marker a ≡ lock
  kind-lock a t = elim (view a) [
    | as_absent k e ↦ absurd (ground (arith, t, e))
    | as_foreign k e o ↦ absurd (ground (arith, t, e, o))
    | as_marker k e o m ↦ absurd (ground (arith, t, e, o, m))
    | as_lock k e o m ↦ k
  ]
