-- ===== src/Snapshotter/Builder/Ledger.antt =====
-- The exclusion pass of snapshotter/src/builder.rs: where each balance goes.
use graveyield_protocol.Prelude.{
  ℕ, ◌+◌, ◌≡◌, refl, sym, ap, ◌∙◌, Bool, true, false, List, [], ◌∷◌, ◌==◌, ==→eq, if◌then◌else◌,
  u128_mod, checked_add, checked_add-some, Bool-cases, inl, inr, ok, ◌>>=◌, ok_or, bind_ok,
  ok_or_ok, arith,
}
use mathlib.Core.Path.{subst}
use graveyield_protocol.Snapshotter.Model.{overflow, HolderEntry}
use graveyield_protocol.Snapshotter.Balances.Laws.{
  total_balance, share, balance_of, Above, IsSorted,
}
use graveyield_protocol.Snapshotter.Builder.{
  zero_balance, explicit_sink, ExcludedBalance, Excluded, exclude, claim, excluded, contains,
  exclusion_pass,
}

-- What the sinks of a ledger hold: zero balances add nothing.
abbrev pub sink_balance : List ExcludedBalance → ℕ
sink_balance [] = 0
sink_balance (x ∷ xs) = x.lp_balance + sink_balance xs

-- The claimable part of a balance.
abbrev pub unless_sink : List ℕ → ℕ → ℕ → ℕ
unless_sink sinks k n = if contains sinks k then 0 else n

pub record Divides (sinks : List ℕ) (es : List HolderEntry) (start : ℕ) (r : Excluded)
    : Type 0 where
  pub total : start + total_balance es ≡ r.sink_total + total_balance r.claimable
  pub ledger : r.sink_total ≡ start + sink_balance r.exclusions
  pub balance : (k : ℕ) → balance_of k r.claimable ≡ unless_sink sinks k (balance_of k es)
  pub above : (x : ℕ) → Above x es → Above x r.claimable
  pub sorted : IsSorted es → IsSorted r.claimable

split_share :
    (own sink sink_owner : Bool) (n rest : ℕ)
    → (own ≡ true → sink_owner ≡ sink)
    → (if sink then 0 else (if own then n else 0) + rest)
      ≡ (if own then (if sink_owner then 0 else n) else 0) + (if sink then 0 else rest)
split_share false true so n rest h = refl
split_share false false so n rest h = refl
split_share true true true n rest h = refl
split_share true true false n rest h = absurd (let e = h refl in cc)
split_share true false true n rest h = absurd (let e = h refl in cc)
split_share true false false n rest h = refl

share_unless :
    (sinks : List ℕ) (k owner n rest : ℕ)
    → unless_sink sinks k (share owner k n + rest)
      ≡ share owner k (unless_sink sinks owner n) + unless_sink sinks k rest
share_unless sinks k owner n rest =
    split_share (owner == k) (contains sinks k) (contains sinks owner) n rest
      (λ e. ap (contains sinks) (==→eq owner k e))

share_zero : (owner k : ℕ) → share owner k 0 ≡ 0
share_zero owner k = ground arith

-- The pass over the rest, after an entry that does not stay claimable.
Divides-out :
    (sinks : List ℕ) (e : HolderEntry) (rest : List HolderEntry) (start next : ℕ)
    (x : ExcludedBalance) (r : Excluded)
    → unless_sink sinks e.owner e.lp_balance ≡ 0
    → x.lp_balance ≡ e.lp_balance
    → next ≡ start + e.lp_balance
    → Divides sinks rest next r
    → Divides sinks (e ∷ rest) start (exclude x r)
Divides-out sinks e rest start next x r out same moved d = record {
  total = omega (arith, d.total, moved);
  ledger = omega (arith, d.ledger, moved, same);
  balance = λ k.
      let left = unless_sink sinks k (balance_of k rest) in
      d.balance k
      ∙ sym (
          share_unless sinks k e.owner e.lp_balance (balance_of k rest)
          ∙ ap (λ (n : ℕ). share e.owner k n + left) out
          ∙ omega (arith, share_zero e.owner k));
  above = λ y a. d.above y a.1;
  sorted = λ s. d.sorted s.1;
}

Divides-in :
    (sinks : List ℕ) (e : HolderEntry) (rest : List HolderEntry) (start : ℕ) (r : Excluded)
    → contains sinks e.owner ≡ false
    → Divides sinks rest start r
    → Divides sinks (e ∷ rest) start (claim e r)
Divides-in sinks e rest start r stays d = record {
  total = omega (arith, d.total);
  ledger = d.ledger;
  balance = λ k.
      let left = unless_sink sinks k (balance_of k rest) in
      ap (λ (n : ℕ). share e.owner k e.lp_balance + n) (d.balance k)
      ∙ sym (
          share_unless sinks k e.owner e.lp_balance (balance_of k rest)
          ∙ ap (λ (b : Bool). share e.owner k (if b then 0 else e.lp_balance) + left) stays);
  above = λ y a. (a.0, d.above y a.1);
  sorted = λ s. (d.above e.owner s.0, d.sorted s.1);
}

pub exclusion_pass-Divides :
    (sinks : List ℕ) (es : List HolderEntry) (start : ℕ) (r : Excluded)
    → exclusion_pass sinks es start ≡ ok r
    → Divides sinks es start r
unfolding exclusion_pass
exclusion_pass-Divides sinks [] start r h =
    let e : Path Excluded (record { exclusions = []; sink_total = start; claimable = [] }) r = cc in
    subst (Divides sinks [] start) e (record {
      total = omega arith;
      ledger = omega arith;
      balance = λ k. ground arith;
      above = λ y a. tt;
      sorted = λ s. tt;
    })
exclusion_pass-Divides sinks (e ∷ rest) start r h = elim (Bool-cases (e.lp_balance == 0)) [
  | inl z ↦
      let zero_bal = ==→eq e.lp_balance 0 z in
      let h1 : (exclusion_pass sinks rest start >>= λ q. ok (exclude (excluded e zero_balance) q))
          ≡ ok r =
        ground (arith, z, h) in
      bind_ok (exclusion_pass sinks rest start) _ h1 λ q fq h2.
        let made : exclude (excluded e zero_balance) q ≡ r = cc in
        subst (Divides sinks (e ∷ rest) start) made (
          Divides-out sinks e rest start start (excluded e zero_balance) q
            (rw zero_bal (ground arith)) refl (omega (arith, zero_bal))
            (exclusion_pass-Divides sinks rest start q fq))
  | inr z ↦ elim (Bool-cases (contains sinks e.owner)) [
    | inl c ↦
        let h1 : (ok_or (checked_add u128_mod start e.lp_balance) overflow >>= λ t.
        exclusion_pass sinks rest t >>= λ q. ok (exclude (excluded e explicit_sink) q))
            ≡ ok r =
          ground (arith, z, c, h) in
        ok_or_ok (checked_add u128_mod start e.lp_balance) overflow _ h1 λ t ft h2.
          bind_ok (exclusion_pass sinks rest t) _ h2 λ q fq h3.
            let made : exclude (excluded e explicit_sink) q ≡ r = cc in
            let (moved, _) = checked_add-some u128_mod start e.lp_balance t ft in
            subst (Divides sinks (e ∷ rest) start) made (
              Divides-out sinks e rest start t (excluded e explicit_sink) q (rw c refl) refl moved
                (exclusion_pass-Divides sinks rest t q fq))
    | inr c ↦
        let h1 : (exclusion_pass sinks rest start >>= λ q. ok (claim e q)) ≡ ok r =
          ground (arith, z, c, h) in
        bind_ok (exclusion_pass sinks rest start) _ h1 λ q fq h2.
          let made : claim e q ≡ r = cc in
          subst (Divides sinks (e ∷ rest) start) made
            (Divides-in sinks e rest start q c (exclusion_pass-Divides sinks rest start q fq))
  ]
]
