-- ===== src/Prelude/Update.antt =====
-- A table of accounts by address: absent accounts are `none`.
use Prim.Native.Nat.{ℕ}
use mathlib.Core.Option.{Option, none, some}
use graveyield_protocol.Prelude.Tests.{◌==◌, if◌then◌else◌}

abbrev pub Table : Type 0 → Type 0
Table A = ℕ → Option A

abbrev pub empty_table : {A : Type 0} → Table A
empty_table k = none

abbrev pub put : {A : Type 0} → Table A → ℕ → A → Table A
put t k a j = if j == k then some a else t j

abbrev pub remove : {A : Type 0} → Table A → ℕ → Table A
remove t k j = if j == k then none else t j
