-- ===== src/Prelude/Int.antt =====
-- Signed 64-bit integers, as integers over the native numbers.
use Prim.Native.Nat.{ℕ, suc, ◌+◌, ◌-◌, ◌≤◌, ◌<◌}
use mathlib.Core.Bool.{Bool}
use mathlib.Core.Option.{Option, none, some}
use graveyield_protocol.Prelude.Tests.{ltb, leb, if◌then◌else◌, ◌==◌}
use graveyield_protocol.Prelude.Words.{u64_mod}

-- `negsuc n` is -(n + 1).
pub data ℤ : Type 0 where
  pos : ℕ → ℤ
  negsuc : ℕ → ℤ

abbrev pub pos_part : ℤ → ℕ
pos_part (pos n) = n
pos_part (negsuc n) = 0

abbrev pub neg_part : ℤ → ℕ
neg_part (pos n) = 0
neg_part (negsuc n) = suc n

abbrev pub sub_ℕ : ℕ → ℕ → ℤ
sub_ℕ a b = if leb b a then pos (a - b) else negsuc (b - a - 1)

infixl 65 ◌+ℤ◌
infix 50 ◌≤ℤ◌ ◌<ℤ◌
abbrev pub ◌+ℤ◌ : ℤ → ℤ → ℤ
a +ℤ b = sub_ℕ (pos_part a + pos_part b) (neg_part a + neg_part b)

abbrev pub ◌≤ℤ◌ : ℤ → ℤ → Type 0
a ≤ℤ b = pos_part a + neg_part b ≤ pos_part b + neg_part a

abbrev pub ◌<ℤ◌ : ℤ → ℤ → Type 0
a <ℤ b = pos_part a + neg_part b < pos_part b + neg_part a

abbrev pub ltb_ℤ : ℤ → ℤ → Bool
ltb_ℤ a b = ltb (pos_part a + neg_part b) (pos_part b + neg_part a)

abbrev pub leb_ℤ : ℤ → ℤ → Bool
leb_ℤ a b = leb (pos_part a + neg_part b) (pos_part b + neg_part a)

abbrev pub eqb_ℤ : ℤ → ℤ → Bool
eqb_ℤ a b = pos_part a + neg_part b == pos_part b + neg_part a

-- The first number above the range of i64, 2^63.
abbrev pub i64_max_suc : ℕ
i64_max_suc = 9223372036854775808

-- `i64::checked_add`.
abbrev pub checked_add_i64 : ℤ → ℤ → Option ℤ
checked_add_i64 a b =
    let s = a +ℤ b in
    if ltb_ℤ s (pos i64_max_suc)
    then (if leb (neg_part s) i64_max_suc then some s else none)
    else none

-- `i64::from_le_bytes` on the unsigned value of the eight bytes: two's complement.
abbrev pub i64_of_u64 : ℕ → ℤ
i64_of_u64 n = if ltb n i64_max_suc then pos n else negsuc (u64_mod - 1 - n)
