-- ===== src/Prelude/Words.antt =====
-- Rust's checked and saturating arithmetic on unsigned words, over the native numbers.
use Prim.Native.Nat.{ℕ, ◌+◌, ◌-◌, ◌*◌, ◌/◌, ◌%◌, ◌<◌}
use mathlib.Core.Path.{◌≡◌}
use native.Mathlib.Omega.{arith}
use mathlib.Core.Option.{Option, none, some}
use graveyield_protocol.Prelude.Tests.{ltb, leb, ◌==◌, if◌then◌else◌}

abbrev pub u16_mod : ℕ
u16_mod = 65536

abbrev pub u32_mod : ℕ
u32_mod = 4294967296

abbrev pub u64_mod : ℕ
u64_mod = 18446744073709551616

abbrev pub u128_mod : ℕ
u128_mod = 340282366920938463463374607431768211456

-- `checked_add` and `checked_mul` at the modulus of the word's width.
abbrev pub checked_add : ℕ → ℕ → ℕ → Option ℕ
checked_add m a b = if ltb (a + b) m then some (a + b) else none

abbrev pub checked_mul : ℕ → ℕ → ℕ → Option ℕ
checked_mul m a b = if ltb (a * b) m then some (a * b) else none

abbrev pub checked_sub : ℕ → ℕ → Option ℕ
checked_sub a b = if leb b a then some (a - b) else none

abbrev pub checked_div : ℕ → ℕ → Option ℕ
checked_div a b = if b == 0 then none else some (a / b)

abbrev pub saturating_add : ℕ → ℕ → ℕ → ℕ
saturating_add m a b = if ltb (a + b) m then a + b else m - 1

-- The checked conversion to u64, `try_into()`.
abbrev pub try_u64 : ℕ → Option ℕ
try_u64 n = if ltb n u64_mod then some n else none

-- The truncating conversions, `as u64` and `as u16`.
abbrev pub as_u64 : ℕ → ℕ
as_u64 n = n % u64_mod

abbrev pub as_u16 : ℕ → ℕ
as_u16 n = n % u16_mod

-- What a checked sum that is there says, and when it is there.
pub checked_add-some : (m a b t : ℕ) → checked_add m a b ≡ some t → (t ≡ a + b) × (t < m)
checked_add-some m a b t h = (ground arith, ground arith)

pub checked_add_fits : (m a b : ℕ) → a + b < m → checked_add m a b ≡ some (a + b)
checked_add_fits m a b h = ground arith
