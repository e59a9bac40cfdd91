-- ===== src/Prelude/Bytes.antt =====
-- Byte arrays as lists of numbers, and the conversions of words to and from bytes. A key or a
-- digest of 32 bytes is its big-endian value, so that the order of arrays is that of numbers.
use Prim.Native.Nat.{ℕ, zero, suc, ◌+◌, ◌*◌, ◌/◌, ◌%◌, ◌^◌, ◌<◌}
use mathlib.Core.Path.{◌≡◌, refl, ap, sym, ◌∙◌}
use mathlib.Core.List.{List, [], ◌∷◌, ◌++◌, reverse, reverse-reverse}
use native.Mathlib.Nat.{pow-suc}
use native.Mathlib.Omega.{arith}
use graveyield_protocol.Prelude.Lists.{length, take, drop, length-reverse}

-- `bytes[offset..offset + len]`.
abbrev pub slice : List ℕ → ℕ → ℕ → List ℕ
slice bytes offset len = take len (drop offset bytes)

-- `to_le_bytes` at a width in bytes.
unfoldable pub le_bytes : ℕ → ℕ → List ℕ
le_bytes zero n = []
le_bytes (suc w) n = n % 256 ∷ le_bytes w (n / 256)

-- `from_le_bytes`.
unfoldable pub le_value : List ℕ → ℕ
le_value [] = 0
le_value (b ∷ bs) = b + 256 * le_value bs

-- The 32 bytes of a key or a digest, most significant first.
unfoldable pub key_bytes : ℕ → List ℕ
unfolding le_bytes
key_bytes k = reverse (le_bytes 32 k)

-- `Pubkey::new_from_array` and `[u8; 32]` values.
unfoldable pub key_of_bytes : List ℕ → ℕ
unfolding le_value
key_of_bytes bs = le_value (reverse bs)

length-le_bytes : (w n : ℕ) → length (le_bytes w n) ≡ w
unfolding le_bytes
length-le_bytes zero n = refl
length-le_bytes (suc w) n = ap suc (length-le_bytes w (n / 256))

pub length-u64_bytes : (n : ℕ) → length (le_bytes 8 n) ≡ 8
length-u64_bytes n = length-le_bytes 8 n

pub length-key_bytes : (k : ℕ) → length (key_bytes k) ≡ 32
unfolding key_bytes
length-key_bytes k = length-reverse (le_bytes 32 k) ∙ length-le_bytes 32 k

-- Reading back what was written, at any width that holds the value.
pub le_value-le_bytes : (w n : ℕ) → n < 256 ^ w → le_value (le_bytes w n) ≡ n
unfolding le_bytes le_value
le_value-le_bytes zero n h = omega arith
le_value-le_bytes (suc w) n h =
    let h' : n < 256 ^ w * 256 = rw (← pow-suc 256 w) h in
    omega (arith, le_value-le_bytes w (n / 256) (omega arith))

pub le_bytes_injective :
    (w m n : ℕ) → m < 256 ^ w → n < 256 ^ w → le_bytes w m ≡ le_bytes w n → m ≡ n
le_bytes_injective w m n hm hn e =
    sym (le_value-le_bytes w m hm) ∙ ap le_value e ∙ le_value-le_bytes w n hn

pub key_of_bytes-key_bytes : (k : ℕ) → k < 256 ^ 32 → key_of_bytes (key_bytes k) ≡ k
unfolding key_of_bytes key_bytes
key_of_bytes-key_bytes k h =
    ap le_value (reverse-reverse (le_bytes 32 k)) ∙ le_value-le_bytes 32 k h

pub key_bytes_injective :
    (j k : ℕ) → j < 256 ^ 32 → k < 256 ^ 32 → key_bytes j ≡ key_bytes k → j ≡ k
key_bytes_injective j k hj hk e =
    sym (key_of_bytes-key_bytes j hj) ∙ ap key_of_bytes e ∙ key_of_bytes-key_bytes k hk

-- What stands at its place in a concatenation.
pub drop-append : (xs ys : List ℕ) (n : ℕ) → length xs ≡ n → drop n (xs ++ ys) ≡ ys
drop-append [] ys zero h = refl
drop-append [] ys (suc n) h = absurd (omega arith)
drop-append (x ∷ xs) ys zero h = absurd (omega arith)
drop-append (x ∷ xs) ys (suc n) h = drop-append xs ys n (omega arith)

pub take-append : (xs ys : List ℕ) (n : ℕ) → length xs ≡ n → take n (xs ++ ys) ≡ xs
take-append [] ys zero h = refl
take-append [] ys (suc n) h = absurd (omega arith)
take-append (x ∷ xs) ys zero h = absurd (omega arith)
take-append (x ∷ xs) ys (suc n) h = ap (λ zs. x ∷ zs) (take-append xs ys n (omega arith))

pub take_all : (xs : List ℕ) (n : ℕ) → length xs ≡ n → take n xs ≡ xs
take_all [] zero h = refl
take_all [] (suc n) h = refl
take_all (x ∷ xs) zero h = absurd (omega arith)
take_all (x ∷ xs) (suc n) h = ap (λ zs. x ∷ zs) (take_all xs n (omega arith))

pub slice-middle :
    (front mid back : List ℕ) (offset len : ℕ)
    → length front ≡ offset
    → length mid ≡ len
    → slice (front ++ (mid ++ back)) offset len ≡ mid
slice-middle front mid back offset len hf hm =
    ap (take len) (drop-append front (mid ++ back) offset hf) ∙ take-append mid back len hm

drop-after : (xs ys : List ℕ) (n o : ℕ) → length xs ≡ n → drop (n + o) (xs ++ ys) ≡ drop o ys
drop-after [] ys zero o h = let e : 0 + o ≡ o = omega arith in ap (λ m. drop m ys) e
drop-after [] ys (suc n) o h = absurd (omega arith)
drop-after (x ∷ xs) ys zero o h = absurd (omega arith)
drop-after (x ∷ xs) ys (suc n) o h =
    let e : suc n + o ≡ suc (n + o) = omega arith in
    ap (λ m. drop m (x ∷ (xs ++ ys))) e ∙ drop-after xs ys n o (omega arith)

-- A slice that starts behind the first part.
pub slice-after :
    (xs ys : List ℕ) (n offset len : ℕ)
    → length xs ≡ n
    → slice (xs ++ ys) (n + offset) len ≡ slice ys offset len
slice-after xs ys n offset len h = ap (take len) (drop-after xs ys n offset h)
