-- ===== src/Base/Bytes.antt =====
-- Byte slices and the fixed-width encodings that the packages share. A byte is a number below 256.
use Prim.Native.Nat.{ℕ, zero, ◌+◌, ◌*◌, ◌%◌, ◌<◌, bit_or}
use mathlib.Core.Path.{◌≡◌, refl}
use mathlib.Core.Bool.{Bool, true, false, ◌&&◌}
use mathlib.Core.List.{List, [], ◌∷◌, ◌++◌}
use native.Mathlib.Omega.{arith}
use keycard_go.Base.Tests.{◌==◌}
use keycard_go.Base.Lists.{
  All, take, drop, replicate, length, length-take, length-append, length-replicate, take-append,
}
use keycard_go.Base.Bits.{bit_or_shifted}

abbrev pub Bytes : Type 0
Bytes = List ℕ

abbrev pub IsByte : ℕ → Type 0
IsByte b = b < 256

abbrev pub AllBytes : Bytes → Type 0
AllBytes = All IsByte

-- Go's conversions `uint8(n)`, `uint16(n)` and `uint32(n)` of a number that is not negative.
abbrev pub uint8 : ℕ → ℕ
uint8 n = n % 256

abbrev pub uint16 : ℕ → ℕ
uint16 n = n % 65536

abbrev pub uint32 : ℕ → ℕ
uint32 n = n % 4294967296

-- `x[a:b]`
abbrev pub slice : ℕ → ℕ → Bytes → Bytes
slice a n xs = take n (drop a xs)

-- `copy` of a slice into a fresh array of `n` zero bytes.
abbrev pub copy_into : ℕ → Bytes → Bytes
copy_into n xs = take n (xs ++ replicate n 0)

pub length-copy_into : (n : ℕ) (xs : Bytes) → length (copy_into n xs) ≡ n
length-copy_into n xs = omega (
  arith,
  length-take n (xs ++ replicate n 0),
  length-append xs (replicate n 0),
  length-replicate n (zero),
)

pub copy_into_self : (xs : Bytes) → copy_into (length xs) xs ≡ xs
copy_into_self xs = take-append xs (replicate (length xs) 0)

-- `(x << 8) | b` for a byte `b`
pub shift_in : (x b : ℕ) → IsByte b → bit_or (x * 256) b ≡ x * 256 + b
shift_in x b h = bit_or_shifted 8 x b h

-- bytes.Equal
unfoldable pub bytes_equal : Bytes → Bytes → Bool
bytes_equal [] [] = true
bytes_equal (x ∷ xs) (y ∷ ys) = x == y && bytes_equal xs ys
bytes_equal _ _ = false

pub bytes_equal_refl : (xs : Bytes) → bytes_equal xs xs ≡ true
unfolding bytes_equal
bytes_equal_refl [] = refl
bytes_equal_refl (x ∷ xs) = ground (arith, bytes_equal_refl xs)

pub eq_of_bytes_equal : (xs ys : Bytes) → bytes_equal xs ys ≡ true → xs ≡ ys
unfolding bytes_equal
eq_of_bytes_equal [] [] h = refl
eq_of_bytes_equal (x ∷ xs) (y ∷ ys) h = ground (arith, eq_of_bytes_equal xs ys)
eq_of_bytes_equal [] (y ∷ ys) h = cc
eq_of_bytes_equal (x ∷ xs) [] h = cc
