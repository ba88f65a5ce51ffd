-- ===== src/Base/Decimal.antt =====
-- Decimal numbers as Go's strconv.ParseUint(s, 10, 32), strconv.FormatUint(n, 10) and fmt's %d read
-- and print them.
use Prim.Native.Nat.{ℕ, zero, suc, ◌+◌, ◌-◌, ◌*◌, ◌/◌, ◌%◌, ◌^◌, ◌≤◌, ◌<◌}
use mathlib.Core.Path.{◌≡◌, refl, ◌∙◌, ap}
use mathlib.Core.Logic.{inl, inr}
use mathlib.Core.Bool.{Bool, true, false, ◌||◌}
use mathlib.Core.Option.{Option, none, some}
use mathlib.Core.List.{[], ◌∷◌, ◌++◌}
use native.Mathlib.Omega.{arith}
use native.Mathlib.Nat.{pow-suc}
use keycard_go.Base.Tests.{ltb, if◌then◌else◌, ltb→lt, Bool-cases, ge→ltb}
use keycard_go.Base.Lists.{All, length, All-append, length-append}
use keycard_go.Base.Bytes.{Bytes}

-- The digits of a number below 10 ^ `places`, the first `places` of them from the right.
unfoldable pub print : ℕ → ℕ → Bytes
print zero n = []
print (suc places) n =
    let front = print places (n / 10) in
    if ltb n 10 then (48 + n) ∷ [] else front ++ ((48 + n % 10) ∷ [])

-- A uint64 has at most 20 digits.
abbrev pub format_uint : ℕ → Bytes
format_uint n = print 20 n

abbrev pub IsDigit : ℕ → Type 0
IsDigit c = (48 ≤ c) × (c ≤ 57)

unfoldable pub value : ℕ → Bytes → ℕ
value n [] = n
value n (c ∷ rest) = value (n * 10 + (c - 48)) rest

unfoldable pub all_digits : Bytes → Bool
all_digits [] = true
all_digits (c ∷ rest) =
    let others = all_digits rest in if ltb c 48 || ltb 57 c then false else others

-- `none` is an error: no digits, another byte, or a number that does not fit 32 bits.
unfoldable pub parse_uint32 : Bytes → Option ℕ
parse_uint32 [] = none
parse_uint32 (c ∷ rest) =
    let digits = c ∷ rest in
    if all_digits digits
    then (if ltb 0xffffffff (value 0 digits) then none else some (value 0 digits))
    else none

value-append : (n : ℕ) (xs : Bytes) (c : ℕ) → value n (xs ++ (c ∷ [])) ≡ value n xs * 10 + (c - 48)
unfolding value
value-append n [] c = refl
value-append n (x ∷ xs) c = value-append (n * 10 + (x - 48)) xs c

pub value-print : (places n : ℕ) → n < 10 ^ places → value 0 (print places n) ≡ n
unfolding print
value-print zero n h = unfold value in omega arith
value-print (suc places) n h = elim (Bool-cases (ltb n 10)) [
  | inl small ↦ rw small (unfold value in omega arith)
  | inr large ↦
      let less : n / 10 < 10 ^ places = omega (arith, pow-suc 10 places) in
      rw
        (
          large,
          value-append 0 (print places (n / 10)) (48 + n % 10),
          value-print places (n / 10) less,
        )
        (omega arith)
]

pub print-All : (places n : ℕ) → All IsDigit (print places n)
unfolding print
print-All zero n = tt
print-All (suc places) n = elim (Bool-cases (ltb n 10)) [
  | inl small ↦ let lt = ltb→lt n 10 small in rw small (omega arith)
  | inr large ↦ rw large (
      All-append IsDigit (print places (n / 10)) ((48 + n % 10) ∷ []) (omega arith)
        (print-All places (n / 10)))
]

all_digits_lem : (xs : Bytes) → All IsDigit xs → all_digits xs ≡ true
unfolding all_digits
all_digits_lem [] h = refl
all_digits_lem (x ∷ xs) (hx, hs) = ground (arith, all_digits_lem xs hs)

pub some_digit : (places n : ℕ) → 0 < places → 0 < length (print places n)
unfolding print
some_digit zero n h = omega arith
some_digit (suc places) n h = elim (Bool-cases (ltb n 10)) [
  | inl small ↦ rw small (omega arith)
  | inr large ↦ rw (large, length-append (print places (n / 10)) ((48 + n % 10) ∷ [])) (omega arith)
]

parse_digits :
    (xs : Bytes)
    → 0 < length xs
    → All IsDigit xs
    → value 0 xs < 0x100000000
    → parse_uint32 xs ≡ some (value 0 xs)
unfolding parse_uint32
parse_digits [] h hd hv = absurd (omega arith)
parse_digits (x ∷ xs) h hd hv =
    rw (all_digits_lem (x ∷ xs) hd, ge→ltb 0xffffffff (value 0 (x ∷ xs)) (omega arith)) refl

-- A number of 32 bits is read back from its digits.
pub parse_uint32-format_uint : (n : ℕ) → n < 0x100000000 → parse_uint32 (format_uint n) ≡ some n
parse_uint32-format_uint n h =
    let v = value-print 20 n (omega arith) in
    parse_digits (print 20 n) (some_digit 20 n (omega arith)) (print-All 20 n) (rw v h) ∙ ap some v

pub parse_uint32_fits : (xs : Bytes) (n : ℕ) → parse_uint32 xs ≡ some n → n < 0x100000000
unfolding parse_uint32
parse_uint32_fits [] n h = absurd cc
parse_uint32_fits (x ∷ xs) n h = ground arith
