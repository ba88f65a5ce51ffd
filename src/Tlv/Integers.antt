-- ===== src/Tlv/Integers.antt =====
-- INTEGER values: ReadInteger gives back the int32 that WriteInteger wrote.
use keycard_go.Base.{
  ℕ, ◌+◌, ◌*◌, ◌/◌, ◌^◌, ◌<◌, ◌≤◌, ◌≡◌, refl, ◌∙◌, arith, length, ok, dec_lt, [], ◌∷◌,
}
use native.Mathlib.Nat.{pow-suc, one-le-pow}
use keycard_go.Base.Bytes.{Bytes, AllBytes, uint8, shift_in, uint32, IsByte}
use keycard_go.Tlv.Reader.{integer_value, integer_loop}
use keycard_go.Tlv.Writer.{integer_bytes, int32_bytes}
use keycard_go.Tlv.BigEndian.{be_value, fits_next}

integer_loop_step :
    (result b : ℕ) (rest : Bytes)
    → result < 0x1000000
    → IsByte b
    → integer_loop result (b ∷ rest) ≡ integer_loop (result * 256 + b) rest
unfolding integer_loop
integer_loop_step result b rest hr hb =
    let e : uint32 (result * 256) ≡ result * 256 = omega arith in rw (e, shift_in result b hb)

integer_loop-be_value :
    (result : ℕ) (bs : Bytes)
    → AllBytes bs
    → (result + 1) * 256 ^ length bs ≤ 0x100000000
    → integer_loop result bs ≡ be_value result bs
unfolding be_value
integer_loop-be_value result [] hb fits = unfold integer_loop in refl
integer_loop-be_value result (b ∷ bs) hb fits =
    let p = 256 ^ length bs in
    let next =
      fits_next result b p hb.0 (one-le-pow (length bs) 256 (omega arith))
        (rw (pow-suc 256 (length bs)) at fits) in
    integer_loop_step result b bs next.0 hb.0
    ∙ integer_loop-be_value (result * 256 + b) bs hb.1 next.1

-- `bs` is what WriteInteger writes for `n`, and stands for `n`.
record IsInteger (n : ℕ) (bs : Bytes) : Type 0 where
  written : integer_bytes n ≡ bs
  value : be_value 0 bs ≡ n
  bytes : AllBytes bs
  some_byte : 0 < length bs
  few : length bs ≤ 4
  fits : 256 ^ length bs ≤ 0x100000000

module _ (n : ℕ) where
  one_byte : n < 0x100 → IsInteger n (uint8 n ∷ [])
  unfolding integer_bytes be_value
  one_byte h = ground arith

  two_bytes : 0x100 ≤ n → n < 0x10000 → IsInteger n (uint8 (n / 0x100) ∷ uint8 n ∷ [])
  unfolding integer_bytes be_value
  two_bytes lo hi = ground arith

  three_bytes :
      0x10000 ≤ n
      → n < 0x1000000
      → IsInteger n (uint8 (n / 0x10000) ∷ uint8 (n / 0x100) ∷ uint8 n ∷ [])
  unfolding integer_bytes be_value
  three_bytes lo hi = ground arith

  four_bytes : 0x1000000 ≤ n → n < 0x100000000 → IsInteger n (int32_bytes n)
  unfolding integer_bytes be_value
  four_bytes lo hi = ground arith

  IsInteger-form : n < 0x100000000 → (bs : Bytes) × IsInteger n bs
  IsInteger-form h = elim (dec_lt n 0x100) [
    | yes a ↦ (_, one_byte a)
    | no a ↦ elim (dec_lt n 0x10000) [
      | yes b ↦ (_, two_bytes (omega arith) b)
      | no b ↦ elim (dec_lt n 0x1000000) [
        | yes c ↦ (_, three_bytes (omega arith) c)
        | no c ↦ (_, four_bytes (omega arith) h)
      ]
    ]
  ]

value_of_form : (n : ℕ) (bs : Bytes) → IsInteger n bs → integer_value (integer_bytes n) ≡ ok n
unfolding integer_value
value_of_form n bs f =
    let loop = integer_loop-be_value 0 bs f.bytes (omega (arith, f.fits)) in
    rw (f.written) (ground (arith, f.some_byte, f.few, loop, f.value))

-- ReadInteger's decoding gives back the int32 that WriteInteger encoded, negative numbers (bit
-- patterns from 2 ^ 31 on) included, and the encoding has one to four bytes.
pub integer_value-integer_bytes :
    (n : ℕ)
    → n < 0x100000000
    → (integer_value (integer_bytes n) ≡ ok n)
      × (0 < length (integer_bytes n))
      × (length (integer_bytes n) ≤ 4)
integer_value-integer_bytes n h =
    let (bs, f) = IsInteger-form n h in
    (value_of_form n bs f, rw f.written f.some_byte, rw f.written f.few)
