-- ===== src/Tlv/Length/RoundTrip.antt =====
-- The BER length codec: decoding gives back what was encoded, wherever it stands in the buffer.
use keycard_go.Base.{
  ℕ, suc, ◌+◌, ◌*◌, ◌<◌, ◌≤◌, ◌/◌, ◌≡◌, refl, ap, ◌∙◌, bit_and, [], ◌∷◌, ◌++◌, arith, length, drop,
  ◌^◌, drop-head, drop-tail, drop-in_range, length-drop, length-append, ok, dec_lt,
}
use native.Mathlib.Nat.{pow-suc, one-le-pow}
use keycard_go.Base.Bytes.{Bytes, uint8, uint32, IsByte, shift_in, AllBytes}
use keycard_go.Tlv.BigEndian.{be_value, fits_next}
use keycard_go.Tlv.Length.{encode_ber_length, length_loop, decode_ber_length}

-- One round of the loop, under a cursor that sees the byte `b`.
length_loop_step :
    (input : Bytes) (at left value b : ℕ) {rest : Bytes}
    → drop at input ≡ b ∷ rest
    → IsByte b
    → value < 0x1000000
    → length_loop input at (suc left) value ≡ length_loop input (at + 1) left (value * 256 + b)
unfolding length_loop
length_loop_step input at left value b h hb hv =
    let e : uint32 (value * 256) ≡ value * 256 = omega arith in
    rw (drop-head input at 0 h, e, shift_in value b hb)

decode_short :
    (input : Bytes) (off b : ℕ) {rest : Bytes}
    → drop off input ≡ b ∷ rest
    → b < 0x80
    → decode_ber_length input off ≡ ok (b, off + 1)
unfolding decode_ber_length
decode_short input off b h hb =
    rw (drop-head input off 0 h) (ground (arith, drop-in_range input off h))

-- The long form with `k` length bytes, of which the buffer has all.
decode_long :
    (input : Bytes) (off k : ℕ) {rest : Bytes}
    → drop off input ≡ (0x80 + k) ∷ rest
    → 0 < k
    → bit_and (0x80 + k) 0x7f ≡ k
    → k ≤ 4
    → k ≤ length rest
    → decode_ber_length input off ≡ ok (length_loop input (off + 1) k 0, off + 1 + k)
unfolding decode_ber_length
decode_long input off k h pos mask few room =
    let len : off + 1 + k ≤ length input = omega (arith, length-drop off input, ap length h) in
    rw (drop-head input off 0 h, mask) (ground (arith, drop-in_range input off h))

-- The loop reads the bytes under the cursor, if what they stand for fits 32 bits.
length_loop-be_value :
    (input : Bytes) (at value : ℕ) (bs rest : Bytes)
    → drop at input ≡ bs ++ rest
    → AllBytes bs
    → (value + 1) * 256 ^ length bs ≤ 0x100000000
    → length_loop input at (length bs) value ≡ be_value value bs
unfolding be_value
length_loop-be_value input at value [] rest h hb fits = unfold length_loop in refl
length_loop-be_value input at value (b ∷ bs) rest h hb fits =
    let p = 256 ^ length bs in
    let next =
      fits_next value b p hb.0 (one-le-pow (length bs) 256 (omega arith))
        (rw (pow-suc 256 (length bs)) at fits) in
    length_loop_step input at (length bs) value b h hb.0 next.0
    ∙ length_loop-be_value input (at + 1) (value * 256 + b) bs rest (drop-tail input at h) hb.1
        next.1

-- The long form of `n`: a prefix that counts the bytes, and the bytes.
record IsLongForm (n : ℕ) (bs : Bytes) : Type 0 where
  encoded : encode_ber_length n ≡ (0x80 + length bs) ∷ bs
  value : be_value 0 bs ≡ n
  bytes : AllBytes bs
  some_byte : 0 < length bs
  few : length bs ≤ 4
  mask : bit_and (0x80 + length bs) 0x7f ≡ length bs
  fits : 256 ^ length bs ≤ 0x100000000

module _ (n : ℕ) where
  IsLongForm-one : 0x80 ≤ n → n < 0x100 → IsLongForm n (uint8 n ∷ [])
  unfolding encode_ber_length be_value
  IsLongForm-one lo hi = ground arith

  IsLongForm-two : 0x100 ≤ n → n < 0x10000 → IsLongForm n (uint8 (n / 0x100) ∷ uint8 n ∷ [])
  unfolding encode_ber_length be_value
  IsLongForm-two lo hi = ground arith

  IsLongForm-three :
      0x10000 ≤ n
      → n < 0x1000000
      → IsLongForm n (uint8 (n / 0x10000) ∷ uint8 (n / 0x100) ∷ uint8 n ∷ [])
  unfolding encode_ber_length be_value
  IsLongForm-three lo hi = ground arith

  IsLongForm-four :
      0x1000000 ≤ n
      → n < 0x100000000
      → IsLongForm n
          (uint8 (n / 0x1000000) ∷ uint8 (n / 0x10000) ∷ uint8 (n / 0x100) ∷ uint8 n ∷ [])
  unfolding encode_ber_length be_value
  IsLongForm-four lo hi = ground arith

  encode_short : n < 0x80 → encode_ber_length n ≡ n ∷ []
  unfolding encode_ber_length
  encode_short h = ground arith

  encode_long : 0x80 ≤ n → n < 0x100000000 → (bs : Bytes) × IsLongForm n bs
  encode_long lo h = elim (dec_lt n 0x100) [
    | yes a ↦ (_, IsLongForm-one lo a)
    | no a ↦ elim (dec_lt n 0x10000) [
      | yes b ↦ (_, IsLongForm-two (omega arith) b)
      | no b ↦ elim (dec_lt n 0x1000000) [
        | yes c ↦ (_, IsLongForm-three (omega arith) c)
        | no c ↦ (_, IsLongForm-four (omega arith) h)
      ]
    ]
  ]

decode_long_form :
    (input : Bytes) (off n : ℕ) (bs rest : Bytes)
    → IsLongForm n bs
    → drop off input ≡ encode_ber_length n ++ rest
    → decode_ber_length input off ≡ ok (n, off + length (encode_ber_length n))
decode_long_form input off n bs rest f h =
    let seen : drop off input ≡ (0x80 + length bs) ∷ bs ++ rest = rw f.encoded at h in
    let room : length bs ≤ length (bs ++ rest) = omega (arith, length-append bs rest) in
    let value =
      length_loop-be_value input (off + 1) 0 bs rest (drop-tail input off seen) f.bytes
        (omega (arith, f.fits)) in
    decode_long input off (length bs) seen f.some_byte f.mask f.few room
    ∙ rw (value, f.value, f.encoded) (ap (λ (k : ℕ). ok (n, k)) (omega arith))

-- Decoding returns the length that was encoded and the offset behind it, wherever the encoding
-- stands in the buffer and whatever follows it, for every uint32.
pub decode-encode :
    (input : Bytes) (off n : ℕ) (rest : Bytes)
    → n < 0x100000000
    → drop off input ≡ encode_ber_length n ++ rest
    → decode_ber_length input off ≡ ok (n, off + length (encode_ber_length n))
decode-encode input off n rest hn h = elim (dec_lt n 0x80) [
  | yes small ↦ let e = encode_short n small in rw e (decode_short input off n (rw e at h) small)
  | no large ↦
      let (bs, f) = encode_long n (omega arith) hn in decode_long_form input off n bs rest f h
]
