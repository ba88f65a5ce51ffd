-- ===== src/Tlv/Length/Bounds.antt =====
-- What a length that was read can be, and where the next offset stands.
use keycard_go.Base.{
  ℕ, zero, suc, ◌+◌, ◌*◌, ◌%◌, ◌<◌, ◌≤◌, ◌≡◌, arith, length, get_or, ok, err, out_of_rounds, ◌≢◌,
  bit_or, bit_and, All-get_or,
}
use keycard_go.Base.Bytes.{Bytes, uint32, AllBytes, IsByte, shift_in}
use keycard_go.Tlv.Length.{length_loop, decode_ber_length}

length_loop-lt_pow :
    (input : Bytes) (at left value : ℕ)
    → AllBytes input
    → value < 0x100000000
    → length_loop input at left value < 0x100000000
unfolding length_loop
length_loop-lt_pow input at zero value hb h = h
length_loop-lt_pow input at (suc left) value hb h =
    let b = get_or input at 0 in
    let byte : IsByte b = All-get_or IsByte input at 0 hb (omega arith) in
    let e : uint32 (value * 256) ≡ value % 0x1000000 * 256 = omega arith in
    let fits : bit_or (uint32 (value * 256)) b < 0x100000000 =
      rw (e, shift_in (value % 0x1000000) b byte) (omega arith) in
    length_loop-lt_pow input (at + 1) left (bit_or (uint32 (value * 256)) b) hb fits

-- A length that was read stands inside the buffer and takes at most five bytes.
pub decode_bounds :
    (input : Bytes) (off n next : ℕ)
    → decode_ber_length input off ≡ ok (n, next)
    → (off < next) × (next ≤ length input) × (next ≤ off + 5)
unfolding decode_ber_length
decode_bounds input off n next h = ground arith

pub decode-lt_pow :
    (input : Bytes) (off n next : ℕ)
    → AllBytes input
    → decode_ber_length input off ≡ ok (n, next)
    → n < 0x100000000
unfolding decode_ber_length
decode-lt_pow input off n next hb h =
    ground (arith, length_loop-lt_pow input (off + 1) (bit_and (get_or input off 0) 0x7f) 0 hb)

pub decode_never_out_of_rounds :
    (input : Bytes) (off : ℕ) → decode_ber_length input off ≢ err out_of_rounds
unfolding decode_ber_length
decode_never_out_of_rounds input off h = ground arith
