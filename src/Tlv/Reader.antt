-- ===== src/Tlv/Reader.antt =====
-- BerTlvReader of tlv/tlv.go: a cursor over a byte slice. A method that fails leaves the cursor where
-- it was when the error came up, so the reader comes back beside the error.
pub mod Bounds
pub mod Steps
pub mod Fields
use keycard_go.Base.{
  ℕ, suc, ◌+◌, ◌-◌, ◌≡◌, Bool, true, false, List, [], ◌∷◌, ltb, leb, ◌==◌, if◌then◌else◌, length,
  get_or, drop, Option, none, some, bit_or, Result, ok, err, tlv, no_tag, unexpected_tag,
  value_truncated, skip_truncated, bad_boolean, bad_integer, ◌*◌,
}
use keycard_go.Base.Bytes.{Bytes, slice, uint32}
use keycard_go.Base.Int.{ℤ, pos, negsuc}
use keycard_go.Base.Exec.{Exec, pure, raise, lift, ◌>>=◌, ◌>>◌}
use keycard_go.Tlv.Length.{decode_ber_length}
use keycard_go.Tlv.Tags.{tlv_bool, tlv_int}

pub record BerTlvReader : Type 0 where
  pub buffer : Bytes
  pub pos : ℕ

abbrev pub new_ber_tlv_reader : Bytes → BerTlvReader
new_ber_tlv_reader buffer = record { buffer = buffer; pos = 0 }

pub read_tag : Exec BerTlvReader ℕ
read_tag r =
    if leb (length r.buffer) r.pos
    then (err (tlv no_tag), r)
    else (ok (get_or r.buffer r.pos 0), record r { pos = r.pos + 1 })

pub next_tag_is : BerTlvReader → ℕ → Bool
next_tag_is r expected =
    if ltb r.pos (length r.buffer) then get_or r.buffer r.pos 0 == expected else false

advance_to : Result (ℕ × ℕ) → Exec BerTlvReader ℕ
advance_to (ok (length, next_pos)) r = (ok length, record r { pos = next_pos })
advance_to (err e) r = (err e, r)

pub read_length : Exec BerTlvReader ℕ
unfolding advance_to
read_length r = advance_to (decode_ber_length r.buffer r.pos) r

pub enter_constructed : ℕ → Exec BerTlvReader ℕ
enter_constructed tag = do
  actual_tag ← read_tag
  if actual_tag == tag then read_length else raise (tlv unexpected_tag)

-- The sum is of 64-bit numbers and cannot wrap: a position is below 2 ^ 63, a length below 2 ^ 32.
pub has : BerTlvReader → ℕ → Bool
has r count = leb (r.pos + count) (length r.buffer)

-- The end of ReadPrimitive: the check and the slice.
read_value : ℕ → Exec BerTlvReader Bytes
unfolding has
read_value count r =
    if has r count
    then (ok (slice r.pos count r.buffer), record r { pos = r.pos + count })
    else (err (tlv value_truncated), r)

pub read_primitive : ℕ → Exec BerTlvReader Bytes
read_primitive tag = do
  actual_tag ← read_tag
  if actual_tag == tag then read_length >>= read_value else raise (tlv unexpected_tag)

-- `none` is Go's nil slice, the answer where the next tag is another one.
pub read_primitive_if_present : ℕ → Exec BerTlvReader (Option Bytes)
read_primitive_if_present tag r =
    (if next_tag_is r tag then (do value ← read_primitive tag; pure (some value)) else pure none) r

pub skip : ℕ → Exec BerTlvReader Unit
unfolding has
skip count r =
    if has r count then (ok tt, record r { pos = r.pos + count }) else (err (tlv skip_truncated), r)

pub skip_primitive : Exec BerTlvReader Unit
skip_primitive = do tag ← read_tag; count ← read_length; skip count

pub boolean_value : Bytes → Result Bool
boolean_value value =
    if length value == 1 then ok (get_or value 0 0 == 0xff) else err (tlv bad_boolean)

pub read_boolean : Exec BerTlvReader Bool
read_boolean = do value ← read_primitive tlv_bool; lift (boolean_value value)

-- `for _, b := range value { result = (result << 8) | int32(b) }`; an int32 is its bit pattern.
unfoldable pub integer_loop : ℕ → Bytes → ℕ
integer_loop result [] = result
integer_loop result (b ∷ rest) = integer_loop (bit_or (uint32 (result * 256)) b) rest

unfoldable pub integer_value : Bytes → Result ℕ
unfolding integer_loop
integer_value value =
    if length value == 0
    then err (tlv bad_integer)
    else if ltb 4 (length value)
    then err (tlv bad_integer)
    else ok (integer_loop 0 value)

pub read_integer : Exec BerTlvReader ℕ
read_integer = do value ← read_primitive tlv_int; lift (integer_value value)

pub peek_unread : BerTlvReader → Bytes
peek_unread r = if ltb r.pos (length r.buffer) then drop r.pos r.buffer else []

clamped : ℕ → BerTlvReader → BerTlvReader
clamped target r =
    if ltb (length r.buffer) target
    then record r { pos = length r.buffer }
    else record r { pos = target }

-- A negative count moves the cursor back. `none` is a position in front of the buffer, where the
-- methods that read panic.
pub advance : ℤ → BerTlvReader → Option BerTlvReader
unfolding clamped
advance (pos count) r = some (clamped (r.pos + count) r)
advance (negsuc n) r = if ltb n r.pos then some (clamped (r.pos - suc n) r) else none
