-- ===== src/Tests/Tlv.antt =====
-- The TLV package on concrete bytes.
use keycard_go.Base.{◌≡◌, refl, [], ◌∷◌, ◌++◌, arith, length, ok, List}
use keycard_go.Base.Int.{pos}
use keycard_go.Tlv.Length.{encode_ber_length}
use keycard_go.Tlv.Reader.{BerTlvReader, read_primitive}
use keycard_go.Tlv.Reader.Bounds.{Call, advance_call, primitive_call, skip_call, integer_call}
use keycard_go.Tlv.Writer.{BerTlvWriter, write_primitive, integer_bytes}
use keycard_go.Tlv.RoundTrip.{read_primitive-write_primitive}

encode_300 : encode_ber_length 300 ≡ 0x82 ∷ 0x01 ∷ 0x2c ∷ []
unfolding encode_ber_length
encode_300 = refl

abbrev sequence : BerTlvWriter
sequence = record { buffer = 0x30 ∷ 0x08 ∷ [] }

read_primitive-write_primitive_example :
    read_primitive 0x02
      (record { buffer = (write_primitive 0x02 (1 ∷ 2 ∷ []) sequence).buffer ++ 5 ∷ []; pos = 2 })
    ≡ (
      ok (1 ∷ 2 ∷ []),
      record {
        buffer = (write_primitive 0x02 (1 ∷ 2 ∷ []) sequence).buffer ++ 5 ∷ [];
        pos = length (write_primitive 0x02 (1 ∷ 2 ∷ []) sequence).buffer;
      },
    )
read_primitive-write_primitive_example =
    read_primitive-write_primitive sequence 0x02 (1 ∷ 2 ∷ []) (5 ∷ []) (omega arith)

abbrev truncated : BerTlvReader
truncated = record { buffer = 0x80 ∷ 0x05 ∷ 1 ∷ []; pos = 0 }

abbrev some_calls : List Call
some_calls = primitive_call 0x80 ∷ skip_call ∷ advance_call (pos 9) ∷ integer_call ∷ []

minus_two : integer_bytes 0xfffffffe ≡ 0xff ∷ 0xff ∷ 0xff ∷ 0xfe ∷ []
unfolding integer_bytes
minus_two = refl
