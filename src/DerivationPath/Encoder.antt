-- ===== src/DerivationPath/Encoder.antt =====
-- derivationpath/encoder.go. The pieces that strings.Join joins, each behind its separator.
use keycard_go.Base.{
  ℕ, zero, suc, ◌+◌, ◌-◌, ◌*◌, ◌/◌, List, [], ◌∷◌, ◌++◌, leb, if◌then◌else◌, length, drop, get_or,
}
use keycard_go.Base.Bytes.{Bytes}
use keycard_go.Base.Decimal.{format_uint}

unfoldable pub segment_text : ℕ → Bytes
segment_text i =
    if leb 0x80000000 i then format_uint (i - 0x80000000) ++ (0x27 ∷ []) else format_uint i

unfoldable pub joined : List ℕ → Bytes
joined [] = []
joined (i ∷ rest) = 0x2f ∷ (segment_text i ++ joined rest)

unfoldable pub encode : List ℕ → Bytes
encode raw_path = 0x6d ∷ joined raw_path

-- binary.Read of `count` big-endian uint32 values.
unfoldable pub read_uint32s : ℕ → Bytes → List ℕ
read_uint32s zero bytes = []
read_uint32s (suc count) bytes =
    (get_or bytes 0 0 * 0x1000000
      + get_or bytes 1 0 * 0x10000
      + get_or bytes 2 0 * 0x100
      + get_or bytes 3 0)
    ∷ read_uint32s count (drop 4 bytes)

-- The buffer holds the bytes that are read, so binary.Read does not fail.
unfoldable pub encode_from_bytes : Bytes → Bytes
encode_from_bytes bytes = encode (read_uint32s (length bytes / 4) bytes)
