-- ===== src/SecureChannelV2/Handshake/Der.antt =====
-- parseDERSignature on the DER of two scalars.
use keycard_go.Base.{
  ℕ, suc, ◌+◌, ◌-◌, ◌<◌, ◌≤◌, ◌≡◌, refl, sym, ap, ◌∙◌, inl, inr, Bool-cases, false, [], ◌∷◌, ◌++◌,
  append-nil, arith, length, length-append, take-append, ltb, ge→ltb, ◌==◌, leb, if◌then◌else◌,
  replicate, ok,
}
use keycard_go.Base.Bytes.{Bytes}
use keycard_go.SecureChannelV2.Handshake.{
  parse_der_signature, sequence_content, in_sequence, integers, or_fail, scalar_from_der_integer,
  trim_sign,
}
use keycard_go.Tlv.Length.{encode_ber_length}
use keycard_go.Tlv.Reader.{new_ber_tlv_reader}
use keycard_go.Tlv.Reader.Fields.{value_lem, next_is, enter_lem, peek_unread_lem}
use keycard_go.Tlv.Writer.Output.{primitive, primitive_le}
use keycard_go.Types.Certificate.{padded_32}

-- A scalar without its leading zeros.
abbrev pub stripped : Bytes → Bytes
stripped [] = []
stripped (b ∷ rest) = let shorter = stripped rest in if b == 0 then shorter else b ∷ rest

-- DER puts a zero before a high bit.
abbrev signed : Bytes → Bytes
signed [] = []
signed (b ∷ rest) = if leb 0x80 b then 0 ∷ b ∷ rest else b ∷ rest

abbrev pub der_integer : Bytes → Bytes
der_integer scalar = primitive 0x02 (signed (stripped scalar))

abbrev pub der_signature : Bytes → Bytes → Bytes
der_signature r s = primitive 0x30 (der_integer r ++ der_integer s)

zeros_of : Bytes → ℕ
zeros_of [] = 0
zeros_of (b ∷ rest) = let more = zeros_of rest in if b == 0 then suc more else 0

stripped_whole :
    (scalar : Bytes)
    → (length scalar ≡ zeros_of scalar + length (stripped scalar))
      × (replicate (zeros_of scalar) 0 ++ stripped scalar ≡ scalar)
unfolding zeros_of
stripped_whole [] = (refl, refl)
stripped_whole (b ∷ rest) =
    let (size, whole) = stripped_whole rest in
    elim (Bool-cases (b == 0)) [
      | inl zero_byte ↦
          let same : b ≡ 0 = ground (arith, zero_byte) in
          rw (zeros_of, zero_byte) (omega (arith, size), cc (whole, same))
      | inr other ↦ rw (zeros_of, other) (omega arith, refl)
    ]

padded_32-stripped : (scalar : Bytes) → length scalar ≡ 32 → padded_32 (stripped scalar) ≡ scalar
padded_32-stripped scalar h =
    let (size, whole) = stripped_whole scalar in
    let missing : 32 - length (stripped scalar) ≡ zeros_of scalar = omega (arith, size, h) in
    rw (missing, whole) refl

trim-signed : (scalar : Bytes) → trim_sign (signed (stripped scalar)) ≡ stripped scalar
unfolding trim_sign
trim-signed [] = refl
trim-signed (b ∷ rest) = elim (Bool-cases (b == 0)) [
  | inl zero_byte ↦ rw zero_byte (trim-signed rest)
  | inr other ↦ elim (Bool-cases (leb 0x80 b)) [
    | inl high ↦ rw (other, high) refl
    | inr low ↦ rw (other, low, other) refl
  ]
]

length-signed : (bytes : Bytes) → length (signed bytes) ≤ length bytes + 1
length-signed [] = omega arith
length-signed (b ∷ rest) = ground arith

-- A scalar of a signature: 32 bytes that are not all zero.
pub record IsScalar (scalar : Bytes) : Type 0 where
  pub size : length scalar ≡ 32
  pub not_zero : 0 < length (stripped scalar)

module _ (scalar : Bytes) (h : IsScalar scalar) where
  signed_short : length (signed (stripped scalar)) ≤ 33
  signed_short = omega (arith, length-signed (stripped scalar), (stripped_whole scalar).0, h.size)

  scalar_lem : scalar_from_der_integer (signed (stripped scalar)) ≡ ok scalar
  unfolding scalar_from_der_integer
  scalar_lem =
      let few : length (stripped scalar) ≤ 32 = omega (arith, (stripped_whole scalar).0, h.size) in
      let some_byte : (length (stripped scalar) == 0) ≡ false = ground (arith, h.not_zero) in
      rw (trim-signed scalar, some_byte, ge→ltb 32 (length (stripped scalar)) few)
        (ap (λ (x : Bytes). ok x) (padded_32-stripped scalar h.size))

-- The V2 channel reads the DER signature of any two scalars back as them, whatever follows it.
pub parse_der_signature-der_signature :
    (r s rest : Bytes)
    → IsScalar r
    → IsScalar s
    → parse_der_signature (der_signature r s ++ rest) ≡ ok (r, s)
unfolding parse_der_signature in_sequence sequence_content integers or_fail
parse_der_signature-der_signature r s rest hr hs =
    let r' = signed (stripped r) in
    let s' = signed (stripped s) in
    let content = der_integer r ++ der_integer s in
    let short_r = signed_short r hr in
    let short_s = signed_short s hs in
    let small : length content < 0x100000000 = omega (
      arith,
      primitive_le 0x02 r',
      primitive_le 0x02 s',
      short_r,
      short_s,
      length-append (der_integer r) (der_integer s),
    ) in
    let reader = new_ber_tlv_reader (der_signature r s ++ rest) in
    let is_der = next_is reader 0x30 _ refl in
    let (r0, outer, left) = enter_lem reader 0x30 content rest small refl in
    let (r1, first, left1) =
      value_lem (new_ber_tlv_reader content) 0x02 r' (der_integer s) (omega (arith, short_r))
        refl in
    let (_, second, _) =
      value_lem r1 0x02 s' [] (omega (arith, short_s)) (left1 ∙ sym (append-nil (der_integer s))) in
    let fits : ltb (length (content ++ rest)) (length content) ≡ false =
      ge→ltb _ _ (omega (arith, length-append content rest)) in
    rw
      (
        is_der,
        outer,
        in_sequence,
        peek_unread_lem r0,
        left,
        sequence_content,
        fits,
        take-append content rest,
        integers,
        or_fail,
        first,
        second,
        scalar_lem r hr,
        scalar_lem s hs,
      )
      refl

pub der_signature_long : (r s rest : Bytes) → 2 ≤ length (der_signature r s ++ rest)
der_signature_long r s rest =
    let content = der_integer r ++ der_integer s in
    omega (
      arith,
      length-append (der_signature r s) rest,
      length-append (encode_ber_length (length content)) content,
    )
