-- ===== src/Types/Keys/RoundTrip.antt =====
-- Keys that are written as TLV and read back.
use keycard_go.Base.{
  ℕ, ◌<◌, ◌≤◌, ◌≡◌, refl, sym, ap, ◌∙◌, true, false, ◌&&◌, [], ◌∷◌, ◌++◌, append_assoc, append-nil,
  arith, length, length-append, Option, none, some, ok, ◌==◌, ltb,
}
use keycard_go.Base.Bytes.{Bytes}
use keycard_go.Tlv.Writer.{BerTlvWriter, new_ber_tlv_writer, write_primitive}
use keycard_go.Tlv.Writer.Output.{
  primitive, primitive_le, write_primitive_lem, write_constructed_lem,
}
use keycard_go.Tlv.Reader.{BerTlvReader, new_ber_tlv_reader}
use keycard_go.Tlv.Reader.Steps.{unread}
use keycard_go.Tlv.Reader.Fields.{field, IsShort, Avoids, Reads, value_lem, field_lem, enter_lem}
use keycard_go.Types.Keys.{
  LeeKey, parse_lee_key, inside, read_lee_key, read_lee_secret, sized_secret, Bip32KeyPair,
  bip32_key_pair_from_tlv, read_key_pair, new_bip32_key_pair, key_pair_with, to_tlv, key_content,
  write_if, is_some, slice_length, slice_bytes, strip_leading_zero,
}

-- What the card answers to EXPORT LEE.
abbrev pub lee_fields : LeeKey → Bytes
lee_fields key =
    primitive 0x84 key.ask
    ++ (primitive 0x83 key.nsk ++ (primitive 0x85 key.vsk_d ++ primitive 0x86 key.vsk_z))

lee_secret_lem :
    (r : BerTlvReader) (tag : ℕ) (value rest : Bytes)
    → length value ≡ 32
    → unread r ≡ primitive tag value ++ rest
    → Reads value rest (read_lee_secret tag r)
unfolding read_lee_secret sized_secret
lee_secret_lem r tag value rest size h =
    let (r', read, left) = value_lem r tag value rest (omega arith) h in
    (r', rw (read, size) refl, left)

-- ParseLeeKey returns the four secrets of a key template that holds them in their order, 32 bytes
-- each, whatever follows the template.
pub parse_lee_key_lem :
    (key : LeeKey) (rest : Bytes)
    → length key.ask ≡ 32
    → length key.nsk ≡ 32
    → length key.vsk_d ≡ 32
    → length key.vsk_z ≡ 32
    → parse_lee_key (primitive 0xa1 (lee_fields key) ++ rest) ≡ ok key
unfolding parse_lee_key inside read_lee_key
parse_lee_key_lem key rest h1 h2 h3 h4 =
    let content = lee_fields key in
    let after_nsk = primitive 0x85 key.vsk_d ++ primitive 0x86 key.vsk_z in
    let after_ask = primitive 0x83 key.nsk ++ after_nsk in
    let small : length content < 0x100000000 = omega (
      arith,
      primitive_le 0x84 key.ask,
      primitive_le 0x83 key.nsk,
      primitive_le 0x85 key.vsk_d,
      primitive_le 0x86 key.vsk_z,
      length-append (primitive 0x84 key.ask) after_ask,
      length-append (primitive 0x83 key.nsk) after_nsk,
      length-append (primitive 0x85 key.vsk_d) (primitive 0x86 key.vsk_z),
    ) in
    let (_, outer, _) =
      value_lem (new_ber_tlv_reader (primitive 0xa1 content ++ rest)) 0xa1 content rest small
        refl in
    let (r1, ask, left1) =
      lee_secret_lem (new_ber_tlv_reader content) 0x84 key.ask after_ask h1 refl in
    let (r2, nsk, left2) = lee_secret_lem r1 0x83 key.nsk after_nsk h2 left1 in
    let (r3, vsk_d, left3) = lee_secret_lem r2 0x85 key.vsk_d (primitive 0x86 key.vsk_z) h3 left2 in
    let (_, vsk_z, _) =
      lee_secret_lem r3 0x86 key.vsk_z [] h4
        (left3 ∙ sym (append-nil (primitive 0x86 key.vsk_z))) in
    rw (outer, inside, read_lee_key, ask, nsk, vsk_d, vsk_z) refl

strip_short :
    (private_key : Bytes) → length private_key ≤ 32 → strip_leading_zero private_key ≡ private_key
unfolding strip_leading_zero
strip_short [] h = refl
strip_short (b ∷ rest) h =
    let keep : (ltb 32 (length (b ∷ rest)) && b == 0) ≡ false = ground arith in rw keep refl

-- A chain code has 32 bytes, where there is one.
abbrev pub IsChain : Option Bytes → Type 0
IsChain none = Unit
IsChain (some chain_code) = length chain_code ≡ 32

IsChain-IsShort : (chain : Option Bytes) → IsChain chain → IsShort chain
IsChain-IsShort none h = tt
IsChain-IsShort (some chain_code) h = omega (arith, h)

write_chain :
    (chain : Option Bytes) (w : BerTlvWriter)
    → IsChain chain
    → (write_if (is_some chain) 0x82 (slice_bytes chain) w).buffer ≡ w.buffer ++ field 0x82 chain
unfolding write_if is_some slice_bytes
write_chain none w h = sym (append-nil w.buffer)
write_chain (some value) w h = write_primitive_lem w 0x82 value (omega (arith, h))

field_le : (chain : Option Bytes) → IsChain chain → length (field 0x82 chain) ≤ 38
field_le none h = omega arith
field_le (some value) h = omega (arith, primitive_le 0x82 value, h)

Avoids-chain : (chain : Option Bytes) → Avoids 0x81 (field 0x82 chain)
Avoids-chain none = tt
Avoids-chain (some value) = omega arith

module _ (private_key public_key : Bytes) (chain : Option Bytes)
    (h_private : length private_key ≤ 32) (some_public : 0 < length public_key)
    (h_public : length public_key ≤ 65) (h_chain : IsChain chain) where
  abbrev pub stored_key : Bip32KeyPair
  stored_key = record {
    private_key = some private_key;
    chain_code = chain;
    public_key = some public_key;
  }

  abbrev after_public : Bytes
  after_public = primitive 0x81 private_key ++ field 0x82 chain

  abbrev key_fields : Bytes
  key_fields = primitive 0x80 public_key ++ after_public

  key_content_lem : (key_content true stored_key new_ber_tlv_writer).buffer ≡ key_fields
  unfolding key_content write_if is_some slice_length slice_bytes
  key_content_lem =
      let there : ltb 0 (length public_key) ≡ true = ground arith in
      let w1 = write_primitive 0x80 public_key new_ber_tlv_writer in
      let first : w1.buffer ≡ primitive 0x80 public_key =
        write_primitive_lem new_ber_tlv_writer 0x80 public_key (omega arith) in
      let second = write_primitive_lem w1 0x81 private_key (omega arith) in
      let w2 = write_primitive 0x81 private_key w1 in
      rw (key_content, write_if, there, strip_short private_key h_private)
        (write_chain chain w2 h_chain
          ∙ ap (λ (t : Bytes). t ++ field 0x82 chain)
              (second ∙ ap (λ (t : Bytes). t ++ primitive 0x81 private_key) first)
          ∙ append_assoc (primitive 0x80 public_key) (primitive 0x81 private_key)
              (field 0x82 chain))

  -- A BIP32 key pair with a private key of at most 32 bytes and a public key is read back from its
  -- TLV, with its chain code if it has one.
  pub bip32_key_pair_from_tlv-to_tlv :
      (compressed_key : Bytes → Bytes)
      → bip32_key_pair_from_tlv compressed_key (to_tlv true stored_key) ≡ ok stored_key
  unfolding bip32_key_pair_from_tlv to_tlv read_key_pair new_bip32_key_pair key_pair_with
  bip32_key_pair_from_tlv-to_tlv compressed_key =
      let small : length key_fields < 0x100000000 = omega (
        arith,
        primitive_le 0x80 public_key,
        primitive_le 0x81 private_key,
        field_le chain h_chain,
        length-append (primitive 0x80 public_key) after_public,
        length-append (primitive 0x81 private_key) (field 0x82 chain),
      ) in
      let written : to_tlv true stored_key ≡ primitive 0xa1 key_fields =
        write_constructed_lem new_ber_tlv_writer 0xa1 (key_content true stored_key)
          (rw key_content_lem small)
        ∙ ap (primitive 0xa1) key_content_lem in
      let r = new_ber_tlv_reader (primitive 0xa1 key_fields) in
      let (r1, entered, left1) =
        enter_lem r 0xa1 key_fields [] small (sym (append-nil (primitive 0xa1 key_fields))) in
      let (r2, one, left2) =
        field_lem r1 0x80 (some public_key) after_public (omega arith) (omega arith)
          (left1 ∙ append-nil key_fields) in
      let (r3, two, left3) =
        field_lem r2 0x81 (some private_key) (field 0x82 chain) (omega arith) (Avoids-chain chain)
          left2 in
      let (_, three, _) =
        field_lem r3 0x82 chain [] (IsChain-IsShort chain h_chain) tt
          (left3 ∙ sym (append-nil (field 0x82 chain))) in
      rw (written, bip32_key_pair_from_tlv, read_key_pair, entered, one, two, three) refl
