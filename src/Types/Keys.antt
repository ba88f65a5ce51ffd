-- ===== src/Types/Keys.antt =====
-- types/lee.go, types/exported_key.go and types/bip32.go. The public key of a private key is computed
-- by libraries and is a parameter.
pub mod RoundTrip
use keycard_go.Base.{
  ℕ, Bool, true, false, not, ◌&&◌, [], ◌∷◌, ltb, ◌==◌, if◌then◌else◌, length, Option, none, some,
  Result, ok, err, parsing, lee_secret_length,
}
use keycard_go.Base.Bytes.{Bytes}
use keycard_go.Base.Exec.{Exec, pure, raise, lift, ◌>>=◌, ◌>>◌}
use keycard_go.Tlv.Reader.{
  BerTlvReader, new_ber_tlv_reader, next_tag_is, read_primitive, read_primitive_if_present,
  enter_constructed,
}
use keycard_go.Tlv.Writer.{BerTlvWriter, new_ber_tlv_writer, write_primitive, write_constructed}
use keycard_go.Tlv.{
  tlv_key_template, tlv_pub_key, tlv_priv_key, tlv_chain_code, tlv_lee_ask, tlv_lee_nsk,
  tlv_lee_vsk_d, tlv_lee_vsk_z,
}

abbrev pub lee_secret_size : ℕ
lee_secret_size = 32

pub record LeeKey : Type 0 where
  pub ask : Bytes
  pub nsk : Bytes
  pub vsk_d : Bytes
  pub vsk_z : Bytes

sized_secret : Bytes → Exec BerTlvReader Bytes
sized_secret value =
    if length value == lee_secret_size then pure value else raise (parsing lee_secret_length)

read_lee_secret : ℕ → Exec BerTlvReader Bytes
unfolding sized_secret
read_lee_secret tag = do value ← read_primitive tag; sized_secret value

read_lee_key : Exec BerTlvReader LeeKey
unfolding read_lee_secret
read_lee_key = do
  ask ← read_lee_secret tlv_lee_ask
  nsk ← read_lee_secret tlv_lee_nsk
  vsk_d ← read_lee_secret tlv_lee_vsk_d
  vsk_z ← read_lee_secret tlv_lee_vsk_z
  pure (record { ask = ask; nsk = nsk; vsk_d = vsk_d; vsk_z = vsk_z })

-- A reader of its own for the content of a template.
inside : {A : Type 0} → Exec BerTlvReader A → Result Bytes → Result A
inside read (ok tpl) = (read (new_ber_tlv_reader tpl)).0
inside read (err e) = err e

unfoldable pub parse_lee_key : Bytes → Result LeeKey
unfolding inside read_lee_key
parse_lee_key input =
    inside read_lee_key (read_primitive tlv_key_template (new_ber_tlv_reader input)).0

pub record ExportedKey : Type 0 where
  pub pub_key : Option Bytes
  pub priv_key : Option Bytes
  pub chain_code : Option Bytes

-- `len(x)` of a slice that may be nil
slice_length : Option Bytes → ℕ
slice_length none = 0
slice_length (some bytes) = length bytes

slice_bytes : Option Bytes → Bytes
slice_bytes none = []
slice_bytes (some bytes) = bytes

module _ (public_key_of : Bytes → Result Bytes) where
  with_public_key : ExportedKey → Result Bytes → Result ExportedKey
  with_public_key key (ok pub_key) = ok (record key { pub_key = some pub_key })
  with_public_key key (err e) = err e

  complete : ExportedKey → Result ExportedKey
  unfolding with_public_key slice_length slice_bytes
  complete key =
      if slice_length key.pub_key == 0 && ltb 0 (slice_length key.priv_key)
      then with_public_key key (public_key_of (slice_bytes key.priv_key))
      else ok key

  read_exported_key : Exec BerTlvReader ExportedKey
  unfolding complete
  read_exported_key = do
    pub_key ← read_primitive_if_present tlv_pub_key
    priv_key ← read_primitive_if_present tlv_priv_key
    chain_code ← read_primitive_if_present tlv_chain_code
    lift (complete (record { pub_key = pub_key; priv_key = priv_key; chain_code = chain_code }))

  unfoldable pub parse_export_key_response : Bytes → Result ExportedKey
  unfolding inside read_exported_key
  parse_export_key_response input =
      inside read_exported_key (read_primitive tlv_key_template (new_ber_tlv_reader input)).0

pub record Bip32KeyPair : Type 0 where
  pub private_key : Option Bytes
  pub chain_code : Option Bytes
  pub public_key : Option Bytes

unfoldable pub strip_leading_zero : Bytes → Bytes
strip_leading_zero [] = []
strip_leading_zero (b ∷ rest) = if ltb 32 (length (b ∷ rest)) && b == 0 then rest else b ∷ rest

module _ (compressed_key : Bytes → Bytes) where
  -- `compressed_key` is what secp256k1 makes of a private key.
  key_pair_with : Option Bytes → Option Bytes → Option Bytes
  key_pair_with (some private_key) none = some (compressed_key (strip_leading_zero private_key))
  key_pair_with private_key public_key = public_key

  unfoldable pub new_bip32_key_pair : Option Bytes → Option Bytes → Option Bytes → Bip32KeyPair
  unfolding key_pair_with
  new_bip32_key_pair private_key chain_code public_key = record {
    private_key = private_key;
    chain_code = chain_code;
    public_key = key_pair_with private_key public_key;
  }

  read_key_pair : Exec BerTlvReader Bip32KeyPair
  read_key_pair = do
    length ← enter_constructed tlv_key_template
    pub_key ← read_primitive_if_present tlv_pub_key
    priv_key ← read_primitive_if_present tlv_priv_key
    chain_code ← read_primitive_if_present tlv_chain_code
    pure (new_bip32_key_pair priv_key chain_code pub_key)

  -- `if reader.NextTagIs(tag) { x, err = reader.ReadPrimitive(tag) }` is ReadPrimitiveIfPresent.
  unfoldable pub bip32_key_pair_from_tlv : Bytes → Result Bip32KeyPair
  unfolding read_key_pair
  bip32_key_pair_from_tlv input = (read_key_pair (new_ber_tlv_reader input)).0

write_if : Bool → ℕ → Bytes → BerTlvWriter → BerTlvWriter
write_if true tag value w = write_primitive tag value w
write_if false tag value w = w

is_some : Option Bytes → Bool
is_some none = false
is_some (some bytes) = true

key_content : Bool → Bip32KeyPair → BerTlvWriter → BerTlvWriter
unfolding write_if is_some slice_length slice_bytes
key_content include_public k w =
    let w1 =
      write_if (include_public && ltb 0 (slice_length k.public_key)) tlv_pub_key
        (slice_bytes k.public_key) w in
    let w2 =
      write_if (is_some k.private_key) tlv_priv_key (strip_leading_zero (slice_bytes k.private_key))
        w1 in
    write_if (is_some k.chain_code) tlv_chain_code (slice_bytes k.chain_code) w2

unfoldable pub to_tlv : Bool → Bip32KeyPair → Bytes
unfolding key_content
to_tlv include_public k =
    (write_constructed tlv_key_template (key_content include_public k) new_ber_tlv_writer).buffer

unfoldable pub is_extended : Bip32KeyPair → Bool
unfolding is_some
is_extended k = is_some k.chain_code

unfoldable pub is_public_only : Bip32KeyPair → Bool
unfolding is_some
is_public_only k = not (is_some k.private_key)
