-- ===== src/Types/ApplicationInfo/Fields.antt =====
-- What is read from the answer to SELECT, by the fields that the applet sends.
use keycard_go.Base.{
  ℕ, ◌<◌, ◌/◌, ◌≡◌, refl, sym, ◌∙◌, true, [], ◌∷◌, ◌++◌, append-nil, arith, length, Option, none,
  some, ok, ◌==◌, bit_and,
}
use keycard_go.Base.Bytes.{Bytes, uint8}
use keycard_go.Tlv.Writer.{integer_bytes}
use keycard_go.Tlv.Writer.Output.{primitive}
use keycard_go.Tlv.Reader.{BerTlvReader, new_ber_tlv_reader}
use keycard_go.Tlv.Reader.Steps.{unread}
use keycard_go.Tlv.Reader.Fields.{
  field, IsShort, Avoids, Avoids-field, Reads, value_lem, field_lem, integer_lem, enter_lem,
  next_is, next_is_not,
}
use keycard_go.Types.ApplicationInfo.{
  ApplicationInfo, parse_application_info, in_template, read_fields, read_status, read_slots,
  read_capabilities, first_of,
}

-- The fields of an answer, those that some versions of the applet leave out as options.
pub record Answer : Type 0 where
  pub uid : Option Bytes
  pub pub_key : Option Bytes
  pub version : ℕ
  pub status : Option ℕ
  pub slots : Option ℕ
  pub key_uid : Bytes
  pub capabilities : Option ℕ
  pub cert : Option Bytes

abbrev one_byte : Option ℕ → Option Bytes
one_byte none = none
one_byte (some b) = some (b ∷ [])

abbrev integer_field : Option ℕ → Option Bytes
integer_field none = none
integer_field (some n) = some (integer_bytes n)

abbrev after_key_uid : Answer → Bytes
after_key_uid a = field 0x8d (one_byte a.capabilities) ++ field 0x8a a.cert

abbrev after_slots : Answer → Bytes
after_slots a = primitive 0x8e a.key_uid ++ after_key_uid a

abbrev after_status : Answer → Bytes
after_status a = field 0x02 (integer_field a.slots) ++ after_slots a

abbrev after_version : Answer → Bytes
after_version a = field 0x8c (one_byte a.status) ++ after_status a

abbrev after_pub_key : Answer → Bytes
after_pub_key a = primitive 0x02 (integer_bytes a.version) ++ after_version a

abbrev after_uid : Answer → Bytes
after_uid a = field 0x80 a.pub_key ++ after_pub_key a

abbrev pub answer_fields : Answer → Bytes
answer_fields a = field 0x8f a.uid ++ after_uid a

abbrev pub or_else : ℕ → Option ℕ → ℕ
or_else default none = default
or_else default (some n) = n

abbrev pub low_byte : Option ℕ → Option Bytes
low_byte none = none
low_byte (some n) = some (uint8 n ∷ [])

-- What the answer says.
abbrev pub info_of : Answer → ApplicationInfo
info_of a = record {
  installed = true;
  initialized = bit_and (or_else 0x10 a.status) 0x10 == 0x10;
  instance_uid = a.uid;
  secure_channel_public_key = a.pub_key;
  version = uint8 (a.version / 256) ∷ uint8 a.version ∷ [];
  available_slots = low_byte a.slots;
  key_uid = some a.key_uid;
  capabilities = or_else 31 a.capabilities;
  cert_data = a.cert;
  app_status = or_else 0x10 a.status;
}

pub record IsAnswer (a : Answer) : Type 0 where
  pub short_uid : IsShort a.uid
  pub short_pub_key : IsShort a.pub_key
  pub small_version : a.version < 0x100000000
  pub small_slots : or_else 0 a.slots < 0x100000000
  pub short_key_uid : length a.key_uid < 0x100000000
  pub short_cert : IsShort a.cert
  pub short_fields : length (answer_fields a) < 0x100000000

one_byte-IsShort : (value : Option ℕ) → IsShort (one_byte value)
one_byte-IsShort none = tt
one_byte-IsShort (some b) = omega arith

module _ (r : BerTlvReader) (rest : Bytes) where
  status_lem :
      (status : Option ℕ)
      → Avoids 0x8c rest
      → unread r ≡ field 0x8c (one_byte status) ++ rest
      → Reads (or_else 0x10 status) rest (read_status r)
  unfolding read_status first_of
  status_lem none avoids h =
      let (r', read, left) = field_lem r 0x8c none rest tt avoids h in (r', rw read refl, left)
  status_lem (some b) avoids h =
      let (r', read, left) = field_lem r 0x8c (some (b ∷ [])) rest (omega arith) avoids h in
      (r', rw read refl, left)

  capabilities_lem :
      (capabilities : Option ℕ)
      → Avoids 0x8d rest
      → unread r ≡ field 0x8d (one_byte capabilities) ++ rest
      → Reads (or_else 31 capabilities) rest (read_capabilities r)
  unfolding read_capabilities first_of
  capabilities_lem none avoids h =
      let (r', read, left) = field_lem r 0x8d none rest tt avoids h in (r', rw read refl, left)
  capabilities_lem (some b) avoids h =
      let (r', read, left) = field_lem r 0x8d (some (b ∷ [])) rest (omega arith) avoids h in
      (r', rw read refl, left)

  slots_lem :
      (slots : Option ℕ)
      → or_else 0 slots < 0x100000000
      → Avoids 0x02 rest
      → unread r ≡ field 0x02 (integer_field slots) ++ rest
      → Reads (low_byte slots) rest (read_slots r)
  unfolding read_slots
  slots_lem none small avoids h = (r, rw (next_is_not r 0x02 rest h avoids) refl, h)
  slots_lem (some n) small avoids h =
      let (r', read, left) = integer_lem r n rest small h in
      (r', rw (next_is r 0x02 _ h, read) refl, left)

cert-Avoids : (cert : Option Bytes) → Avoids 0x8d (field 0x8a cert)
cert-Avoids none = tt
cert-Avoids (some value) = omega arith

module _ (a : Answer) (h : IsAnswer a) where
  fields_lem : (r : BerTlvReader) → unread r ≡ answer_fields a → (read_fields r).0 ≡ ok (info_of a)
  unfolding read_fields
  fields_lem r h0 =
      let (r1, e1, h1) =
        field_lem r 0x8f a.uid (after_uid a) h.short_uid
          (Avoids-field 0x8f 0x80 a.pub_key (after_pub_key a) (omega arith) (omega arith)) h0 in
      let (r2, e2, h2) =
        field_lem r1 0x80 a.pub_key (after_pub_key a) h.short_pub_key (omega arith) h1 in
      let (r3, e3, h3) = integer_lem r2 a.version (after_version a) h.small_version h2 in
      let (r4, e4, h4) =
        status_lem r3 (after_status a) a.status
          (Avoids-field 0x8c 0x02 (integer_field a.slots) (after_slots a) (omega arith)
            (omega arith))
          h3 in
      let (r5, e5, h5) = slots_lem r4 (after_slots a) a.slots h.small_slots (omega arith) h4 in
      let (r6, e6, h6) = value_lem r5 0x8e a.key_uid (after_key_uid a) h.short_key_uid h5 in
      let (r7, e7, h7) =
        capabilities_lem r6 (field 0x8a a.cert) a.capabilities (cert-Avoids a.cert) h6 in
      let (_, e8, _) =
        field_lem r7 0x8a a.cert [] h.short_cert tt (h7 ∙ sym (append-nil (field 0x8a a.cert))) in
      rw (read_fields, e1, e2, e3, e4, e5, e6, e7, e8) refl

  -- ParseApplicationInfo returns what an initialized card's answer says, whichever of the optional
  -- fields are there, with the defaults for the status and the capabilities when they are not.
  pub parse_application_info_lem :
      parse_application_info (primitive 0xa4 (answer_fields a)) ≡ ok (info_of a)
  unfolding parse_application_info in_template
  parse_application_info_lem =
      let content = answer_fields a in
      let r = new_ber_tlv_reader (primitive 0xa4 content) in
      let other = next_is_not r 0x80 (primitive 0xa4 content) refl (omega arith) in
      let (r1, entered, h1) =
        enter_lem r 0xa4 content [] h.short_fields (sym (append-nil (primitive 0xa4 content))) in
      rw (parse_application_info, other, entered, in_template)
        (fields_lem r1 (h1 ∙ append-nil content))
