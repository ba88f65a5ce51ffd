-- ===== src/Types/ApplicationInfo.antt =====
-- types/application_info.go and types/cash_application_info.go. A nil slice is `none`.
pub mod Fields
pub mod Accessors
use keycard_go.Base.{
  ℕ, ◌+◌, ◌*◌, ◌/◌, Bool, true, false, not, [], ◌∷◌, ltb, ◌==◌, if◌then◌else◌, length, get_or,
  Option, none, some, bit_and, bit_or, Result, ok, err, parsing, wrong_template, empty_status,
  empty_capabilities, trailing_data,
}
use keycard_go.Base.Bytes.{Bytes, uint8}
use keycard_go.Base.Exec.{Exec, pure, raise, ◌>>=◌, ◌>>◌}
use keycard_go.Tlv.Reader.{
  BerTlvReader, new_ber_tlv_reader, next_tag_is, read_primitive, read_primitive_if_present,
  enter_constructed, read_integer,
}
use keycard_go.Tlv.{
  tlv_pub_key, tlv_application_info_template, tlv_uid, tlv_status, tlv_int, tlv_key_uid,
  tlv_capabilities, tlv_cert, tlv_pub_data,
}

abbrev pub capability_secure_channel : ℕ
capability_secure_channel = 1

abbrev pub capability_key_management : ℕ
capability_key_management = 2

abbrev pub capability_credentials_management : ℕ
capability_credentials_management = 4

abbrev pub capability_ndef : ℕ
capability_ndef = 8

abbrev pub capability_factory_reset : ℕ
capability_factory_reset = 16

abbrev pub capability_all : ℕ
capability_all = 31

abbrev pub app_status_initialized : ℕ
app_status_initialized = 0x10

abbrev pub app_status_lee_mode : ℕ
app_status_lee_mode = 0x20

pub record ApplicationInfo : Type 0 where
  pub installed : Bool
  pub initialized : Bool
  pub instance_uid : Option Bytes
  pub secure_channel_public_key : Option Bytes
  pub version : Bytes
  pub available_slots : Option Bytes
  pub key_uid : Option Bytes
  pub capabilities : ℕ
  pub cert_data : Option Bytes
  pub app_status : ℕ

-- &ApplicationInfo{}
abbrev pub no_application_info_yet : ApplicationInfo
no_application_info_yet = record {
  installed = false;
  initialized = false;
  instance_uid = none;
  secure_channel_public_key = none;
  version = [];
  available_slots = none;
  key_uid = none;
  capabilities = 0;
  cert_data = none;
  app_status = 0;
}

unfoldable pub has_capability : ℕ → ApplicationInfo → Bool
has_capability c info = bit_and info.capabilities c == c

abbrev pub has_secure_channel_capability : ApplicationInfo → Bool
has_secure_channel_capability = has_capability capability_secure_channel

unfoldable pub is_lee_mode : ApplicationInfo → Bool
is_lee_mode info = not (bit_and info.app_status app_status_lee_mode == 0)

unfoldable pub app_version : ApplicationInfo → ℕ
app_version info =
    if ltb (length info.version) 2
    then 0
    else bit_or (get_or info.version 0 0 * 256) (get_or info.version 1 0)

-- The count of `PINRetries` where that says true.
unfoldable pub pin_retries : ApplicationInfo → Option ℕ
pin_retries info =
    if ltb (app_version info) 0x0400 then none else some (bit_and info.app_status 0x0f)

-- The first byte of a value that must have one; `none` is a tag that is not there.
first_of : Option Bytes → ℕ → Exec BerTlvReader ℕ → Exec BerTlvReader ℕ
first_of none default refusal = pure default
first_of (some []) default refusal = refusal
first_of (some (b ∷ rest)) default refusal = pure b

read_status : Exec BerTlvReader ℕ
unfolding first_of
read_status = do
  value ← read_primitive_if_present tlv_status
  first_of value app_status_initialized (raise (parsing empty_status))

read_capabilities : Exec BerTlvReader ℕ
unfolding first_of
read_capabilities = do
  value ← read_primitive_if_present tlv_capabilities
  first_of value capability_all (raise (parsing empty_capabilities))

read_slots : Exec BerTlvReader (Option Bytes)
read_slots r =
    (if next_tag_is r tlv_int
        then (do slots ← read_integer; pure (some (uint8 slots ∷ [])))
        else pure none)
      r

-- The fields of an initialized card, in their order. `if reader.NextTagIs(tag) { x, err =
-- reader.ReadPrimitive(tag) }` is what ReadPrimitiveIfPresent does.
unfoldable pub read_fields : Exec BerTlvReader ApplicationInfo
unfolding read_status read_slots read_capabilities
read_fields = do
  uid ← read_primitive_if_present tlv_uid
  pub_key ← read_primitive_if_present tlv_pub_key
  version ← read_integer
  status ← read_status
  slots ← read_slots
  key_uid ← read_primitive tlv_key_uid
  capabilities ← read_capabilities
  cert ← read_primitive_if_present tlv_cert
  pure (record {
    installed = true;
    initialized = bit_and status app_status_initialized == app_status_initialized;
    instance_uid = uid;
    secure_channel_public_key = pub_key;
    version = uint8 (version / 256) ∷ uint8 version ∷ [];
    available_slots = slots;
    key_uid = some key_uid;
    capabilities = capabilities;
    cert_data = cert;
    app_status = status;
  })

-- A card that is not initialized sends its public key only.
bare_info : Bytes → ApplicationInfo
bare_info pub_key = record no_application_info_yet {
  installed = true;
  secure_channel_public_key = some pub_key;
  capabilities =
      if ltb 0 (length pub_key)
      then bit_or capability_credentials_management capability_secure_channel
      else capability_credentials_management;
}

-- An error of EnterConstructed is replaced by the one of the template.
in_template : Result ℕ × BerTlvReader → Result ApplicationInfo
in_template (ok length, r) = (read_fields r).0
in_template (err e, r) = err (parsing wrong_template)

from_key : Result Bytes → Result ApplicationInfo
unfolding bare_info
from_key (ok pub_key) = ok (bare_info pub_key)
from_key (err e) = err e

unfoldable pub parse_application_info : Bytes → Result ApplicationInfo
unfolding in_template from_key
parse_application_info input =
    let reader = new_ber_tlv_reader input in
    if next_tag_is reader tlv_pub_key
    then from_key (read_primitive tlv_pub_key reader).0
    else in_template (enter_constructed tlv_application_info_template reader)

pub record CashApplicationInfo : Type 0 where
  pub installed : Bool
  pub public_key : Bytes
  pub public_data : Bytes
  pub version : Bytes

at_the_end : CashApplicationInfo → Exec BerTlvReader CashApplicationInfo
at_the_end info r =
    if r.pos == length r.buffer then (ok info, r) else (err (parsing trailing_data), r)

-- Of at least one byte; on none the code panics.
unfoldable pub parse_cash_application_info : Bytes → Result CashApplicationInfo
unfolding at_the_end
parse_cash_application_info input =
    if not (get_or input 0 0 == tlv_application_info_template)
    then err (parsing wrong_template)
    else ((do
      length ← enter_constructed tlv_application_info_template
      pub_key ← read_primitive tlv_pub_key
      version ← read_primitive tlv_int
      pub_data ← read_primitive tlv_pub_data
      at_the_end (record {
        installed = true;
        public_key = pub_key;
        public_data = pub_data;
        version = version;
      }))
        (new_ber_tlv_reader input)).0
