-- ===== src/Types/ApplicationStatus.antt =====
-- types/application_status.go. A count is the bit pattern of the int32 that was read.
use keycard_go.Base.{ℕ, Bool, false, [], Result, ok, err}
use keycard_go.Base.Bytes.{Bytes}
use keycard_go.Base.Exec.{Exec, pure, ◌>>=◌}
use keycard_go.Tlv.Reader.{
  BerTlvReader, new_ber_tlv_reader, enter_constructed, read_integer, read_boolean,
}
use keycard_go.Tlv.{tlv_application_status_template}
use keycard_go.DerivationPath.Encoder.{encode_from_bytes}

pub record ApplicationStatus : Type 0 where
  pub pin_retry_count : ℕ
  pub puk_retry_count : ℕ
  pub key_initialized : Bool
  pub path_text : Bytes

value_or {ℓ} : {A : Type ℓ} → A → Result A → A
value_or default (ok a) = a
value_or default (err e) = default

-- `if err == nil { field = x }`: an error is dropped, and the cursor stays where it stopped.
or_default : {A : Type 0} → A → Exec BerTlvReader A → Exec BerTlvReader A
unfolding value_or
or_default default read r = let (result, r') = read r in (ok (value_or default result), r')

read_status : Exec BerTlvReader ApplicationStatus
unfolding or_default
read_status = do
  pin ← or_default 0 read_integer
  puk ← or_default 0 read_integer
  initialized ← or_default false read_boolean
  pure (record {
    pin_retry_count = pin;
    puk_retry_count = puk;
    key_initialized = initialized;
    path_text = [];
  })

parse_key_path_status : Bytes → ApplicationStatus
parse_key_path_status input = record {
  pin_retry_count = 0;
  puk_retry_count = 0;
  key_initialized = false;
  path_text = encode_from_bytes input;
}

status_in : Bytes → Result ℕ × BerTlvReader → Result ApplicationStatus
unfolding read_status parse_key_path_status
status_in input (ok length, r) = (read_status r).0
status_in input (err e, r) = ok (parse_key_path_status input)

unfoldable pub parse_application_status : Bytes → Result ApplicationStatus
unfolding status_in
parse_application_status input =
    status_in input (enter_constructed tlv_application_status_template (new_ber_tlv_reader input))
