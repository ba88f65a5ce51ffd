-- ===== src/Secrets.antt =====
-- secrets.go. What rand.Read and rand.Int give, or their error, is an argument; base64 and PBKDF2 with
-- PairingTokenSalt are functions.
pub mod Digits
use keycard_go.Base.{ℕ, ◌-◌, ◌++◌, length, replicate, Result, ok, err}
use keycard_go.Base.Bytes.{Bytes}
use keycard_go.Base.Decimal.{format_uint}

abbrev pub max_puk_number : ℕ
max_puk_number = 999999999999

abbrev pub max_pin_number : ℕ
max_pin_number = 999999

pub record Secrets : Type 0 where
  pub pin : Bytes
  pub puk : Bytes
  pub pairing_pass : Bytes
  pub pairing_token : Bytes

-- fmt.Sprintf("%0wd", n) of a number that is not negative.
unfoldable pub zero_padded : ℕ → ℕ → Bytes
zero_padded width n = let digits = format_uint n in replicate (width - length digits) 0x30 ++ digits

module _ (pairing_token_of : Bytes → Bytes) where
  unfoldable pub new_secrets : Bytes → Bytes → Bytes → Secrets
  new_secrets pin puk pairing_pass = record {
    pin = pin;
    puk = puk;
    pairing_pass = pairing_pass;
    pairing_token = pairing_token_of pairing_pass;
  }

  generated : Result ℕ → Result ℕ → Bytes → Result Secrets
  unfolding zero_padded
  generated (err e) pin pairing_pass = err e
  generated (ok puk) (err e) pairing_pass = err e
  generated (ok puk) (ok pin) pairing_pass = ok (record {
    pin = zero_padded 6 pin;
    puk = zero_padded 12 puk;
    pairing_pass = pairing_pass;
    pairing_token = pairing_token_of pairing_pass;
  })

  -- The bytes of the password, the number of the PUK and that of the PIN.
  unfoldable pub generate_secrets :
      (Bytes → Bytes) → Result Bytes → Result ℕ → Result ℕ → Result Secrets
  unfolding generated
  generate_secrets base64 (err e) puk pin = err e
  generate_secrets base64 (ok random) puk pin = generated puk pin (base64 random)
