-- ===== src/GlobalPlatform/Session.antt =====
-- globalplatform/session.go.
use keycard_go.Base.{
  ℕ, not, ◌==◌, if◌then◌else◌, length, get_or, Result, ok, err, bad_response, gp_security,
  gp_blocked, gp_length, gp, bad_scp_version, bad_card_cryptogram,
}
use keycard_go.Base.Bytes.{Bytes, slice}
use keycard_go.Apdu.Response.{Response}
use keycard_go.GlobalPlatform.Des.{
  Des, derive_key, derivation_purpose_enc, derivation_purpose_mac, verify_cryptogram,
}
use keycard_go.GlobalPlatform.Scp02.{Scp02Keys}

abbrev pub supported_scp_version : ℕ
supported_scp_version = 2

pub record Session : Type 0 where
  pub keys : Scp02Keys
  pub card_challenge : Bytes
  pub host_challenge : Bytes

unfoldable pub new_session : Des → Scp02Keys → Response → Bytes → Result Session
new_session des card_keys resp host_challenge =
    let card_challenge = slice 12 8 resp.payload in
    let seq = slice 12 2 resp.payload in
    let enc = derive_key des card_keys.enc seq derivation_purpose_enc in
    if resp.sw == 0x6982
    then err (bad_response resp.sw gp_security)
    else if resp.sw == 0x6983
    then err (bad_response resp.sw gp_blocked)
    else if not (length resp.payload == 28)
    then err (bad_response resp.sw gp_length)
    else if not (get_or resp.payload 11 0 == supported_scp_version)
    then err (gp bad_scp_version)
    else if not (verify_cryptogram des enc host_challenge card_challenge (slice 20 8 resp.payload))
    then err (gp bad_card_cryptogram)
    else ok (record {
      keys = record { enc = enc; mac = derive_key des card_keys.enc seq derivation_purpose_mac };
      card_challenge = card_challenge;
      host_challenge = host_challenge;
    })
