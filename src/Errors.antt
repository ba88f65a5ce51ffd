-- ===== src/Errors.antt =====
-- errors.go: the check of an authentication response, and the same check in VerifyPIN and UnblockPIN
-- of command_set.go.
pub mod Masks
use keycard_go.Base.{
  ℕ, bit_and, ◌==◌, if◌then◌else◌, [], Option, none, some, Result, ok, err, bad_response,
  authentication_failed, wrong_pin, wrong_puk,
}
use keycard_go.Apdu.Response.{Response, sw_ok, check_ok}

abbrev pub sw_wrong_pin_mask : ℕ
sw_wrong_pin_mask = 0x63c0

-- `none` is a nil response.
unfoldable pub check_auth_ok : Option Response → Result (Unit {0})
check_auth_ok none = ok tt
check_auth_ok (some r) =
    if r.sw == sw_ok
    then ok tt
    else if bit_and r.sw 0xff00 == sw_wrong_pin_mask
    then err (wrong_pin (bit_and r.sw 0x000f))
    else err (bad_response r.sw authentication_failed)

pin_error : Response → Result Response → Result (Unit {0})
pin_error r (ok passed) = ok tt
pin_error r (err e) =
    if bit_and r.sw 0x63c0 == 0x63c0 then err (wrong_pin (bit_and r.sw 0x000f)) else err e

-- What VerifyPIN makes of the answer of sendProtected; an error comes without a response.
unfoldable pub verify_pin_result : Result Response → Result (Unit {0})
unfolding pin_error
verify_pin_result (ok r) = pin_error r (check_ok (ok r) [])
verify_pin_result (err e) = err e

puk_error : Response → Result Response → Result (Unit {0})
puk_error r (ok passed) = ok tt
puk_error r (err e) =
    if bit_and r.sw 0x63c0 == 0x63c0 then err (wrong_puk (bit_and r.sw 0x000f)) else err e

-- The same of UnblockPIN.
unfoldable pub unblock_pin_result : Result Response → Result (Unit {0})
unfolding puk_error
unblock_pin_result (ok r) = puk_error r (check_ok (ok r) [])
unblock_pin_result (err e) = err e
