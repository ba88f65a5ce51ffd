-- ===== src/Tests/Loading.antt =====
-- The authentication errors on concrete data.
use keycard_go.Base.{
  ◌≡◌, refl, [], arith, some, ok, err, bad_response, wrong_pin, wrong_puk, authentication_failed,
  ◌==◌, if◌then◌else◌,
}
use keycard_go.Apdu.Response.{Response, sw_ok}
use keycard_go.Errors.{check_auth_ok, verify_pin_result, unblock_pin_result}
use keycard_go.Errors.Masks.{check_auth_ok_lem, verify_pin_result_lem}

abbrev two_attempts : Response
two_attempts = record { payload = []; sw1 = 0x63; sw2 = 0xc2; sw = 0x63c2 }

check_auth_ok_lem_example :
    check_auth_ok (some two_attempts)
    ≡ (if 0x63c2 == sw_ok then ok tt else err (bad_response 0x63c2 authentication_failed))
check_auth_ok_lem_example = check_auth_ok_lem two_attempts

verify_pin_result_lem_example :
    (verify_pin_result (ok two_attempts) ≡ err (wrong_pin 2))
    × (unblock_pin_result (ok two_attempts) ≡ err (wrong_puk 2))
verify_pin_result_lem_example = verify_pin_result_lem two_attempts 2 (omega arith) refl
