-- ===== src/Errors/Masks.antt =====
-- Which status words the two checks take for a wrong PIN.
use keycard_go.Base.{
  ap, ℕ, ◌+◌, ◌*◌, ◌/◌, ◌<◌, ◌≡◌, refl, false, arith, bit_and, ◌==◌, if◌then◌else◌, some, ok, err,
  bad_response, authentication_failed, wrong_pin, wrong_puk,
}
use keycard_go.Base.Bits.{bit_and_halves, bit_and-zero}
use keycard_go.Apdu.Response.{Response, sw_ok, check_ok}
use keycard_go.Errors.{check_auth_ok, verify_pin_result, unblock_pin_result}

-- The mask 0xFF00 clears the bit 6, which 0x63C0 has.
never_wrong_pin : (sw : ℕ) → (bit_and sw 0xff00 == 0x63c0) ≡ false
never_wrong_pin sw =
    let a = sw / 2 in
    let b = a / 2 in
    let c = b / 2 in
    let d = c / 2 in
    let e = d / 2 in
    let f = e / 2 in
    let even : bit_and sw 0xff00 ≡ 128 * bit_and (f / 2) 0x1fe = omega (
      arith,
      bit_and_halves sw 0xff00,
      bit_and_halves a 0x7f80,
      bit_and_halves b 0x3fc0,
      bit_and_halves c 0x1fe0,
      bit_and_halves d 0x0ff0,
      bit_and_halves e 0x07f8,
      bit_and_halves f 0x03fc,
    ) in
    rw even (ground arith)

-- CheckAuthOK never reports a wrong PIN: whatever the status word, a response that is not 9000 is
-- reported as a bad response, those of a wrong PIN (63C0 to 63CF) among them.
pub check_auth_ok_lem :
    (r : Response)
    → check_auth_ok (some r)
      ≡ (if r.sw == sw_ok then ok tt else err (bad_response r.sw authentication_failed))
unfolding check_auth_ok
check_auth_ok_lem r = rw (never_wrong_pin r.sw) refl

masks_of_wrong :
    (sw attempts : ℕ)
    → attempts < 16
    → sw ≡ 0x63c0 + attempts
    → ((sw == 0x9000) ≡ false) × (bit_and sw 0x63c0 ≡ 0x63c0) × (bit_and sw 0x000f ≡ attempts)
masks_of_wrong sw attempts few h =
    let a = sw / 2 in
    let b = a / 2 in
    let c = b / 2 in
    let d : c / 2 ≡ 0x63c = omega (arith, h) in
    let same : bit_and sw 0x63c0 ≡ 0x63c0 = omega (
      arith,
      bit_and_halves sw 0x63c0,
      bit_and_halves a 0x31e0,
      bit_and_halves b 0x18f0,
      bit_and_halves c 0x0c78,
      ap (λ (k : ℕ). bit_and k 0x063c) d,
    ) in
    let left : bit_and sw 0x000f ≡ attempts = omega (
      arith,
      h,
      bit_and_halves sw 15,
      bit_and_halves a 7,
      bit_and_halves b 3,
      bit_and_halves c 1,
      bit_and-zero (c / 2),
    ) in
    (ground arith, same, left)

-- VerifyPIN reports a wrong PIN and UnblockPIN a wrong PUK, with the attempts that are left, for the
-- status words 63C0 to 63CF.
pub verify_pin_result_lem :
    (r : Response) (attempts : ℕ)
    → attempts < 16
    → r.sw ≡ 0x63c0 + attempts
    → (verify_pin_result (ok r) ≡ err (wrong_pin attempts))
      × (unblock_pin_result (ok r) ≡ err (wrong_puk attempts))
unfolding verify_pin_result unblock_pin_result check_ok
verify_pin_result_lem r attempts few h =
    let (bad, same, left) = masks_of_wrong r.sw attempts few h in rw (bad, same, left) (refl, refl)
