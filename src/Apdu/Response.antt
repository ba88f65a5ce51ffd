-- ===== src/Apdu/Response.antt =====
-- apdu/response.go and apdu/utils.go. A nil error comes with a response and an error without one, so
-- the pair `(resp, err)` is a Result.
pub mod Checks
use keycard_go.Base.{
  ℕ, ◌+◌, ◌*◌, ◌-◌, bit_or, Bool, false, true, List, [], ◌∷◌, ltb, ◌==◌, if◌then◌else◌, length,
  get_or, take, Result, ok, err, bad_raw_response, bad_response, BadResponse,
  unexpected_status_word, not_one_of, unexpected_response,
}
use keycard_go.Base.Bytes.{Bytes, uint16}

pub record Response : Type 0 where
  pub payload : Bytes
  pub sw1 : ℕ
  pub sw2 : ℕ
  pub sw : ℕ

abbrev pub sw_ok : ℕ
sw_ok = 0x9000

-- ParseResponse; of a response that is too short the callers use the error only.
unfoldable pub parse_response : Bytes → Result Response
parse_response raw =
    if ltb (length raw) 2
    then err bad_raw_response
    else let n = length raw - 2 in
      let sw1 = get_or raw n 0 in
      let sw2 = get_or raw (n + 1) 0 in
      ok (record {
        payload = take n raw;
        sw1 = sw1;
        sw2 = sw2;
        sw = bit_or (uint16 (sw1 * 256)) sw2;
      })

unfoldable pub is_ok : Response → Bool
is_ok r = r.sw == sw_ok

-- The loops of CheckSW and CheckOK over the accepted codes.
one_of : List ℕ → ℕ → Bool
one_of [] sw = false
one_of (code ∷ codes) sw = if sw == code then true else one_of codes sw

-- The method CheckOK.
unfoldable pub response_check_ok : Response → Result (Unit {0})
response_check_ok r =
    if r.sw == sw_ok then ok tt else err (bad_response r.sw unexpected_status_word)

unfoldable pub check_sw : List ℕ → Response → Result (Unit {0})
unfolding one_of
check_sw codes r = if one_of codes r.sw then ok tt else err (bad_response r.sw not_one_of)

allowed : List ℕ → List ℕ
allowed [] = sw_ok ∷ []
allowed (code ∷ codes) = code ∷ codes

-- CheckOK of utils.go, with the response that it let through.
unfoldable pub check_ok : Result Response → List ℕ → Result Response
unfolding one_of allowed
check_ok (err e) codes = err e
check_ok (ok r) codes =
    if one_of (allowed codes) r.sw then ok r else err (bad_response r.sw unexpected_response)
