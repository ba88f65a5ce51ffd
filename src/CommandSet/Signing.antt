-- ===== src/CommandSet/Signing.antt =====
-- command_set.go: the calls that sign.
use keycard_go.Base.{
  ℕ, not, ◌++◌, ◌==◌, if◌then◌else◌, length, replicate, bit_or, Result, ok, err, command_error,
  bad_data_length, bad_hash_length, bad_tweak_length,
}
use keycard_go.Base.Bytes.{Bytes}
use keycard_go.Base.Exec.{raise, lift, ◌>>=◌}
use keycard_go.Apdu.Command.{new_command}
use keycard_go.Constants.Instructions.{ins_sign}
use keycard_go.Constants.Parameters.{
  p1_sign_current_key, p1_sign_derive, p1_sign_pinless, p2_sign_ecdsa, p2_sign_bip340_schnorr,
}
use keycard_go.CommandSet.{Outside, Call, fetched, send_plain}
use keycard_go.DerivationPath.KeyPath.{key_path_from_string}
use keycard_go.Types.Signature.{Signature, parse_signature}

module _ {W : Type 0} (out : Outside W) where
  unfoldable pub sign : Bytes → Call out Signature
  sign hash = do
    payload ← fetched out ins_sign p1_sign_current_key p2_sign_ecdsa hash
    lift (parse_signature out.curve.ecrecover hash payload)

  -- The data that is signed, or that its length is wrong.
  unfoldable pub message_for : ℕ → Bytes → Result Bytes
  message_for algo hash =
      if algo == p2_sign_bip340_schnorr
      then (if length hash == 32
          then ok (hash ++ replicate 32 0)
          else if not (length hash == 64)
          then err (command_error bad_data_length)
          else ok hash)
      else if not (length hash == 32)
      then err (command_error bad_data_length)
      else ok hash

  unfoldable pub sign_with_path_and_algo : Bytes → Bytes → ℕ → Call out Signature
  sign_with_path_and_algo hash path_text algo = do
    message ← lift (message_for algo hash)
    kp ← lift (key_path_from_string out.trim_space path_text)
    payload ← fetched out ins_sign (bit_or kp.source p1_sign_derive) algo (message ++ kp.raw)
    lift (parse_signature out.curve.ecrecover message payload)

  abbrev pub sign_with_path : Bytes → Bytes → Call out Signature
  sign_with_path hash path_text = sign_with_path_and_algo hash path_text p2_sign_ecdsa

  unfoldable pub sign_bip341_schnorr : Bytes → Bytes → Bytes → Call out Signature
  sign_bip341_schnorr hash tweak path_text =
      if not (length hash == 32)
      then raise (command_error bad_hash_length)
      else if not (length tweak == 32)
      then raise (command_error bad_tweak_length)
      else sign_with_path_and_algo (hash ++ tweak) path_text p2_sign_bip340_schnorr

  unfoldable pub sign_pinless : Bytes → Call out Signature
  sign_pinless hash = if not (length hash == 32) then raise (command_error bad_data_length) else (do
    resp ← send_plain out (new_command 0x80 ins_sign p1_sign_pinless p2_sign_ecdsa hash)
    lift (parse_signature out.curve.ecrecover hash resp.payload))
