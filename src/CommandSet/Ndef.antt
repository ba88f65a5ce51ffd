-- ===== src/CommandSet/Ndef.antt =====
-- command_set.go: SetNDEF.
pub mod Memory
use keycard_go.Base.{
  ℕ, zero, suc, ◌+◌, ◌-◌, ◌*◌, ◌/◌, Bool, true, false, not, ◌&&◌, [], ◌∷◌, ◌++◌, ◌==◌, ltb, leb,
  if◌then◌else◌, length, get_or, take, drop, bit_or, Option, none, some, Result, ok, err,
  out_of_rounds,
}
use keycard_go.Base.Bytes.{Bytes, uint8, uint16, slice}
use keycard_go.Base.Exec.{Exec, pure, raise, lift, ◌>>=◌, ◌>>◌}
use keycard_go.Constants.Instructions.{ins_set_ndef}
use keycard_go.Constants.Parameters.{ndef_max_chunk_size, p1_store_data_ndef}
use keycard_go.CommandSet.{CommandSet, Outside, Call, done, store_data_with_offset}
use keycard_go.Types.ApplicationInfo.{ApplicationInfo, app_version}

-- The data with a length of two bytes in front, which it may have already.
unfoldable pub with_prefix : Bytes → Bytes
with_prefix ndef =
    let expected_len = bit_or (get_or ndef 0 0 * 256) (get_or ndef 1 0) in
    if leb 2 (length ndef) && expected_len == length ndef - 2
    then ndef
    else uint8 (length ndef / 256) ∷ uint8 (length ndef) ∷ ndef

app_major : Option ApplicationInfo → ℕ
app_major none = 0
app_major (some info) = uint8 (app_version info / 256)

module _ {W : Type 0} (out : Outside W) where
  -- `for remaining > 0`, by the rounds left: a round takes a byte at least.
  chunk_loop : ℕ → ℕ → ℕ → Bytes → Call out (Unit {0})
  chunk_loop zero off remaining ndef = raise out_of_rounds
  chunk_loop (suc rounds) off remaining ndef =
      let chunk_size =
        if ltb remaining ndef_max_chunk_size then remaining else ndef_max_chunk_size in
      let rest = chunk_loop rounds (off + chunk_size) (remaining - chunk_size) ndef in
      if ltb 0 remaining
      then store_data_with_offset out p1_store_data_ndef (slice off chunk_size ndef) (uint16 off)
        >> rest
      else pure tt

  unfoldable pub store_chunks : Bytes → Call out (Unit {0})
  unfolding chunk_loop
  store_chunks ndef = chunk_loop (suc (length ndef)) 0 (length ndef) ndef

  unfoldable pub set_ndef : Bytes → Call out (Unit {0})
  unfolding app_major
  set_ndef ndef (cs, w) =
      if ltb 2 (app_major cs.application_info)
      then store_chunks (with_prefix ndef) (cs, w)
      else done out ins_set_ndef 0 0 ndef (cs, w)
