-- ===== src/CommandSet/Runs.antt =====
-- What a program may do with a CommandSet of command_set.go, call by call, whatever the card answers
-- and whatever the calls return.
pub mod Trust
use keycard_go.Base.{ℕ, Option, Result}
use keycard_go.Base.Bytes.{Bytes}
use keycard_go.Apdu.Command.{Command}
use keycard_go.CommandSet.{CommandSet, Outside, send_protected, send_plain}
use keycard_go.CommandSet.Opening.{
  select_with_index, auto_open_secure_channel, init, init_inner, identify,
}
use keycard_go.CommandSet.Pairing.{
  set_pairing, pair, auto_pair_with_secret_and_mode, unpair_index, unpair_other_clients,
  open_secure_channel,
}
use keycard_go.Types.Pairing.{Pairing}

-- The calls that the others consist of. The results of rand.Read and GenerateKey are arguments.
pub data Call : Type 0 where
  select_call : Result Bytes → ℕ → Call
  auto_open_call : Result Bytes → Result Bytes → Call
  protected_call : ℕ → ℕ → ℕ → Bytes → Call
  plain_call : Command → Call
  init_call : Result Bytes → Result Bytes → Bytes → Bytes → Bytes → Call
  init_inner_call :
      Result Bytes → Result Bytes → Bytes → Option Bytes → Bytes → Bytes → ℕ → ℕ → Call
  identify_call : Result Bytes → Call
  set_pairing_call : Pairing → Call
  pair_call : Result Bytes → Bytes → Call
  auto_pair_call : Result Bytes → Bytes → ℕ → Call
  unpair_call : ℕ → Call
  unpair_others_call : Call
  open_call : Call

module _ {W : Type 0} (out : Outside W) where
  unfoldable pub after : Call → CommandSet × W → CommandSet × W
  after (select_call random index) state = (select_with_index out random index state).1
  after (auto_open_call random key) state = (auto_open_secure_channel out random key state).1
  after (protected_call ins p1 p2 payload) state = (send_protected out ins p1 p2 payload state).1
  after (plain_call cmd) state = (send_plain out cmd state).1
  after (init_call random key pin puk token) state = (init out random key pin puk token state).1
  after (init_inner_call random key pin alt_pin puk secret pin_retries puk_retries) state =
      (init_inner out random key pin alt_pin puk secret pin_retries puk_retries state).1
  after (identify_call random) state = (identify out random state).1
  after (set_pairing_call p) state = (set_pairing out p state).1
  after (pair_call random password) state = (pair out random password state).1
  after (auto_pair_call random secret mode) state =
      (auto_pair_with_secret_and_mode out random secret mode state).1
  after (unpair_call index) state = (unpair_index out index state).1
  after unpair_others_call state = (unpair_other_clients out state).1
  after open_call state = (open_secure_channel out state).1

  -- A step of the program, or of the world outside, which the program does not see.
  pub data Step : CommandSet × W → CommandSet × W → Type 0 where
    calls : (call : Call) (state : CommandSet × W) → Step state (after call state)
    moves : (cs : CommandSet) (w w' : W) → Step (cs, w) (cs, w')

  pub data Reaches (start : CommandSet × W) : CommandSet × W → Type 0 where
    here : Reaches start start
    and_then : {s t : CommandSet × W} → Reaches start s → Step s t → Reaches start t
