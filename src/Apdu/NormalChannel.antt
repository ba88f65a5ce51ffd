-- ===== src/Apdu/NormalChannel.antt =====
-- io/normal_channel.go: Send over a transmitter of raw bytes.
use keycard_go.Base.{ℕ, zero, suc, not, ◌&&◌, ◌||◌, [], ◌==◌, if◌then◌else◌, out_of_rounds}
use keycard_go.Base.Bytes.{Bytes}
use keycard_go.Base.Exec.{Exec, pure, raise, lift, ◌>>=◌}
use keycard_go.Apdu.Command.{Command, new_command, set_le, serialize}
use keycard_go.Apdu.Response.{Response, parse_response}

-- NewCommandGetResponse of globalplatform/commands.go
abbrev get_response : ℕ → Command
get_response length = set_le length (new_command 0x00 0xc0 0 0 [])

module _ {W : Type 0} (transmit : Bytes → Exec W Bytes) where
  -- `send` is the method itself; a response that is not complete is asked for.
  completed : (Command → Exec W Response) → Command → Response → Exec W Response
  completed send cmd resp =
      if resp.sw1 == 0x61 && (not (cmd.cla == 0x00) || not (cmd.ins == 0xc0))
      then send (get_response resp.sw2)
      else pure resp

  -- GET RESPONSE is not followed by another one, so two rounds are enough.
  send_rounds : ℕ → Command → Exec W Response
  unfolding completed
  send_rounds zero cmd = raise out_of_rounds
  send_rounds (suc rounds) cmd = do
    raw_resp ← transmit (serialize cmd)
    resp ← lift (parse_response raw_resp)
    completed (send_rounds rounds) cmd resp

  unfoldable pub normal_send : Command → Exec W Response
  unfolding send_rounds
  normal_send cmd = send_rounds 2 cmd
