-- ===== src/SecureChannelV2/Plain.antt =====
-- Exchanges over a V2 channel that is not open, as with a card without a secure channel.
use keycard_go.Base.{ℕ, ◌≡◌, refl, false, ok}
use keycard_go.Base.Bytes.{Bytes}
use keycard_go.Base.Exec.{Exec}
use keycard_go.Apdu.Command.{Command, new_command}
use keycard_go.Apdu.Response.{Response}
use keycard_go.Crypto.Aes.{Aes}
use keycard_go.SecureChannelV2.{
  SecureChannelV2, protected_command, receive, transmit, send_protected,
}

module _ (aes : Aes) {W : Type 0} (send : Command → Exec W Response) where
  -- The command goes out as it is and its answer comes back as it is.
  pub send_protected_plain :
      (sc : SecureChannelV2) (ins p1 p2 : ℕ) (payload : Bytes) (w w' : W) (resp : Response)
      → sc.is_open ≡ false
      → send (new_command 0x80 ins p1 p2 payload) w ≡ (ok resp, w')
      → resp.sw ≡ 0x9000
      → send_protected aes send ins p1 p2 payload (sc, w) ≡ (ok resp, (sc, w'))
  unfolding send_protected protected_command transmit receive
  send_protected_plain sc ins p1 p2 payload w w' resp closed sent status =
      rw (closed, sent, status) refl
