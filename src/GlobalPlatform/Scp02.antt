-- ===== src/GlobalPlatform/Scp02.antt =====
-- globalplatform/scp02_wrapper.go, scp02_keys.go and secure_channel.go.
pub mod Chain
pub mod RetailMac
use keycard_go.Base.{
  ℕ, ◌+◌, Bool, true, false, [], ◌∷◌, ◌++◌, ◌==◌, if◌then◌else◌, length, bit_or, Result, ok, err,
}
use keycard_go.Base.Bytes.{Bytes, uint8, bytes_equal}
use keycard_go.Base.Exec.{Exec}
use keycard_go.Apdu.Command.{Command, new_command, set_le}
use keycard_go.Apdu.Response.{Response}
use keycard_go.GlobalPlatform.Des.{Des, null_bytes_8, encrypt_icv, mac_full_3des}

pub record Scp02Keys : Type 0 where
  pub enc : Bytes
  pub mac : Bytes

pub record Scp02Wrapper : Type 0 where
  pub mac_key : Bytes
  pub icv : Bytes

abbrev pub new_scp02_wrapper : Bytes → Scp02Wrapper
new_scp02_wrapper mac_key = record { mac_key = mac_key; icv = null_bytes_8 }

module _ (des : Des) where
  -- What the MAC is made of.
  abbrev pub mac_data : Command → Bytes
  mac_data cmd =
      bit_or cmd.cla 0x04 ∷ cmd.ins ∷ cmd.p1 ∷ cmd.p2 ∷ uint8 (length cmd.payload + 8) ∷ cmd.payload

  unfoldable pub chained_icv : Scp02Wrapper → Bytes
  chained_icv w = if bytes_equal w.icv null_bytes_8 then w.icv else encrypt_icv des w.mac_key w.icv

  with_le_of : Command → Command → Command
  with_le_of cmd new_cmd = if cmd.requires_le then set_le cmd.le new_cmd else new_cmd

  -- The wrapped command and the wrapper afterwards.
  unfoldable pub wrap : Command → Scp02Wrapper → Command × Scp02Wrapper
  unfolding with_le_of
  wrap cmd w =
      let mac = mac_full_3des des w.mac_key (mac_data cmd) (chained_icv w) in
      (
        with_le_of cmd
            (new_command (bit_or cmd.cla 0x04) cmd.ins cmd.p1 cmd.p2 (cmd.payload ++ mac)),
        record w { icv = mac },
      )

  module _ {W : Type 0} (send : Command → Exec W Response) where
    -- The method Send of SecureChannel.
    unfoldable pub send_wrapped : Command → Exec (Scp02Wrapper × W) Response
    send_wrapped cmd (wrapper, w) =
        let (wrapped, wrapper') = wrap cmd wrapper in
        let (answer, w') = send wrapped w in (answer, (wrapper', w'))
