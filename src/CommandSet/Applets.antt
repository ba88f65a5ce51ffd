-- ===== src/CommandSet/Applets.antt =====
-- cash_command_set.go and ident_command_set.go: two applets without a secure channel.
use keycard_go.Base.{ℕ, [], Result, ok}
use keycard_go.Base.Bytes.{Bytes}
use keycard_go.Base.Exec.{Exec, pure, lift, on_second, ◌>>=◌, ◌>>◌}
use keycard_go.Apdu.Command.{Command, new_command, set_le}
use keycard_go.Apdu.Response.{Response, check_ok}
use keycard_go.Commands.Paths.{new_command_sign}
use keycard_go.Constants.Instructions.{ins_store_data}
use keycard_go.GlobalPlatform.Requests.{new_command_select}
use keycard_go.Identifiers.{cash_instance_aid, ident_instance_aid}
use keycard_go.Types.ApplicationInfo.{CashApplicationInfo, parse_cash_application_info}
use keycard_go.Types.Signature.{Signature, parse_signature}

pub record CashCommandSet : Type 0 where
  pub cash_application_info : CashApplicationInfo

module _ (ecrecover : Bytes → Bytes → Result Bytes) {W : Type 0}
    (send : Command → Exec W Response) where
  sent : Command → Exec W Response
  sent cmd w = let (answer, w') = send cmd w in (check_ok answer [], w')

  remember_cash : CashApplicationInfo → Exec (CashCommandSet × W) (Unit {0})
  remember_cash info (cs, w) = (ok tt, (record cs { cash_application_info = info }, w))

  unfoldable pub cash_select : Exec (CashCommandSet × W) (Unit {0})
  unfolding sent remember_cash
  cash_select = do
    resp ← on_second (sent (set_le 0 (new_command_select cash_instance_aid)))
    info ← lift (parse_cash_application_info resp.payload)
    remember_cash info

  unfoldable pub cash_sign_with_algo : Bytes → ℕ → Exec W Signature
  unfolding sent
  cash_sign_with_algo hash algo = do
    cmd ← lift (new_command_sign hash 0x00 algo [])
    resp ← sent cmd
    lift (parse_signature ecrecover hash resp.payload)

  abbrev pub cash_sign : Bytes → Exec W Signature
  cash_sign hash = cash_sign_with_algo hash 0x00

  unfoldable pub ident_select : Exec W (Unit {0})
  unfolding sent
  ident_select = sent (set_le 0 (new_command_select ident_instance_aid)) >> pure tt

  unfoldable pub ident_store_data : Bytes → Exec W Response
  unfolding sent
  ident_store_data payload = sent (new_command 0x80 ins_store_data 0x00 0x00 payload)
