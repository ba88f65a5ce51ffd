-- ===== src/GlobalPlatform/Manager.antt =====
-- globalplatform/command_set.go. The host challenge of rand.Read is an argument, and so are the files
-- of the package.
pub mod Package
use keycard_go.Base.{
  ℕ, zero, suc, List, [], ◌∷◌, if◌then◌else◌, length, Option, none, some, Result, ok, err, gp,
  not_open, no_session, bad_card_cryptogram, out_of_rounds,
}
use keycard_go.Base.Bytes.{Bytes}
use keycard_go.Base.Exec.{Exec, pure, raise, lift, ◌>>=◌, ◌>>◌}
use keycard_go.Apdu.Command.{Command, set_le}
use keycard_go.Apdu.Response.{Response, sw_ok, check_ok}
use keycard_go.GlobalPlatform.Des.{Des}
use keycard_go.Identifiers.{
  keycard_development_key, global_platform_default_key, package_aid, keycard_aid, ndef_aid,
  ndef_instance_aid, cash_aid, cash_instance_aid, ident_aid, ident_instance_aid,
  keycard_instance_aid,
}
use keycard_go.GlobalPlatform.Load.{LoadCommandStream, new_load_command_stream, next, get_command}
use keycard_go.GlobalPlatform.Requests.{
  new_command_select, new_command_initialize_update, new_command_external_authenticate,
  new_command_delete, new_command_install_for_load, new_command_install_for_install,
  new_command_get_status, InternalFile, encode_files_data,
}
use keycard_go.GlobalPlatform.Scp02.{Scp02Wrapper, new_scp02_wrapper, send_wrapped}
use keycard_go.GlobalPlatform.Session.{Session, new_session}
use keycard_go.Types.CardStatus.{parse_card_status}

-- The CommandSet; the secure channel `sc` is its wrapper.
pub record Manager : Type 0 where
  pub sc : Option Scp02Wrapper
  pub session : Option Session

abbrev pub new_manager : Manager
new_manager = record { sc = none; session = none }

-- The rest of the loop over the key sets; `later` is what the others give.
or_later : Result Session → Result Session → Result Session
or_later later (err (gp bad_card_cryptogram)) = later
or_later later result = result

session_loop : Des → Response → Bytes → Result Session → List Bytes → Result Session
unfolding or_later
session_loop des resp host_challenge last [] = last
session_loop des resp host_challenge last (key ∷ keys) =
    let result = new_session des (record { enc = key; mac = key }) resp host_challenge in
    or_later (session_loop des resp host_challenge result keys) result

unfoldable pub initialize_session : Des → Response → Bytes → Result Session
unfolding session_loop
initialize_session des resp host_challenge =
    session_loop des resp host_challenge (err out_of_rounds)
      (keycard_development_key ∷ global_platform_default_key ∷ [])

module _ (des : Des) {W : Type 0} (send : Command → Exec W Response) where
  abbrev Task : Type 0 → Type 0
  Task A = Exec (Manager × W) A

  send_plain : Command → Task Response
  send_plain cmd (m, w) = let (answer, w') = send cmd w in (check_ok answer [], (m, w'))

  -- cs.sc.Send and CheckOK with the codes that are allowed; on a nil channel the code panics.
  send_by : Option Scp02Wrapper → List ℕ → Command → Task Response
  send_by none codes cmd state = (err (gp not_open), state)
  send_by (some wrapper) codes cmd (m, w) =
      let (answer, (wrapper', w')) = send_wrapped des send cmd (wrapper, w) in
      (check_ok answer codes, (record m { sc = some wrapper' }, w'))

  secured : List ℕ → Command → Task Response
  unfolding send_by
  secured codes cmd (m, w) = send_by m.sc codes cmd (m, w)

  unfoldable pub select_aid : Bytes → Task (Unit {0})
  unfolding send_plain
  select_aid aid = send_plain (set_le 0 (new_command_select aid)) >> pure tt

  with_session : Session → Task (Unit {0})
  with_session s (m, w) =
      (ok tt, (record { sc = some (new_scp02_wrapper s.keys.mac); session = some s }, w))

  unfoldable pub initialize_update : Bytes → Task (Unit {0})
  unfolding send_plain with_session
  initialize_update host_challenge = do
    resp ← send_plain (new_command_initialize_update host_challenge)
    s ← lift (initialize_session des resp host_challenge)
    with_session s

  authenticate_by : Option Session → Task (Unit {0})
  unfolding secured
  authenticate_by none = raise (gp no_session)
  authenticate_by (some s) =
      secured []
        (new_command_external_authenticate des s.keys.enc s.card_challenge s.host_challenge)
      >> pure tt

  unfoldable pub external_authenticate : Task (Unit {0})
  unfolding authenticate_by
  external_authenticate (m, w) = authenticate_by m.session (m, w)

  unfoldable pub open_secure_channel : Result Bytes → Task (Unit {0})
  open_secure_channel random = do
    host_challenge ← lift random
    initialize_update host_challenge
    external_authenticate

  unfoldable pub delete : Bytes → ℕ → Task (Unit {0})
  unfolding secured
  delete aid p2 = secured (sw_ok ∷ 0x6a88 ∷ []) (new_command_delete aid p2) >> pure tt

  unfoldable pub delete_object : Bytes → Task (Unit {0})
  delete_object aid = delete aid 0x00

  unfoldable pub delete_object_and_related_object : Bytes → Task (Unit {0})
  delete_object_and_related_object aid = delete aid 0x80

  -- `for load.Next()`, by the rounds left; a round reads a byte at least.
  package_loop : ℕ → LoadCommandStream → Task (Unit {0})
  unfolding secured
  package_loop zero s = raise out_of_rounds
  package_loop (suc rounds) s =
      let (more, s') = next s in
      let rest = package_loop rounds s' in
      if more then secured [] (get_command s') >> rest else pure tt

  unfoldable pub load_package : (InternalFile → Option Bytes) → Bytes → Task (Unit {0})
  unfolding package_loop secured
  load_package files pkg_aid =
      let encoded = encode_files_data files in
      secured [] (new_command_install_for_load pkg_aid [])
      >> package_loop (suc (length encoded)) (new_load_command_stream encoded)

  unfoldable pub install_for_install : Bytes → Bytes → Bytes → Bytes → Task (Unit {0})
  unfolding secured
  install_for_install pkg_aid applet_aid instance_aid params =
      secured [] (new_command_install_for_install pkg_aid applet_aid instance_aid params) >> pure tt

  -- The life cycle byte.
  unfoldable pub get_status : Task ℕ
  unfolding secured
  get_status = do
    resp ← secured [] (new_command_get_status [] 0x80)
    lift (parse_card_status resp.payload)

  unfoldable pub install_ndef_applet : Bytes → Task (Unit {0})
  install_ndef_applet ndef_record =
      install_for_install package_aid ndef_aid ndef_instance_aid ndef_record

  unfoldable pub install_keycard_applet : Task (Unit {0})
  install_keycard_applet = do
    instance_aid ← lift (keycard_instance_aid 1)
    install_for_install package_aid keycard_aid instance_aid []

  unfoldable pub install_cash_applet : Task (Unit {0})
  install_cash_applet = install_for_install package_aid cash_aid cash_instance_aid []

  unfoldable pub install_ident_applet : Task (Unit {0})
  install_ident_applet = install_for_install package_aid ident_aid ident_instance_aid []
