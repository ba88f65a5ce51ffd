-- ===== src/Tests/GlobalPlatform.antt =====
-- The SCP02 wrapper with a DES that leaves blocks as they are.
use keycard_go.Base.{◌≡◌, refl, [], ◌∷◌, ◌++◌, length, map, some, none, Option, List, ok}
use keycard_go.Base.Bytes.{Bytes}
use keycard_go.Base.Exec.{Exec}
use keycard_go.Apdu.Command.{Command}
use keycard_go.GlobalPlatform.Des.{Des}
use keycard_go.Apdu.Response.{Response}
use keycard_go.GlobalPlatform.Load.{new_load_command_stream}
use keycard_go.GlobalPlatform.Load.Blocks.{carried, IsLoad}
use keycard_go.GlobalPlatform.Manager.{load_package}
use keycard_go.GlobalPlatform.Manager.Package.{IsAccepting, with_wrapper, load_package_lem}
use keycard_go.GlobalPlatform.Requests.{
  new_command_delete, new_command_initialize_update, new_command_install_for_load, InternalFile,
  encode_files_data,
}
use keycard_go.GlobalPlatform.Scp02.{Scp02Wrapper, new_scp02_wrapper}
use keycard_go.GlobalPlatform.Scp02.RetailMac.{DesLaws}
use keycard_go.GlobalPlatform.Scp02.Chain.{marked, wrap_all, unwrap_all, unwrap_all-wrap_all}

abbrev toy_des : Des
toy_des = record { cbc = λ key iv plain. plain; cbc_triple = λ key iv plain. plain }

toy_des-DesLaws : DesLaws toy_des
toy_des-DesLaws = record {
  length-cbc_triple = λ key iv plain. refl;
  length-cbc = λ key iv plain whole. refl;
  cbc-append = λ key iv front back block whole. refl;
}

abbrev wrapper : Scp02Wrapper
wrapper =
    new_scp02_wrapper (1 ∷ 2 ∷ 3 ∷ 4 ∷ 5 ∷ 6 ∷ 7 ∷ 8 ∷ 9 ∷ 10 ∷ 11 ∷ 12 ∷ 13 ∷ 14 ∷ 15 ∷ 16 ∷ [])

abbrev two_commands : List Command
two_commands = new_command_delete (0xa0 ∷ 0 ∷ []) 0x80 ∷ new_command_initialize_update (7 ∷ []) ∷ []

unwrap_all-wrap_all_example :
    unwrap_all toy_des (wrap_all toy_des two_commands wrapper).0 wrapper
    ≡ (some (map marked two_commands), (wrap_all toy_des two_commands wrapper).1)
unwrap_all-wrap_all_example = unwrap_all-wrap_all toy_des toy_des-DesLaws two_commands wrapper

-- A card that keeps what it is sent, and files of three bytes each.
abbrev keeping : Command → Exec (List Command) Response
keeping cmd kept =
    (ok (record { payload = []; sw1 = 0x90; sw2 = 0; sw = 0x9000 }), kept ++ (cmd ∷ []))

keeping-IsAccepting : IsAccepting keeping (λ kept. kept)
keeping-IsAccepting = record { accepts = λ cmd kept. (_, kept ++ (cmd ∷ []), refl, refl, refl) }

abbrev files : InternalFile → Option Bytes
files name = some (1 ∷ 2 ∷ 3 ∷ [])

load_package_lem_example :
    (w' : List Command) × (wrapper' : Scp02Wrapper) × (sent : List Command) × (blocks : List
      Command)
    × (load_package toy_des keeping files (0xa0 ∷ []) (with_wrapper none wrapper, [])
        ≡ (ok tt, (with_wrapper none wrapper', w')))
    × (w' ≡ [] ++ sent)
    × (unwrap_all toy_des sent wrapper
        ≡ (some (map marked (new_command_install_for_load (0xa0 ∷ []) [] ∷ blocks)), wrapper'))
    × (carried blocks ≡ encode_files_data files)
    × IsLoad 0 blocks
    × (length blocks ≡ (new_load_command_stream (encode_files_data files)).blocks_count)
load_package_lem_example =
    load_package_lem toy_des keeping (λ kept. kept) keeping-IsAccepting none toy_des-DesLaws files
      (0xa0 ∷ []) wrapper []
