-- ===== src/GlobalPlatform/Manager/Package.antt =====
-- LoadPackage with a card that accepts the commands.
use keycard_go.Base.{
  ℕ, zero, suc, ◌<◌, ◌≡◌, refl, sym, ap, ◌∙◌, dec_lt, List, [], ◌∷◌, ◌++◌, append-nil, append_assoc,
  arith, length, length-drop, map, inl, Option, some, Result, ok,
}
use keycard_go.Base.Bytes.{Bytes}
use keycard_go.Base.Exec.{Exec, ◌>>◌}
use keycard_go.Apdu.Command.{Command}
use keycard_go.Apdu.Response.{Response, check_ok}
use keycard_go.GlobalPlatform.Des.{Des}
use keycard_go.GlobalPlatform.Load.{
  LoadCommandStream, new_load_command_stream, get_command, load_loop,
}
use keycard_go.GlobalPlatform.Load.Blocks.{
  carried, IsLoad, after, at_end, unread-after, next_block, load_loop-Sends,
}
use keycard_go.GlobalPlatform.Manager.{Manager, secured, send_by, package_loop, load_package}
use keycard_go.GlobalPlatform.Requests.{
  new_command_install_for_load, InternalFile, encode_files_data,
}
use keycard_go.GlobalPlatform.Scp02.{Scp02Wrapper, wrap, send_wrapped}
use keycard_go.GlobalPlatform.Scp02.RetailMac.{DesLaws}
use keycard_go.GlobalPlatform.Scp02.Chain.{marked, wrap_all, unwrap_all, unwrap_all-wrap_all}
use keycard_go.GlobalPlatform.Session.{Session}

-- A card that answers 9000 to every command and keeps it.
pub record IsAccepting {W : Type 0} (send : Command → Exec W Response) (log : W → List Command)
    : Type 0 where
  pub accepts :
      (cmd : Command) (w : W)
      → (r : Response) × (w' : W) × (send cmd w ≡ (ok r, w'))
        × (r.sw ≡ 0x9000)
        × (log w' ≡ log w ++ (cmd ∷ []))

abbrev pub with_wrapper : Option Session → Scp02Wrapper → Manager
with_wrapper session wrapper = record { sc = some wrapper; session = session }

module _ (des : Des) {W : Type 0} (send : Command → Exec W Response) (log : W → List Command)
    (card : IsAccepting send log) (session : Option Session) where
  secured_lem :
      (cmd : Command) (wrapper : Scp02Wrapper) (w : W)
      → let (wrapped, wrapper') = wrap des cmd wrapper in
        (r : Response) × (w' : W) × (secured des send [] cmd (with_wrapper session wrapper, w)
          ≡ (ok r, (with_wrapper session wrapper', w')))
        × (log w' ≡ log w ++ (wrapped ∷ []))
  unfolding secured send_by send_wrapped check_ok
  secured_lem cmd wrapper w =
      let (r, w', sent, right, kept) = card.accepts (wrap des cmd wrapper).0 w in
      (r, w', rw (sent, right) refl, kept)

  -- The commands reached the card, wrapped, in their order.
  abbrev IsDelivered : List Command → Scp02Wrapper → W → Result (Unit {0}) × (Manager × W) → Type 0
  IsDelivered cmds wrapper w outcome =
      (w' : W) × (outcome ≡ (ok tt, (with_wrapper session (wrap_all des cmds wrapper).1, w')))
      × (log w' ≡ log w ++ (wrap_all des cmds wrapper).0)

  first_lem :
      (cmd : Command) (cmds : List Command) (wrapper : Scp02Wrapper) (w : W)
      (rest : Exec (Manager × W) (Unit {0}))
      → ((wrapper' : Scp02Wrapper) (w' : W)
          → IsDelivered cmds wrapper' w' (rest (with_wrapper session wrapper', w')))
      → IsDelivered
          (cmd ∷ cmds)
          wrapper
          w
          ((secured des send [] cmd >> rest) (with_wrapper session wrapper, w))
  unfolding wrap_all
  first_lem cmd cmds wrapper w rest h =
      let (r, w1, went, kept) = secured_lem cmd wrapper w in
      let (w2, done, held) = h (wrap des cmd wrapper).1 w1 in
      (
        w2,
        rw went done,
        held
            ∙ ap (λ front. front ++ (wrap_all des cmds (wrap des cmd wrapper).1).0) kept
            ∙ append_assoc (log w) ((wrap des cmd wrapper).0 ∷ [])
                (wrap_all des cmds (wrap des cmd wrapper).1).0,
      )

  nothing_lem :
      (wrapper : Scp02Wrapper) (w : W)
      → IsDelivered [] wrapper w (ok tt, (with_wrapper session wrapper, w))
  unfolding wrap_all
  nothing_lem wrapper w = (w, refl, sym (append-nil (log w)))

  package_loop_lem :
      (rounds : ℕ) (s : LoadCommandStream) (wrapper : Scp02Wrapper) (w : W)
      → length s.unread < rounds
      → IsDelivered
          (load_loop rounds s)
          wrapper
          w
          (package_loop des send rounds s (with_wrapper session wrapper, w))
  unfolding package_loop load_loop
  package_loop_lem zero s wrapper w enough = absurd (omega (arith, enough))
  package_loop_lem (suc rounds) s wrapper w enough = elim (dec_lt 0 (length s.unread)) [
    | no done ↦ rw (load_loop, package_loop, at_end s (omega arith)) (nothing_lem wrapper w)
    | yes some_left ↦
        let shorter : length (after s).unread < rounds =
          omega (arith, ap length (unread-after s), length-drop 247 s.unread, enough, some_left) in
        rw (load_loop, package_loop, next_block s some_left)
          (first_lem (get_command (after s)) (load_loop rounds (after s)) wrapper w
            (package_loop des send rounds (after s))
            (λ wrapper' w'. package_loop_lem rounds (after s) wrapper' w' shorter))
  ]

  -- Whatever the files hold, for a DES with the laws of CBC, a card that answers 9000
  -- to every command gets all of them: LoadPackage succeeds, and such a card, unwrapping what was
  -- sent with the keys and the chaining value of the wrapper, reads one INSTALL for load and then
  -- blocks that carry the encoded files whole and in order, numbered from 0 modulo 256, of 1 to 247
  -- bytes, with the last and no other marked, as many as BlocksCount says.
  pub load_package_lem :
      (laws : DesLaws des) (files : InternalFile → Option Bytes) (pkg_aid : Bytes)
      (wrapper : Scp02Wrapper) (w : W)
      → (w' : W) × (wrapper' : Scp02Wrapper) × (sent : List Command) × (blocks : List Command)
        × (load_package des send files pkg_aid (with_wrapper session wrapper, w)
            ≡ (ok tt, (with_wrapper session wrapper', w')))
        × (log w' ≡ log w ++ sent)
        × (unwrap_all des sent wrapper
            ≡ (some (map marked (new_command_install_for_load pkg_aid [] ∷ blocks)), wrapper'))
        × (carried blocks ≡ encode_files_data files)
        × IsLoad 0 blocks
        × (length blocks ≡ (new_load_command_stream (encode_files_data files)).blocks_count)
  unfolding load_package
  load_package_lem laws files pkg_aid wrapper w =
      let encoded = encode_files_data files in
      let rounds = suc (length encoded) in
      let stream = new_load_command_stream encoded in
      let install = new_command_install_for_load pkg_aid [] in
      let blocks = load_loop rounds stream in
      let (w', done, kept) =
        first_lem install blocks wrapper w (package_loop des send rounds stream)
          (λ wrapper1 w1. package_loop_lem rounds stream wrapper1 w1 (omega arith)) in
      let (whole, load, count) = load_loop-Sends rounds 0 stream (omega arith) refl (inl refl) in
      (
        w',
        (wrap_all des (install ∷ blocks) wrapper).1,
        (wrap_all des (install ∷ blocks) wrapper).0,
        blocks,
        done,
        kept,
        unwrap_all-wrap_all des laws (install ∷ blocks) wrapper,
        whole,
        load,
        count,
      )
