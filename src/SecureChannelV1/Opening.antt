-- ===== src/SecureChannelV1/Opening.antt =====
-- The handshakes of secure_channel.go: opening, pairing and unpairing. The bytes of rand.Read and
-- SHA-256 are parameters.
pub mod Cryptogram
use keycard_go.Base.{
  ℕ, zero, suc, ◌+◌, true, not, [], ◌∷◌, ◌++◌, ltb, ◌==◌, if◌then◌else◌, length, take, drop, Option,
  none, some, Result, ok, err, bad_response, open_failed, mutual_authentication_failed,
  pair_first_failed, pair_final_failed, v1, no_public_key, no_pairing, bad_authentication_data,
  pairing_response_too_short, invalid_cryptogram,
}
use keycard_go.Base.Bytes.{Bytes, bytes_equal}
use keycard_go.Base.Exec.{Exec, pure, raise, lift, on_first, on_second, ◌>>=◌, ◌>>◌}
use keycard_go.Apdu.Command.{Command, new_command}
use keycard_go.Apdu.Response.{Response, sw_ok}
use keycard_go.Constants.Instructions.{
  ins_open_secure_channel, ins_mutually_authenticate, ins_pair, ins_unpair,
}
use keycard_go.Crypto.Aes.{Aes}
use keycard_go.Types.Pairing.{Pairing, new_pairing}
use keycard_go.SecureChannelV1.{
  SecureChannelV1, close, process_open_response, protected_command, transmit,
}

abbrev pub pairing_max_client_count : ℕ
pairing_max_client_count = 5

-- What the parameters of a handshake are.
module _ (aes : Aes) {W : Type 0} (send : Command → Exec W Response) where
  abbrev Session : Type 0 → Type 0
  Session A = Exec (SecureChannelV1 × W) A

  unfoldable pub open_secure_channel : ℕ → Bytes → Session Response
  open_secure_channel index key (sc, w) =
      on_second (send (new_command 0x80 ins_open_secure_channel index 0 key)) (close sc, w)

  authentication_data : Response → Session Response
  authentication_data resp =
      if not (resp.sw == sw_ok)
      then raise (bad_response resp.sw mutual_authentication_failed)
      else if not (length resp.payload == 32)
      then raise (v1 bad_authentication_data)
      else pure resp

  -- `random` is what rand.Read gives.
  unfoldable pub mutually_authenticate : Result Bytes → Session Response
  unfolding authentication_data
  mutually_authenticate random = do
    challenge ← lift random
    cmd ← on_first (protected_command aes 0x80 ins_mutually_authenticate 0 0 challenge)
    resp ← transmit aes send cmd
    authentication_data resp

  opened_by : (Bytes → Bytes) → Response → Session (Unit {0})
  opened_by sha512 resp =
      if not (resp.sw == sw_ok)
      then raise (bad_response resp.sw open_failed)
      else on_first (process_open_response sha512 resp.payload)

  mark_established : Session (Unit {0})
  mark_established (sc, w) = (ok tt, (record sc { established = true }, w))

  open_with : (Bytes → Bytes) → Result Bytes → Pairing → Bytes → Session (Unit {0})
  unfolding opened_by mark_established
  open_with sha512 random p key = do
    resp ← open_secure_channel p.index key
    opened_by sha512 resp
    checked ← mutually_authenticate random
    mark_established

  unfoldable pub auto_open : (Bytes → Bytes) → Result Bytes → Session (Unit {0})
  unfolding open_with
  auto_open sha512 random (sc, w) = elim sc.public_key [
    | none ↦ (err (v1 no_public_key), (sc, w))
    | some key ↦ elim sc.pairing [
      | none ↦ (err (v1 no_pairing), (sc, w))
      | some p ↦ open_with sha512 random p key (sc, w)
    ]
  ]

  unfoldable pub pair : ℕ → ℕ → Bytes → Session Response
  pair p1 p2 payload = transmit aes send (new_command 0x80 ins_pair p1 p2 payload)

  unfoldable pub unpair : ℕ → Session Response
  unpair p1 = do
    cmd ← on_first (protected_command aes 0x80 ins_unpair p1 0 [])
    transmit aes send cmd

  module _ (sha256 : Bytes → Bytes) where
    set_pairing : Bytes → Bytes → Session (Unit {0})
    set_pairing secret [] state = (err (v1 pairing_response_too_short), state)
    set_pairing secret (index ∷ salt) (sc, w) = (
      ok tt,
      (record sc { pairing = some (new_pairing (take 32 (sha256 (secret ++ salt))) index) }, w),
    )

    -- The second answer.
    paired : Bytes → Response → Session (Unit {0})
    unfolding set_pairing
    paired secret resp =
        if not (resp.sw == sw_ok)
        then raise (bad_response resp.sw pair_final_failed)
        else if ltb (length resp.payload) 2
        then raise (v1 pairing_response_too_short)
        else set_pairing secret resp.payload

    -- The first answer: the cryptogram of the card, 32 bytes, then its challenge.
    answer_challenge : Bytes → Bytes → Response → Session (Unit {0})
    unfolding paired
    answer_challenge secret challenge resp =
        if not (resp.sw == sw_ok)
        then raise (bad_response resp.sw pair_first_failed)
        else if ltb (length resp.payload) 64
        then raise (v1 pairing_response_too_short)
        else if not (bytes_equal (take 32 resp.payload) (sha256 (secret ++ challenge)))
        then raise (v1 invalid_cryptogram)
        else (do
          final ← pair 0x01 0x00 (sha256 (secret ++ drop 32 resp.payload))
          paired secret final)

    unfoldable pub auto_pair : ℕ → Bytes → Result Bytes → Session (Unit {0})
    unfolding answer_challenge
    auto_pair mode secret random = do
      challenge ← lift random
      resp ← pair 0x00 mode challenge
      answer_challenge secret challenge resp

  unfoldable pub auto_unpair : Session (Unit {0})
  auto_unpair (sc, w) = elim sc.pairing [
    | none ↦ (err (v1 no_pairing), (sc, w))
    | some p ↦ ((do resp ← unpair p.index; pure tt) (sc, w))
  ]

  -- `for i := 0; i < PairingMaxClientCount; i++`, by the rounds left.
  unpair_loop : ℕ → ℕ → ℕ → Session (Unit {0})
  unpair_loop zero i current = pure tt
  unpair_loop (suc rounds) i current =
      let rest = unpair_loop rounds (i + 1) current in
      if i == current then rest else (do resp ← unpair i; rest)

  current_index : Option Pairing → ℕ
  current_index none = 0xff
  current_index (some p) = p.index

  unfoldable pub unpair_others : Session (Unit {0})
  unfolding unpair_loop current_index
  unpair_others (sc, w) = unpair_loop pairing_max_client_count 0 (current_index sc.pairing) (sc, w)
