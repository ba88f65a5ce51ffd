-- ===== src/SecureChannelV1/Opening/Cryptogram.antt =====
-- What AutoPair of the V1 channel takes for a pairing.
use keycard_go.Base.{
  ℕ, ◌≡◌, refl, ◌∙◌, inl, inr, Bool, Bool-cases, true, false, not, [], ◌∷◌, ◌++◌, arith, ltb, ◌==◌,
  if◌then◌else◌, length, take, drop, Option, some, Result, ok, err,
}
use keycard_go.Base.Bytes.{Bytes, bytes_equal, eq_of_bytes_equal}
use keycard_go.Base.Exec.{Exec, continue}
use keycard_go.Apdu.Command.{Command, new_command}
use keycard_go.Apdu.Response.{Response, sw_ok}
use keycard_go.Crypto.Aes.{Aes}
use keycard_go.Types.Pairing.{Pairing, new_pairing}
use keycard_go.SecureChannelV1.{
  SecureChannelV1, close, update_iv, with_mac, verified, opened_response, receive, transmit,
}
use keycard_go.SecureChannelV1.Opening.{pair, set_pairing, paired, answer_challenge, auto_pair}

-- The pairing is not part of what an exchange changes.
abbrev Same : SecureChannelV1 → SecureChannelV1 → Type 0
Same sc sc' = sc'.pairing ≡ sc.pairing

module _ (aes : Aes) where
  with_mac-Same : (mac : Result Bytes) (sc : SecureChannelV1) → Same sc (with_mac aes mac sc)
  unfolding with_mac
  with_mac-Same (ok mac) sc = refl
  with_mac-Same (err e) sc = refl

  update_iv-Same :
      (meta payload : Bytes) (sc : SecureChannelV1) → Same sc (update_iv aes meta payload sc)
  unfolding update_iv
  update_iv-Same meta payload sc = with_mac-Same _ sc

  Same-if :
      {A : Type 0} (b : Bool) (sc : SecureChannelV1) (x y : A × SecureChannelV1)
      → Same sc x.1
      → Same sc y.1
      → Same sc (if b then x else y).1
  Same-if true sc x y hx hy = hx
  Same-if false sc x y hx hy = hy

  verified-Same :
      (rmeta rmac rdata : Bytes) (plain : Result Bytes) (sc : SecureChannelV1)
      → Same sc (verified aes rmeta rmac rdata plain sc).1
  unfolding verified
  verified-Same rmeta rmac rdata (err e) sc = refl
  verified-Same rmeta rmac rdata (ok plain) sc =
      let same = update_iv-Same rmeta rdata sc in Same-if _ sc _ _ same same

  opened-Same : (resp : Response) (sc : SecureChannelV1) → Same sc (opened_response aes resp sc).1
  unfolding opened_response
  opened-Same resp sc =
      Same-if (not sc.is_open) sc _ _ refl
        (Same-if (ltb (length resp.payload) 16) sc _ _ refl (verified-Same _ _ _ _ sc))

  receive-Same :
      (answer : Result Response) (sc : SecureChannelV1) → Same sc (receive aes answer sc).1
  unfolding receive
  receive-Same (err e) sc = refl
  receive-Same (ok resp) sc = elim (Bool-cases (resp.sw == 0x6982)) [
    | inl refused ↦ rw refused (opened-Same resp (close sc))
    | inr other ↦ rw other (opened-Same resp sc)
  ]

  module _ {W : Type 0} (send : Command → Exec W Response) where
    pair-Same :
        (p1 p2 : ℕ) (payload : Bytes) (sc : SecureChannelV1) (w : W)
        → Same sc (pair aes send p1 p2 payload (sc, w)).1.0
    unfolding pair transmit
    pair-Same p1 p2 payload sc w = receive-Same (send (new_command 0x80 0x12 p1 p2 payload) w).0 sc

module _ (aes : Aes) {W : Type 0} (send : Command → Exec W Response) (sha256 : Bytes → Bytes)
    (secret : Bytes) where
  -- The pairing that the second answer stands for.
  abbrev IsFinal : Option Pairing → Response → Result (Unit {0}) × (SecureChannelV1 × W) → Type 0
  IsFinal before resp (ok done, (sc, w)) =
      (index : ℕ) × (salt : Bytes) × (resp.sw ≡ sw_ok)
      × (resp.payload ≡ index ∷ salt)
      × (sc.pairing ≡ some (new_pairing (take 32 (sha256 (secret ++ salt))) index))
  IsFinal before resp (err e, (sc, w)) = sc.pairing ≡ before

  set_pairing_lem :
      (resp : Response) (payload : Bytes) (sc : SecureChannelV1) (w : W)
      → resp.sw ≡ sw_ok
      → resp.payload ≡ payload
      → IsFinal sc.pairing resp (set_pairing aes send sha256 secret payload (sc, w))
  unfolding set_pairing
  set_pairing_lem resp [] sc w right h = refl
  set_pairing_lem resp (index ∷ salt) sc w right h = (index, salt, right, h, refl)

  paired_lem :
      (resp : Response) (sc : SecureChannelV1) (w : W)
      → IsFinal sc.pairing resp (paired aes send sha256 secret resp (sc, w))
  unfolding paired
  paired_lem resp sc w = elim (Bool-cases (resp.sw == sw_ok)) [
    | inr wrong ↦ rw wrong refl
    | inl right ↦ elim (Bool-cases (ltb (length resp.payload) 2)) [
      | inl short ↦ rw (right, short) refl
      | inr long ↦
          rw (right, long) (set_pairing_lem resp resp.payload sc w (ground (arith, right)) refl)
    ]
  ]

  module _ (mode : ℕ) (challenge : Bytes) (sc : SecureChannelV1) (w : W) where
    -- The two steps, from the channel and the card as they are.
    abbrev first : Result Response × (SecureChannelV1 × W)
    first = pair aes send 0x00 mode challenge (sc, w)

    abbrev second : Response → SecureChannelV1 × W → Result Response × (SecureChannelV1 × W)
    second resp = pair aes send 0x01 0x00 (sha256 (secret ++ drop 32 resp.payload))

    abbrev pub IsPairing : Result (Unit {0}) × (SecureChannelV1 × W) → Type 0
    IsPairing (ok done, (sc', w')) =
        (resp : Response) × (state : SecureChannelV1 × W) × (final : Response)
        × (state' : SecureChannelV1 × W) × (index : ℕ) × (salt : Bytes) × (first ≡ (ok resp, state))
        × (take 32 resp.payload ≡ sha256 (secret ++ challenge))
        × (second resp state ≡ (ok final, state'))
        × (final.payload ≡ index ∷ salt)
        × (sc'.pairing ≡ some (new_pairing (take 32 (sha256 (secret ++ salt))) index))
    IsPairing (err e, (sc', w')) = sc'.pairing ≡ sc.pairing

    final_lem :
        (resp : Response) (state : SecureChannelV1 × W)
        (answer : Result Response × (SecureChannelV1 × W))
        → first ≡ (ok resp, state)
        → take 32 resp.payload ≡ sha256 (secret ++ challenge)
        → second resp state ≡ answer
        → answer.1.0.pairing ≡ sc.pairing
        → IsPairing (continue answer.0 (paired aes send sha256 secret) answer.1)
    final_lem resp state (err e, state') sent known went same = same
    final_lem resp state (ok final, (sc', w')) sent known went same =
        made (paired aes send sha256 secret final (sc', w')) (paired_lem final sc' w')
      where
        made :
            (outcome : Result (Unit {0}) × (SecureChannelV1 × W))
            → IsFinal sc'.pairing final outcome
            → IsPairing outcome
        made (err e, (sc'', w'')) h = h ∙ same
        made (ok done, (sc'', w'')) (index, salt, right, payload, held) =
            (resp, state, final, (sc', w'), index, salt, sent, known, went, payload, held)

    answer_lem :
        (resp : Response) (state : SecureChannelV1 × W)
        → first ≡ (ok resp, state)
        → state.0.pairing ≡ sc.pairing
        → IsPairing (answer_challenge aes send sha256 secret challenge resp state)
    unfolding answer_challenge
    answer_lem resp (sc', w') sent same = elim (Bool-cases (resp.sw == sw_ok)) [
      | inr wrong ↦ rw wrong same
      | inl right ↦ elim (Bool-cases (ltb (length resp.payload) 64)) [
        | inl short ↦ rw (right, short) same
        | inr long ↦
            elim (Bool-cases (bytes_equal (take 32 resp.payload) (sha256 (secret ++ challenge)))) [
              | inr other ↦ rw (right, long, other) same
              | inl known ↦
                  rw (right, long, known)
                    (final_lem resp (sc', w') (second resp (sc', w')) sent
                      (eq_of_bytes_equal (take 32 resp.payload) (sha256 (secret ++ challenge))
                        known)
                      refl
                      (pair-Same aes send 0x01 0x00 (sha256 (secret ++ drop 32 resp.payload)) sc' w'
                        ∙ same))
            ]
      ]
    ]

    first_lem :
        (answer : Result Response × (SecureChannelV1 × W))
        → first ≡ answer
        → answer.1.0.pairing ≡ sc.pairing
        → IsPairing (continue answer.0 (answer_challenge aes send sha256 secret challenge) answer.1)
    first_lem (err e, state) sent same = same
    first_lem (ok resp, state) sent same = answer_lem resp state sent same

    -- AutoPair sets a pairing only after the card's first answer began with the cryptogram of the
    -- shared secret and the challenge; the index and the salt of the pairing are those of its second
    -- answer. With any error the pairing is the one that was there.
    pub auto_pair_authenticates :
        IsPairing (auto_pair aes send sha256 mode secret (ok challenge) (sc, w))
    unfolding auto_pair
    auto_pair_authenticates = first_lem first refl (pair-Same aes send 0x00 mode challenge sc w)
