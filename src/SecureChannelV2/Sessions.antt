-- ===== src/SecureChannelV2/Sessions.antt =====
-- Exchanges over an open V2 channel with a card that holds the other ends of the keys and counts the
-- nonce as the channel does.
use keycard_go.Base.{ℕ, ◌≤◌, ◌≡◌, sym, ap, ◌∙◌, true, false, ◌∷◌, length, some, ok}
use mathlib.Core.Path.{subst}
use keycard_go.Base.Bytes.{Bytes, AllBytes}
use keycard_go.Base.Exec.{Exec}
use keycard_go.Apdu.Command.{Command, new_command}
use keycard_go.Apdu.Response.{Response, parse_response}
use keycard_go.Crypto.Aes.{Aes, AesLaws}
use keycard_go.Crypto.Ccm.{aes_ccm_encrypt, aes_ccm_decrypt}
use keycard_go.SecureChannelV2.Nonce.{increment_bytes, increment_bytes_lem}
use keycard_go.SecureChannelV2.Protection.{IsKey, reads_answer, protected_command_lem, received_ok}
use keycard_go.SecureChannelV2.{SecureChannelV2, increment_nonce, transmit, send_protected}

-- The card: `handle` is what it answers to a command in the clear. It reads a SECURED APDU by its
-- own copy of the nonce, answers in kind, and counts.
pub record IsCard (aes : Aes) {W : Type 0} (send : Command → Exec W Response) (nonce : W → Bytes)
    (h2c c2h : Bytes) (handle : Bytes → Bytes) : Type 0 where
  pub answers :
      (w : W) (cmd : Command) (inner : Bytes)
      → aes_ccm_decrypt aes h2c (nonce w) cmd.payload ≡ ok inner
      → (r : Response) × (w' : W) × (send cmd w ≡ (ok r, w'))
        × (r.sw ≡ 0x9000)
        × (aes_ccm_encrypt aes c2h (nonce w) (handle inner) ≡ ok r.payload)
        × (nonce w' ≡ (increment_bytes (nonce w)).0)
  pub short : (inner : Bytes) → length (handle inner) ≤ 0xfffe

-- Both ends hold the same keys and the same nonce.
pub record InSync (aes : Aes) {W : Type 0} (nonce : W → Bytes) (h2c c2h : Bytes)
    (sc : SecureChannelV2) (w : W) : Type 0 where
  pub h2c_key : IsKey aes h2c
  pub c2h_key : IsKey aes c2h
  pub has_h2c : sc.key_h2c ≡ some h2c
  pub has_c2h : sc.key_c2h ≡ some c2h
  pub same_nonce : sc.nonce_counter ≡ nonce w
  pub size : length sc.nonce_counter ≡ 13
  pub bytes : AllBytes sc.nonce_counter

module _ (aes : Aes) (laws : AesLaws aes) {W : Type 0} (send : Command → Exec W Response)
    (nonce : W → Bytes) (h2c c2h : Bytes) (handle : Bytes → Bytes)
    (card : IsCard aes send nonce h2c c2h handle) where
  counts_on :
      (sc : SecureChannelV2) (w w' : W)
      → InSync aes nonce h2c c2h sc w
      → nonce w' ≡ (increment_bytes (nonce w)).0
      → InSync aes nonce h2c c2h (increment_nonce sc) w'
  unfolding increment_nonce
  counts_on sc w w' sync counted =
      let next = increment_bytes_lem sc.nonce_counter sync.bytes in
      record {
        h2c_key = sync.h2c_key;
        c2h_key = sync.c2h_key;
        has_h2c = sync.has_h2c;
        has_c2h = sync.has_c2h;
        same_nonce = ap (λ n. (increment_bytes n).0) sync.same_nonce ∙ sym counted;
        size = next.size ∙ sync.size;
        bytes = next.bytes;
      }

  -- On an open channel in step with the card, a command of at most 255 bytes is answered by what
  -- the card's applet answers to it in the clear, and both ends are in step again. The channel is
  -- still open unless the nonce was the last one.
  pub send_protected-handle :
      (sc : SecureChannelV2) (w : W) (ins p1 p2 : ℕ) (payload : Bytes)
      → InSync aes nonce h2c c2h sc w
      → sc.is_open ≡ true
      → length payload ≤ 255
      → (w' : W) × (send_protected aes send ins p1 p2 payload (sc, w) ≡ (
        parse_response (handle (0x80 ∷ ins ∷ p1 ∷ p2 ∷ length payload ∷ payload)),
        (increment_nonce sc, w'),
      ))
        × InSync aes nonce h2c c2h (increment_nonce sc) w'
        × ((increment_bytes sc.nonce_counter).1 ≡ false → (increment_nonce sc).is_open ≡ true)
  unfolding send_protected transmit
  send_protected-handle sc w ins p1 p2 payload sync opened small =
      let inner = 0x80 ∷ ins ∷ p1 ∷ p2 ∷ length payload ∷ payload in
      let (c, sent, read) =
        protected_command_lem aes laws sc h2c 0x80 ins p1 p2 payload opened sync.has_h2c
          sync.h2c_key sync.size small in
      let cmd = new_command 0x80 0x18 0 0 c in
      let same = sync.same_nonce in
      let (r, w', went, good, back, counted) =
        card.answers w cmd inner (subst (λ n. aes_ccm_decrypt aes h2c n c ≡ ok inner) same read) in
      let plain = received_ok aes sc c2h r (handle inner) opened sync.has_c2h good (
        reads_answer aes laws c2h sc.nonce_counter (handle inner) r.payload sync.c2h_key sync.size
          (card.short inner)
          (subst (λ n. aes_ccm_encrypt aes c2h n (handle inner) ≡ ok r.payload) (sym same) back)) in
      (
        w',
        rw sent (rw went (rw plain)),
        counts_on sc w w' sync counted,
        λ more. unfold increment_nonce in rw more opened,
      )
