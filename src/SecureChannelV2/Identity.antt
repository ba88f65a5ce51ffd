-- ===== src/SecureChannelV2/Identity.antt =====
-- What an exchange leaves of the V2 channel: its identity key, and open only if it was.
use keycard_go.Base.{
  ℕ, ◌≡◌, refl, sym, inl, inr, Bool, Bool-cases, true, false, not, ltb, ◌==◌, if◌then◌else◌, length,
  Result, ok, err,
}
use keycard_go.Base.Bytes.{Bytes}
use keycard_go.Base.Exec.{Exec, continue}
use mathlib.Core.Path.{subst}
use keycard_go.Apdu.Command.{Command}
use keycard_go.Apdu.Response.{Response, sw_ok}
use keycard_go.Crypto.Aes.{Aes}
use keycard_go.SecureChannelV2.Nonce.{increment_bytes}
use keycard_go.SecureChannelV2.{
  SecureChannelV2, received, receive, transmit, send_protected, protected_command, increment_nonce,
}

-- The second channel has the identity key of the first, and is open only if the first is.
abbrev pub Follows : SecureChannelV2 → SecureChannelV2 → Type 0
Follows sc sc' = (sc'.card_ident_pub ≡ sc.card_ident_pub) × (sc'.is_open ≡ true → sc.is_open ≡ true)

module _ (aes : Aes) where
  increment_nonce-Follows : (sc : SecureChannelV2) → Follows sc (increment_nonce sc)
  unfolding increment_nonce
  increment_nonce-Follows sc = elim (Bool-cases (increment_bytes sc.nonce_counter).1) [
    | inl over ↦ rw over (refl, λ h. cc)
    | inr more ↦ rw more (refl, λ h. h)
  ]

  received-Follows :
      (plain : Result Bytes) (sc : SecureChannelV2) → Follows sc (received aes plain sc).1
  unfolding received
  received-Follows (ok plain) sc = increment_nonce-Follows sc
  received-Follows (err e) sc = (refl, λ h. cc)

  Follows-if :
      {A : Type 0} (b : Bool) (sc : SecureChannelV2) (x y : A × SecureChannelV2)
      → Follows sc x.1
      → Follows sc y.1
      → Follows sc (if b then x else y).1
  Follows-if true sc x y hx hy = hx
  Follows-if false sc x y hx hy = hy

  receive-Follows :
      (answer : Result Response) (sc : SecureChannelV2) → Follows sc (receive aes answer sc).1
  unfolding receive
  receive-Follows (err e) sc = (refl, λ h. cc)
  receive-Follows (ok resp) sc =
      Follows-if (not (resp.sw == sw_ok)) sc _ _ (refl, λ h. cc)
        (Follows-if (not sc.is_open) sc _ _ (refl, λ h. h) (received-Follows _ sc))

  protected_command-same :
      (cla ins p1 p2 : ℕ) (payload : Bytes) (sc : SecureChannelV2)
      → (protected_command aes cla ins p1 p2 payload sc).1 ≡ sc
  unfolding protected_command
  protected_command-same cla ins p1 p2 payload sc = elim (Bool-cases sc.is_open) [
    | inl opened ↦ elim (Bool-cases (ltb 255 (length payload))) [
      | inl large ↦ rw (opened, large) refl
      | inr small ↦ rw (opened, small) refl
    ]
    | inr closed ↦ rw closed refl
  ]

  module _ {W : Type 0} (send : Command → Exec W Response) where
    transmit-Follows :
        (cmd : Command) (sc : SecureChannelV2) (w : W)
        → Follows sc (transmit aes send cmd (sc, w)).1.0
    unfolding transmit
    transmit-Follows cmd sc w = receive-Follows (send cmd w).0 sc

    protected-Follows :
        (cmd : Result Command) (sc : SecureChannelV2) (w : W)
        → Follows sc (continue cmd (transmit aes send) (sc, w)).1.0
    protected-Follows (ok cmd) sc w = transmit-Follows cmd sc w
    protected-Follows (err e) sc w = (refl, λ h. h)

    pub send_protected-Follows :
        (ins p1 p2 : ℕ) (payload : Bytes) (sc : SecureChannelV2) (w : W)
        → Follows sc (send_protected aes send ins p1 p2 payload (sc, w)).1.0
    unfolding send_protected
    send_protected-Follows ins p1 p2 payload sc w =
        subst
          (λ sc'.
            Follows sc
              (continue (protected_command aes 0x80 ins p1 p2 payload sc).0 (transmit aes send)
                (sc', w)).1.0)
          (sym (protected_command-same 0x80 ins p1 p2 payload sc))
          (protected-Follows (protected_command aes 0x80 ins p1 p2 payload sc).0 sc w)
