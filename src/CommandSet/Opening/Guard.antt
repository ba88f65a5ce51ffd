-- ===== src/CommandSet/Opening/Guard.antt =====
-- Select, AutoOpenSecureChannel and INIT keep the channel of a CommandSet authentic.
use keycard_go.Base.{
  ℕ, ◌≡◌, ap, inl, inr, Bool-cases, ltb, leb, length, List, Option, none, Result, ok, err,
}
use mathlib.Core.Path.{subst}
use keycard_go.Base.Bytes.{Bytes}
use keycard_go.Base.Exec.{lift, ◌>>=◌}
use keycard_go.Apdu.Command.{set_le}
use keycard_go.Commands.{new_command_init}
use keycard_go.CommandSet.{CommandSet, SecureChannel, v1_channel, v2_channel, Outside}
use keycard_go.CommandSet.Guard.{
  HasAuthentic, IsGuarded, Keeps, Keeps-bind, Keeps-lift, send_plain-Keeps, done-Keeps,
  fetched-Keeps,
}
use keycard_go.CommandSet.Opening.{
  use_channel, certified, with_certificate, choose_channel, remember, select_with_index, open_by,
  auto_open_secure_channel, init_by, init, init_inner, identify, generate_secret, bytes_or_nil,
  encrypted_init_payload, build_init_data,
}
use keycard_go.Constants.Instructions.{ins_init, ins_identify}
use keycard_go.Types.Certificate.{verify_identity}
use keycard_go.GlobalPlatform.Requests.{new_command_select}
use keycard_go.SecureChannelV1
use keycard_go.SecureChannelV1.{SecureChannelV1, new_secure_channel}
use keycard_go.Identifiers.{keycard_instance_aid}
use keycard_go.SecureChannelV2.{SecureChannelV2, new_secure_channel_v2}
use keycard_go.SecureChannelV2.Authentic.{IsAuthentic, auto_open-IsAuthentic}
use keycard_go.SecureChannelV2.Handshake.{set_card_certificate}
use keycard_go.SecureChannelV2.Handshake.Trust.{IsTrusted, IsVetted, set_card_certificate-IsVetted}
use keycard_go.Types.ApplicationInfo.{
  ApplicationInfo, parse_application_info, has_secure_channel_capability, app_version,
}

module _ {W : Type 0} (out : Outside W) (cas whitelisted : List Bytes) where
  abbrev IsCertified : Result (Unit {0}) × SecureChannelV2 → Type 0
  IsCertified (ok ready, sc) = IsAuthentic out.curve cas whitelisted sc
  IsCertified (err e, sc) = Unit

  abbrev fresh : SecureChannelV2
  fresh = new_secure_channel_v2 cas whitelisted

  vetted-IsCertified :
      (outcome : Result (Unit {0}) × SecureChannelV2)
      → IsVetted out.curve fresh outcome
      → IsCertified outcome
  vetted-IsCertified (err e, sc) vetted = tt
  vetted-IsCertified (ok ready, sc) (ident, changed, trusted) = (
    (λ i known.
        let same : ident ≡ i = cc (ap (λ (x : SecureChannelV2). x.card_ident_pub) changed, known) in
        subst (IsTrusted out.curve cas whitelisted) same trusted),
    λ opened. cc (ap (λ (x : SecureChannelV2). x.is_open) changed, opened),
  )

  with_certificate-IsCertified : (cert : Bytes) → IsCertified (with_certificate out cert fresh)
  unfolding with_certificate
  with_certificate-IsCertified cert = elim (Bool-cases (ltb 0 (length cert))) [
    | inl given ↦ rw given (
        vetted-IsCertified (set_card_certificate out.curve cert fresh)
          (set_card_certificate-IsVetted out.curve fresh cert))
    | inr missing ↦ rw missing ((λ i known. cc), λ opened. cc)
  ]

  certified-Keeps :
      (outcome : Result (Unit {0}) × SecureChannelV2)
      → IsCertified outcome
      → Keeps out cas whitelisted (certified out outcome)
  unfolding certified use_channel Keeps
  certified-Keeps (ok ready, sc) good cs w (same, same', _) = (same, same', good)
  certified-Keeps (err e, sc) good cs w guarded = guarded

  v1_chosen-Keeps :
      (sc : SecureChannelV1) → Keeps out cas whitelisted (use_channel out (v1_channel sc))
  unfolding use_channel Keeps
  v1_chosen-Keeps sc cs w (same, same', _) = (same, same', tt)

  v1_generated-Keeps :
      (random : Result Bytes) (info : ApplicationInfo)
      → Keeps out cas whitelisted (do
        key ← lift random
        sc ← lift (
            generate_secret out.curve key
              (bytes_or_nil info.secure_channel_public_key)
              new_secure_channel)
        use_channel out (v1_channel (SecureChannelV1.reset sc)))
  v1_generated-Keeps random info =
      Keeps-bind out cas whitelisted _ _ (Keeps-lift out cas whitelisted random) (λ key.
        Keeps-bind out cas whitelisted _ _ (Keeps-lift out cas whitelisted _)
          (λ sc. v1_chosen-Keeps (SecureChannelV1.reset sc)))

  v2_chosen-Keeps :
      (cert : Bytes) (cs : CommandSet) (w : W)
      → IsGuarded out cas whitelisted cs
      → IsGuarded out cas whitelisted
          (certified out
            (with_certificate out cert
              (new_secure_channel_v2 cs.ca_public_keys cs.whitelisted_keys))
            (cs, w)).1.0
  v2_chosen-Keeps cert cs w guarded =
      let (same, same', _) = guarded in
      simp (same, same')
        (unfold Keeps in
          certified-Keeps (with_certificate out cert fresh) (with_certificate-IsCertified cert) cs w
            guarded)

  choose_channel-Keeps :
      (random : Result Bytes) (info : ApplicationInfo)
      → Keeps out cas whitelisted (choose_channel out random info)
  unfolding choose_channel Keeps
  choose_channel-Keeps random info cs w guarded =
      elim (Bool-cases (has_secure_channel_capability info)) [
        | inr without ↦ rw without guarded
        | inl able ↦ elim (Bool-cases (leb 0x0400 (app_version info))) [
          | inl recent ↦
              rw (able, recent) (v2_chosen-Keeps (bytes_or_nil info.cert_data) cs w guarded)
          | inr old ↦ rw (able, old) (v1_generated-Keeps random info cs w guarded)
        ]
      ]

  remember-Keeps : (info : ApplicationInfo) → Keeps out cas whitelisted (remember out info)
  unfolding remember Keeps
  remember-Keeps info cs w guarded = guarded

  pub select-Keeps :
      (random : Result Bytes) (index : ℕ)
      → Keeps out cas whitelisted (select_with_index out random index)
  unfolding select_with_index
  select-Keeps random index =
      Keeps-bind out cas whitelisted _ _
        (Keeps-lift out cas whitelisted (keycard_instance_aid index))
        (λ aid.
          Keeps-bind out cas whitelisted _ _
            (send_plain-Keeps out cas whitelisted (set_le 0 (new_command_select aid)))
            (λ resp.
              Keeps-bind out cas whitelisted _ _
                (Keeps-lift out cas whitelisted (parse_application_info resp.payload))
                (λ info.
                  Keeps-bind out cas whitelisted _ _ (remember-Keeps info)
                    (λ done. choose_channel-Keeps random info))))

  open_by-Guarded :
      (random key : Result Bytes) (sc : SecureChannel) (cs : CommandSet) (w : W)
      → IsGuarded out cas whitelisted cs
      → HasAuthentic out cas whitelisted sc
      → IsGuarded out cas whitelisted (open_by out random key sc cs w).1.0
  unfolding open_by
  open_by-Guarded random key (v1_channel sc) cs w (same, same', _) h = (same, same', tt)
  open_by-Guarded random key (v2_channel sc) cs w (same, same', _) h =
      (same, same', auto_open-IsAuthentic out.curve cas whitelisted out.send random key sc w h)

  pub auto_open-Keeps :
      (random key : Result Bytes)
      → Keeps out cas whitelisted (auto_open_secure_channel out random key)
  unfolding auto_open_secure_channel Keeps
  auto_open-Keeps random key cs w guarded = open_by-Guarded random key cs.sc cs w guarded guarded.2

  init_by-Keeps :
      (random key : Result Bytes) (payload : Bytes) (sc : SecureChannel)
      → Keeps out cas whitelisted (init_by out random key payload sc)
  unfolding init_by
  init_by-Keeps random key payload (v1_channel sc) =
      Keeps-bind out cas whitelisted _ _
        (Keeps-lift out cas whitelisted (encrypted_init_payload out.aes random payload sc))
        (λ encrypted.
          Keeps-bind out cas whitelisted _ _
            (send_plain-Keeps out cas whitelisted (new_command_init encrypted))
            (λ resp. Keeps-lift out cas whitelisted (ok tt)))
  init_by-Keeps random key payload (v2_channel sc) =
      Keeps-bind out cas whitelisted _ _ (auto_open-Keeps random key)
        (λ opened. done-Keeps out cas whitelisted ins_init 0 0 payload)

  pub init-Keeps :
      (random key : Result Bytes) (pin puk token : Bytes)
      → Keeps out cas whitelisted (init out random key pin puk token)
  unfolding init Keeps
  init-Keeps random key pin puk token cs w =
      init_by-Keeps random key (build_init_data pin puk token none 0 0) cs.sc cs w

  pub init_inner-Keeps :
      (random key : Result Bytes) (pin : Bytes) (alt_pin : Option Bytes) (puk secret : Bytes)
      (pin_retries puk_retries : ℕ)
      → Keeps out cas whitelisted
          (init_inner out random key pin alt_pin puk secret pin_retries puk_retries)
  unfolding init_inner Keeps
  init_inner-Keeps random key pin alt_pin puk secret pin_retries puk_retries cs w =
      init_by-Keeps random key (build_init_data pin puk secret alt_pin pin_retries puk_retries)
        cs.sc cs w

  pub identify-Keeps : (random : Result Bytes) → Keeps out cas whitelisted (identify out random)
  unfolding identify
  identify-Keeps random =
      Keeps-bind out cas whitelisted _ _ (Keeps-lift out cas whitelisted random) (λ challenge.
        Keeps-bind out cas whitelisted _ _
          (fetched-Keeps out cas whitelisted ins_identify 0 0 challenge)
          (λ payload. Keeps-lift out cas whitelisted (verify_identity out.curve challenge payload)))
