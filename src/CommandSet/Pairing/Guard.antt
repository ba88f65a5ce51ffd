-- ===== src/CommandSet/Pairing/Guard.antt =====
-- Pairing and OpenSecureChannel keep the channel of a CommandSet authentic: they change only a V1
-- channel.
use keycard_go.Base.{ℕ, [], inl, inr, Bool-cases, ◌==◌, List, Option, none, some, Result, ok, err}
use keycard_go.Base.Bytes.{Bytes}
use keycard_go.Apdu.Response.{Response}
use keycard_go.Commands.{new_command_pair_first_step}
use keycard_go.Constants.Instructions.{ins_mutually_authenticate}
use keycard_go.Constants.Parameters.{sw_no_available_pairing_slots}
use keycard_go.CommandSet.{CommandSet, SecureChannel, v1_channel, v2_channel, Outside}
use keycard_go.CommandSet.Guard.{
  HasAuthentic, IsGuarded, Keeps, Keeps-bind, Keeps-lift, send_plain-Keeps, done-Keeps,
}
use keycard_go.CommandSet.Pairing.{
  set_pairing, set_channel_pairing, no_slots, first_step, pair, pair_by,
  auto_pair_with_secret_and_mode, unpair_by, unpair_index, others_by, unpair_other_clients,
  mutual_authenticate, init_channel, open_paired, open_v1, open_informed, open_secure_channel,
}
use keycard_go.SecureChannelV1.{SecureChannelV1}
use keycard_go.Types.ApplicationInfo.{ApplicationInfo}
use keycard_go.Types.Pairing.{Pairing}

module _ {W : Type 0} (out : Outside W) (cas whitelisted : List Bytes) where
  set_channel_pairing-HasAuthentic :
      (p : Pairing) (sc : SecureChannel)
      → HasAuthentic out cas whitelisted sc
      → HasAuthentic out cas whitelisted (set_channel_pairing p sc)
  unfolding set_channel_pairing
  set_channel_pairing-HasAuthentic p (v1_channel sc) h = tt
  set_channel_pairing-HasAuthentic p (v2_channel sc) h = h

  pub set_pairing-Keeps : (p : Pairing) → Keeps out cas whitelisted (set_pairing out p)
  unfolding set_pairing Keeps
  set_pairing-Keeps p cs w (same, same', h) =
      (same, same', set_channel_pairing-HasAuthentic p cs.sc h)

  no_slots-Keeps : (answer : Result Response) → Keeps out cas whitelisted (no_slots out answer)
  unfolding no_slots Keeps
  no_slots-Keeps (err e) cs w guarded = guarded
  no_slots-Keeps (ok resp) cs w guarded =
      elim (Bool-cases (resp.sw == sw_no_available_pairing_slots)) [
        | inl full ↦ rw full guarded
        | inr other ↦ rw other guarded
      ]

  first_step-Keeps : (challenge : Bytes) → Keeps out cas whitelisted (first_step out challenge)
  unfolding first_step Keeps
  first_step-Keeps challenge cs w guarded =
      let (answer, w') = out.send (new_command_pair_first_step challenge) w in
      no_slots-Keeps answer cs w' guarded

  pub pair-Keeps :
      (random : Result Bytes) (pairing_pass : Bytes)
      → Keeps out cas whitelisted (pair out random pairing_pass)
  unfolding pair
  pair-Keeps random pairing_pass =
      Keeps-bind out cas whitelisted _ _ (Keeps-lift out cas whitelisted random) (λ challenge.
        Keeps-bind out cas whitelisted _ _ (first_step-Keeps challenge) (λ resp.
          Keeps-bind out cas whitelisted _ _ (Keeps-lift out cas whitelisted _) (λ secret_hash.
            Keeps-bind out cas whitelisted _ _ (send_plain-Keeps out cas whitelisted _)
              (λ final. set_pairing-Keeps _))))

  pair_by-Guarded :
      (random : Result Bytes) (mode : ℕ) (secret : Bytes) (sc : SecureChannel) (cs : CommandSet)
      (w : W)
      → IsGuarded out cas whitelisted cs
      → IsGuarded out cas whitelisted (pair_by out random mode secret sc cs w).1.0
  unfolding pair_by
  pair_by-Guarded random mode secret (v1_channel sc) cs w (same, same', h) = (same, same', tt)
  pair_by-Guarded random mode secret (v2_channel sc) cs w guarded = guarded

  pub auto_pair-Keeps :
      (random : Result Bytes) (secret : Bytes) (mode : ℕ)
      → Keeps out cas whitelisted (auto_pair_with_secret_and_mode out random secret mode)
  unfolding auto_pair_with_secret_and_mode Keeps
  auto_pair-Keeps random secret mode cs w = pair_by-Guarded random mode secret cs.sc cs w

  unpair_by-Guarded :
      (index : ℕ) (sc : SecureChannel) (cs : CommandSet) (w : W)
      → IsGuarded out cas whitelisted cs
      → IsGuarded out cas whitelisted (unpair_by out index sc cs w).1.0
  unfolding unpair_by
  unpair_by-Guarded index (v1_channel sc) cs w (same, same', h) = (same, same', tt)
  unpair_by-Guarded index (v2_channel sc) cs w guarded = guarded

  pub unpair-Keeps : (index : ℕ) → Keeps out cas whitelisted (unpair_index out index)
  unfolding unpair_index Keeps
  unpair-Keeps index cs w = unpair_by-Guarded index cs.sc cs w

  others_by-Guarded :
      (sc : SecureChannel) (cs : CommandSet) (w : W)
      → IsGuarded out cas whitelisted cs
      → IsGuarded out cas whitelisted (others_by out sc cs w).1.0
  unfolding others_by
  others_by-Guarded (v1_channel sc) cs w (same, same', h) = (same, same', tt)
  others_by-Guarded (v2_channel sc) cs w guarded = guarded

  pub unpair_others-Keeps : Keeps out cas whitelisted (unpair_other_clients out)
  unfolding unpair_other_clients Keeps
  unpair_others-Keeps cs w = others_by-Guarded cs.sc cs w

  init_channel-Keeps :
      (sc : SecureChannelV1) (keys : Bytes × (Bytes × Bytes))
      → Keeps out cas whitelisted (init_channel out sc keys)
  unfolding init_channel Keeps
  init_channel-Keeps sc (enc_key, (mac_key, iv)) cs w (same, same', h) = (same, same', tt)

  open_paired-Keeps :
      (sc : SecureChannelV1) (pairing : Option Pairing)
      → Keeps out cas whitelisted (open_paired out sc pairing)
  unfolding open_paired mutual_authenticate
  open_paired-Keeps sc none = Keeps-lift out cas whitelisted _
  open_paired-Keeps sc (some p) =
      Keeps-bind out cas whitelisted _ _ (send_plain-Keeps out cas whitelisted _) (λ resp.
        Keeps-bind out cas whitelisted _ _ (Keeps-lift out cas whitelisted _) (λ keys.
          Keeps-bind out cas whitelisted _ _ (init_channel-Keeps sc keys)
            (λ ready. done-Keeps out cas whitelisted ins_mutually_authenticate 0 0 [])))

  open_informed-Keeps :
      (info : Option ApplicationInfo) (sc : SecureChannel)
      → Keeps out cas whitelisted (open_informed out info sc)
  unfolding open_informed open_v1
  open_informed-Keeps none sc = Keeps-lift out cas whitelisted _
  open_informed-Keeps (some info) (v1_channel sc) = open_paired-Keeps sc sc.pairing
  open_informed-Keeps (some info) (v2_channel sc) = Keeps-lift out cas whitelisted _

  pub open-Keeps : Keeps out cas whitelisted (open_secure_channel out)
  unfolding open_secure_channel Keeps
  open-Keeps cs w = open_informed-Keeps cs.application_info cs.sc cs w
