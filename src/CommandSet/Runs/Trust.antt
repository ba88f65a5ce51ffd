-- ===== src/CommandSet/Runs/Trust.antt =====
-- Whatever the program and the card do, an open V2 channel is open with a card that the program trusts.
use mathlib.Core.Path.{subst}
use keycard_go.Base.{◌≡◌, refl, true, List, some}
use keycard_go.Base.Bytes.{Bytes}
use keycard_go.CommandSet.{CommandSet, v2_channel, Outside, new_command_set_with_cas}
use keycard_go.CommandSet.Guard.{
  HasAuthentic, IsGuarded, Keeps, send_protected-Keeps, send_plain-Keeps,
}
use keycard_go.CommandSet.Opening.Guard.{
  select-Keeps, auto_open-Keeps, init-Keeps, init_inner-Keeps, identify-Keeps,
}
use keycard_go.CommandSet.Pairing.Guard.{
  set_pairing-Keeps, pair-Keeps, auto_pair-Keeps, unpair-Keeps, unpair_others-Keeps, open-Keeps,
}
use keycard_go.CommandSet.Runs.{
  Call, select_call, auto_open_call, protected_call, plain_call, init_call, init_inner_call,
  identify_call, set_pairing_call, pair_call, auto_pair_call, unpair_call, unpair_others_call,
  open_call, after, Step, calls, moves, Reaches, here, and_then,
}
use keycard_go.SecureChannelV2.{SecureChannelV2}
use keycard_go.SecureChannelV2.Authentic.{HasSigned}
use keycard_go.SecureChannelV2.Handshake.Trust.{IsTrusted}

module _ {W : Type 0} (out : Outside W) (cas whitelisted : List Bytes) where
  after-IsGuarded :
      (call : Call) (cs : CommandSet) (w : W)
      → IsGuarded out cas whitelisted cs
      → IsGuarded out cas whitelisted (after out call (cs, w)).0
  unfolding after Keeps
  after-IsGuarded (select_call random index) cs w =
      select-Keeps out cas whitelisted random index cs w
  after-IsGuarded (auto_open_call random key) cs w =
      auto_open-Keeps out cas whitelisted random key cs w
  after-IsGuarded (protected_call ins p1 p2 payload) cs w =
      send_protected-Keeps out cas whitelisted ins p1 p2 payload cs w
  after-IsGuarded (plain_call cmd) cs w = send_plain-Keeps out cas whitelisted cmd cs w
  after-IsGuarded (init_call random key pin puk token) cs w =
      init-Keeps out cas whitelisted random key pin puk token cs w
  after-IsGuarded (init_inner_call random key pin alt_pin puk secret pin_retries puk_retries) cs w =
      init_inner-Keeps out cas whitelisted random key pin alt_pin puk secret pin_retries puk_retries
        cs w
  after-IsGuarded (identify_call random) cs w = identify-Keeps out cas whitelisted random cs w
  after-IsGuarded (set_pairing_call p) cs w = set_pairing-Keeps out cas whitelisted p cs w
  after-IsGuarded (pair_call random password) cs w =
      pair-Keeps out cas whitelisted random password cs w
  after-IsGuarded (auto_pair_call random secret mode) cs w =
      auto_pair-Keeps out cas whitelisted random secret mode cs w
  after-IsGuarded (unpair_call index) cs w = unpair-Keeps out cas whitelisted index cs w
  after-IsGuarded unpair_others_call cs w = unpair_others-Keeps out cas whitelisted cs w
  after-IsGuarded open_call cs w = open-Keeps out cas whitelisted cs w

  Step-IsGuarded :
      {s t : CommandSet × W}
      → Step out s t
      → IsGuarded out cas whitelisted s.0
      → IsGuarded out cas whitelisted t.0
  Step-IsGuarded (calls call (cs, w)) guarded = after-IsGuarded call cs w guarded
  Step-IsGuarded (moves cs w w') guarded = guarded

  Reaches-IsGuarded :
      {s t : CommandSet × W}
      → IsGuarded out cas whitelisted s.0
      → Reaches out s t
      → IsGuarded out cas whitelisted t.0
  Reaches-IsGuarded guarded here = guarded
  Reaches-IsGuarded guarded (and_then run step) =
      Step-IsGuarded step (Reaches-IsGuarded guarded run)

  new_command_set-IsGuarded :
      IsGuarded out cas whitelisted (new_command_set_with_cas cas whitelisted)
  new_command_set-IsGuarded = (refl, refl, ((λ ident known. cc), λ opened. cc))

  -- From a new CommandSet on, after any calls, with any answers of the card and any results: if the
  -- V2 channel is open, then the channel's identity key is that of a certificate whose CA key is one
  -- of those given to the CommandSet, or it is whitelisted there, and a signature by that key of the
  -- transcript of a handshake exists.
  pub Reaches-IsTrusted :
      (w : W) (cs : CommandSet) (w' : W) (sc : SecureChannelV2)
      → Reaches out (new_command_set_with_cas cas whitelisted, w) (cs, w')
      → cs.sc ≡ v2_channel sc
      → sc.is_open ≡ true
      → (ident : Bytes) × (sc.card_ident_pub ≡ some ident)
        × IsTrusted out.curve cas whitelisted ident
        × HasSigned out.curve ident
  Reaches-IsTrusted w cs w' sc run v2 opened =
      let (_, _, held) = Reaches-IsGuarded new_command_set-IsGuarded run in
      let (trusted, signed) = subst (HasAuthentic out cas whitelisted) v2 held in
      let (ident, known, by) = signed opened in (ident, known, trusted ident known, by)
