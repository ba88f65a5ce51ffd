-- ===== src/CommandSet/Guard.antt =====
-- Calls of a CommandSet that keep its channel authentic.
use keycard_go.Base.{ℕ, ◌≡◌, List, Result, ok, err}
use keycard_go.Base.Bytes.{Bytes}
use keycard_go.Base.Exec.{continue, ◌>>=◌, lift}
use keycard_go.Apdu.Command.{Command}
use keycard_go.CommandSet.{
  CommandSet, SecureChannel, v1_channel, v2_channel, Outside, with_channel, send_protected,
  send_plain, send_checked, done, fetched, by_channel,
}
use keycard_go.CommandSet as CommandSet
use keycard_go.SecureChannelV1.{SecureChannelV1}
use keycard_go.SecureChannelV2 as V2
use keycard_go.SecureChannelV2.Authentic.{IsAuthentic, Follows-IsAuthentic}
use keycard_go.SecureChannelV2.Identity.{send_protected-Follows}

module _ {W : Type 0} (out : Outside W) (cas whitelisted : List Bytes) where
  abbrev pub HasAuthentic : SecureChannel → Type 0
  HasAuthentic (v1_channel sc) = Unit
  HasAuthentic (v2_channel sc) = IsAuthentic out.curve cas whitelisted sc

  -- The keys that the program gave are kept, and the channel is authentic.
  abbrev pub IsGuarded : CommandSet → Type 0
  IsGuarded cs =
      (cs.ca_public_keys ≡ cas) × (cs.whitelisted_keys ≡ whitelisted) × HasAuthentic cs.sc

  -- A call that keeps it, with an error too.
  unfoldable pub Keeps : {A : Type 0} → CommandSet.Call out A → Type 0
  Keeps call = (cs : CommandSet) (w : W) → IsGuarded cs → IsGuarded (call (cs, w)).1.0

  module _ {A B : Type 0} where
    pub Keeps-bind :
        (call : CommandSet.Call out A) (rest : A → CommandSet.Call out B)
        → Keeps call
        → ((a : A) → Keeps (rest a))
        → Keeps (call >>= rest)
    unfolding Keeps
    Keeps-bind call rest h h_rest cs w guarded =
        go (call (cs, w)).0 (call (cs, w)).1 (h cs w guarded)
      where
        go :
            (result : Result A) (state : CommandSet × W)
            → IsGuarded state.0
            → IsGuarded (continue result rest state).1.0
        go (ok a) (cs', w') guarded' = h_rest a cs' w' guarded'
        go (err e) state guarded' = guarded'

  pub Keeps-lift : {A : Type 0} (result : Result A) → Keeps (lift result)
  unfolding Keeps
  Keeps-lift result cs w guarded = guarded

  pub Keeps-v1 :
      {A : Type 0} (cs : CommandSet) (outcome : Result A × (SecureChannelV1 × W))
      → IsGuarded cs
      → IsGuarded (with_channel cs v1_channel outcome).1.0
  Keeps-v1 cs outcome (same, same', _) = (same, same', tt)

  sent-Keeps :
      (ins p1 p2 : ℕ) (payload : Bytes) (sc : SecureChannel) (cs : CommandSet) (w : W)
      → IsGuarded cs
      → HasAuthentic sc
      → IsGuarded (by_channel out ins p1 p2 payload sc cs w).1.0
  unfolding by_channel
  sent-Keeps ins p1 p2 payload (v1_channel sc) cs w (same, same', _) h = (same, same', tt)
  sent-Keeps ins p1 p2 payload (v2_channel sc) cs w (same, same', _) h = (
    same,
    same',
    Follows-IsAuthentic out.curve cas whitelisted sc
        (V2.send_protected out.aes out.send ins p1 p2 payload (sc, w)).1.0
        (send_protected-Follows out.aes out.send ins p1 p2 payload sc w) h,
  )

  pub send_protected-Keeps :
      (ins p1 p2 : ℕ) (payload : Bytes) → Keeps (send_protected out ins p1 p2 payload)
  unfolding send_protected Keeps
  send_protected-Keeps ins p1 p2 payload cs w guarded =
      sent-Keeps ins p1 p2 payload cs.sc cs w guarded guarded.2

  pub send_plain-Keeps : (cmd : Command) → Keeps (send_plain out cmd)
  unfolding send_plain Keeps
  send_plain-Keeps cmd cs w guarded = guarded

  send_checked-Keeps :
      (ins p1 p2 : ℕ) (payload : Bytes) → Keeps (send_checked out ins p1 p2 payload)
  unfolding send_checked Keeps
  send_checked-Keeps ins p1 p2 payload = unfold Keeps in send_protected-Keeps ins p1 p2 payload

  pub done-Keeps : (ins p1 p2 : ℕ) (payload : Bytes) → Keeps (done out ins p1 p2 payload)
  unfolding done
  done-Keeps ins p1 p2 payload =
      Keeps-bind (send_checked out ins p1 p2 payload) _ (send_checked-Keeps ins p1 p2 payload)
        (λ resp. Keeps-lift (ok tt))

  pub fetched-Keeps : (ins p1 p2 : ℕ) (payload : Bytes) → Keeps (fetched out ins p1 p2 payload)
  unfolding fetched
  fetched-Keeps ins p1 p2 payload =
      Keeps-bind (send_checked out ins p1 p2 payload) _ (send_checked-Keeps ins p1 p2 payload)
        (λ resp. Keeps-lift (ok resp.payload))
