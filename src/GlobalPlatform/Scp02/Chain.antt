-- ===== src/GlobalPlatform/Scp02/Chain.antt =====
-- The wrapper and a card that checks the MACs.
use keycard_go.Base.{
  ℕ, zero, replicate, length-replicate, ◌*◌, ◌/◌, ◌%◌, ◌+◌, ◌-◌, ◌≡◌, refl, ◌∙◌, inl, inr, Bool,
  Bool-cases, true, false, List, [], ◌∷◌, ◌++◌, arith, if◌then◌else◌, length, length-append,
  length-drop, map, take, drop, take-append_eq, drop-append_eq, bit_or, Option, none, some,
}
use keycard_go.Base.Bytes.{Bytes, uint8, bytes_equal, bytes_equal_refl}
use keycard_go.Apdu.Command.{Command}
use keycard_go.GlobalPlatform.Des.{Des, encrypt_icv}
use keycard_go.GlobalPlatform.Scp02.{Scp02Wrapper, wrap, with_le_of, chained_icv, mac_data}
use keycard_go.GlobalPlatform.Scp02.RetailMac.{DesLaws, chained, retail_mac, retail_mac_lem}

-- A command as the card reads it: without its MAC and with the bit of secure messaging.
abbrev pub marked : Command → Command
marked cmd = record {
  cla = bit_or cmd.cla 0x04;
  ins = cmd.ins;
  p1 = cmd.p1;
  p2 = cmd.p2;
  payload = cmd.payload;
  le = if cmd.requires_le then cmd.le else 0;
  requires_le = cmd.requires_le;
}

abbrev both : Option Command → Option (List Command) → Option (List Command)
both (some c) (some cs) = some (c ∷ cs)
both _ _ = none

module _ (des : Des) where
  -- The IV of the next MAC: the last MAC, after single DES with the first half of the key; zeros are
  -- taken as they are.
  abbrev card_iv : Scp02Wrapper → Bytes
  card_iv w =
      if bytes_equal w.icv (replicate 8 0)
      then w.icv
      else des.cbc (take 8 w.mac_key) (replicate 8 0) w.icv

  -- A card with its own key and chaining value: it computes the MAC of what stands in front of the
  -- last eight bytes, and keeps it for the next command.
  unfoldable pub unwrap : Command → Scp02Wrapper → Option Command × Scp02Wrapper
  unwrap cmd w =
      let size = length cmd.payload - 8 in
      let content = take size cmd.payload in
      let mac =
        retail_mac des w.mac_key (card_iv w)
          (cmd.cla ∷ cmd.ins ∷ cmd.p1 ∷ cmd.p2 ∷ uint8 (length cmd.payload) ∷ content) in
      if bytes_equal mac (drop size cmd.payload)
      then (some (record cmd { payload = content }), record w { icv = mac })
      else (none, w)

  unfoldable pub wrap_all : List Command → Scp02Wrapper → List Command × Scp02Wrapper
  wrap_all [] w = ([], w)
  wrap_all (cmd ∷ cmds) w =
      let (first, w1) = wrap des cmd w in let (rest, w2) = wrap_all cmds w1 in (first ∷ rest, w2)

  -- What the card reads of the commands, in their order, where it accepts all of them.
  unfoldable pub unwrap_all : List Command → Scp02Wrapper → Option (List Command) × Scp02Wrapper
  unwrap_all [] w = (some [], w)
  unwrap_all (cmd ∷ cmds) w =
      let (first, w1) = unwrap cmd w in let (rest, w2) = unwrap_all cmds w1 in (both first rest, w2)

  module _ (laws : DesLaws des) where
    length-mac : (key input iv : Bytes) → length (retail_mac des key iv input) ≡ 8
    unfolding retail_mac
    length-mac key input iv =
        let n = length input / 8 in
        let p = input ++ 0x80 ∷ replicate (7 - length input % 8) 0 in
        laws.length-cbc_triple (take 16 key ++ take 8 key) (chained des n (take 8 key) iv p)
          (drop (8 * n) p)
        ∙ omega (
          arith,
          length-drop (8 * n) p,
          length-append input (0x80 ∷ replicate (7 - length input % 8) 0),
          length-replicate (7 - length input % 8) zero,
        )

    unwrap_lem :
        (w : Scp02Wrapper) (cla ins p1 p2 : ℕ) (payload : Bytes) (le : ℕ) (requires_le : Bool)
        → (let mac =
              retail_mac des w.mac_key
                (card_iv w)
                (cla ∷ ins ∷ p1 ∷ p2 ∷ uint8 (length payload + 8) ∷ payload) in
            unwrap
              (record {
                cla = cla;
                ins = ins;
                p1 = p1;
                p2 = p2;
                payload = payload ++ mac;
                le = le;
                requires_le = requires_le;
              })
              w
            ≡ (
              some (record {
                cla = cla;
                ins = ins;
                p1 = p1;
                p2 = p2;
                payload = payload;
                le = le;
                requires_le = requires_le;
              }),
              record w { icv = mac },
            ))
    unfolding unwrap
    unwrap_lem w cla ins p1 p2 payload le requires_le =
        let mac =
          retail_mac des w.mac_key (card_iv w)
            (cla ∷ ins ∷ p1 ∷ p2 ∷ uint8 (length payload + 8) ∷ payload) in
        let eight =
          length-mac w.mac_key (cla ∷ ins ∷ p1 ∷ p2 ∷ uint8 (length payload + 8) ∷ payload)
            (card_iv w) in
        let total : length (payload ++ mac) ≡ length payload + 8 =
          omega (arith, length-append payload mac, eight) in
        let size : length payload + 8 - 8 ≡ length payload = omega arith in
        rw
          (
            total,
            size,
            take-append_eq (length payload) payload mac refl,
            drop-append_eq (length payload) payload mac refl,
            bytes_equal_refl mac,
          )
          refl

    -- A command that is wrapped is accepted by a card with the same key and chaining value, which
    -- reads the command as it was, with the bit of secure messaging, and moves to the same value.
    unwrap-wrap :
        (cmd : Command) (w : Scp02Wrapper)
        → unwrap (wrap des cmd w).0 w ≡ (some (marked cmd), (wrap des cmd w).1)
    unfolding wrap with_le_of chained_icv encrypt_icv
    unwrap-wrap cmd w =
        let retail = retail_mac_lem des laws w.mac_key (mac_data des cmd) (card_iv w) in
        rw retail (elim (Bool-cases cmd.requires_le) [
          | inl with_le ↦
              simp with_le
                (unwrap_lem w (bit_or cmd.cla 0x04) cmd.ins cmd.p1 cmd.p2 cmd.payload cmd.le true)
          | inr without ↦
              simp without
                (unwrap_lem w (bit_or cmd.cla 0x04) cmd.ins cmd.p1 cmd.p2 cmd.payload 0 false)
        ])

    -- A card with the key and the chaining value of the wrapper, which computes the MAC of ISO 9797-1,
    -- algorithm 3, block by block, from the last MAC after single DES, accepts every command of a
    -- sequence that is wrapped and sent in its order, reads each as it was with the bit of secure
    -- messaging, and ends with the chaining value of the wrapper. For a DES with the laws of CBC.
    pub unwrap_all-wrap_all :
        (cmds : List Command) (w : Scp02Wrapper)
        → unwrap_all (wrap_all cmds w).0 w ≡ (some (map marked cmds), (wrap_all cmds w).1)
    unfolding unwrap_all wrap_all
    unwrap_all-wrap_all [] w = refl
    unwrap_all-wrap_all (cmd ∷ cmds) w =
        rw (unwrap-wrap cmd w, unwrap_all-wrap_all cmds (wrap des cmd w).1) refl
