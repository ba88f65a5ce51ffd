-- ===== src/CommandSet/Ndef/Memory.antt =====
-- SetNDEF and the memory of the card.
use keycard_go.Base.{
  ℕ, zero, suc, ◌+◌, ◌-◌, ◌*◌, ◌/◌, ◌%◌, ◌==◌, bit_or, ◌⊎◌, ◌<◌, ◌≤◌, ◌≡◌, refl, sym, ap, ◌∙◌, inl,
  inr, Bool-cases, true, false, [], ◌∷◌, ◌++◌, append_assoc, append-nil, arith, ltb, if◌then◌else◌,
  length, length-append, length-take, length-drop, take, drop, take-append, drop-append, drop-drop,
  take-append_drop, Option, some, ok,
}
use mathlib.Core.Path.{subst}
use keycard_go.Base.Bytes.{Bytes, AllBytes, uint8, uint16, shift_in}
use keycard_go.Base.Exec.{Exec}
use keycard_go.Apdu.Command.{Command, new_command}
use keycard_go.Apdu.Response.{Response}
use keycard_go.Apdu.Response.Checks.{check_ok_lem}
use keycard_go.SecureChannelV2.{SecureChannelV2}
use keycard_go.SecureChannelV2.Plain.{send_protected_plain}
use keycard_go.CommandSet.{
  CommandSet, v2_channel, Outside, store_data_with_offset, done, send_checked, send_protected,
  by_channel,
}
use keycard_go.CommandSet.Ndef.{set_ndef, store_chunks, chunk_loop, with_prefix, app_major}
use keycard_go.Types.ApplicationInfo.{ApplicationInfo, app_version}

-- Bytes written at an offset into a memory.
abbrev pub written : ℕ → Bytes → Bytes → Bytes
written offset chunk memory = take offset memory ++ (chunk ++ drop (offset + length chunk) memory)

-- The card: STORE DATA of an NDEF record writes at four times P2.
pub record IsStore {W : Type 0} (send : Command → Exec W Response) (memory : W → Bytes)
    : Type 0 where
  pub stores :
      (w : W) (p2 : ℕ) (chunk : Bytes)
      → (resp : Response) × (w' : W) × (send (new_command 0x80 0xe2 0x01 p2 chunk) w
          ≡ (ok resp, w'))
        × (resp.sw ≡ 0x9000)
        × (memory w' ≡ written (4 * p2) chunk (memory w))

-- A message with its length in two bytes, the high one first.
abbrev pub framed : Bytes → Bytes
framed body = length body / 256 ∷ length body % 256 ∷ body

-- What SetNDEF puts in front of a message.
prefix_lem :
    (ndef : Bytes)
    → AllBytes ndef
    → length ndef ≤ 1098
    → (((body : Bytes) × (ndef ≡ framed body)) × (with_prefix ndef ≡ ndef))
      ⊎ (¬ ((body : Bytes) × (ndef ≡ framed body)) × (with_prefix ndef ≡ framed ndef))
unfolding with_prefix
prefix_lem [] bytes small = inr ((λ has. let (body, e) = has in absurd cc), refl)
prefix_lem (b ∷ []) bytes small = inr ((λ has. let (body, e) = has in absurd cc), refl)
prefix_lem (hi ∷ lo ∷ body) (hi_byte, (lo_byte, rest)) small =
    let joined = shift_in hi lo lo_byte in
    elim (Bool-cases (bit_or (hi * 256) lo == length body)) [
      | inl right ↦
          let total : hi * 256 + lo ≡ length body = ground (arith, right, joined) in
          let high : hi ≡ length body / 256 = omega (arith, total, lo_byte) in
          let low : lo ≡ length body % 256 = omega (arith, total, lo_byte) in
          inl ((body, cc), ground (arith, right))
      | inr wrong ↦
          let fits : length (hi ∷ lo ∷ body) / 256 % 256 ≡ length (hi ∷ lo ∷ body) / 256 =
            omega (arith, small) in
          inr (
            (λ has.
                let (x, e) = has in
                let high : hi ≡ length x / 256 = cc in
                let low : lo ≡ length x % 256 = cc in
                let same : body ≡ x = cc in
                let total : length body ≡ length x = ap length same in
                ground (arith, wrong, joined, high, low, total)),
            ground (arith, wrong, fits),
          )
    ]

module _ {W : Type 0} (out : Outside W) (memory : W → Bytes) (card : IsStore out.send memory)
    (base : CommandSet) (sc : SecureChannelV2) (closed : sc.is_open ≡ false) where
  abbrev cs : CommandSet
  cs = record base { sc = v2_channel sc }

  store_lem :
      (w : W) (chunk : Bytes) (offset : ℕ)
      → (w' : W) × (store_data_with_offset out 0x01 chunk offset (cs, w) ≡ (ok tt, (cs, w')))
        × (memory w' ≡ written (4 * uint8 (offset / 4)) chunk (memory w))
  unfolding store_data_with_offset done send_checked send_protected by_channel
  store_lem w chunk offset =
      let (resp, w', sent, status, moved) = card.stores w (uint8 (offset / 4)) chunk in
      let plain =
        send_protected_plain out.aes out.send sc 0xe2 0x01 (uint8 (offset / 4)) chunk w w' resp
          closed sent status in
      (w', rw (plain, check_ok_lem resp status) refl, moved)

  module _ (before : Bytes) where
    -- The memory while SetNDEF runs: what is stored so far, then what was there before.
    abbrev Stored : Bytes → W → Type 0
    Stored front w = memory w ≡ front ++ drop (length front) before

    written_lem :
        (front chunk m : Bytes)
        → m ≡ front ++ drop (length front) before
        → written (length front) chunk m ≡ (front ++ chunk) ++ drop (length (front ++ chunk)) before
    written_lem front chunk m h =
        let old = drop (length front) before in
        let kept = take-append front old in
        let cut =
          sym (drop-drop (length chunk) (length front) (front ++ old))
          ∙ ap (drop (length chunk)) (drop-append front old)
          ∙ drop-drop (length chunk) (length front) before in
        rw (h, kept, cut, length-append front chunk)
          (sym (append_assoc front chunk (drop (length front + length chunk) before)))

    module _ (front back : Bytes) (c : ℕ) (fits : c ≤ length back) where
      chunk_end : length (front ++ take c back) ≡ length front + c
      chunk_end = omega (arith, length-append front (take c back), length-take c back)

      rest_left : length (drop c back) ≡ length back - c
      rest_left = length-drop c back

      same_data : (front ++ take c back) ++ drop c back ≡ front ++ back
      same_data =
          append_assoc front (take c back) (drop c back)
          ∙ ap (λ (t : Bytes). front ++ t) (take-append_drop c back)

      round_lem :
          (rounds : ℕ) (w : W)
          → (if ltb (length back) 220 then length back else 220) ≡ c
          → ltb 0 (length back) ≡ true
          → 4 * uint8 (uint16 (length front) / 4) ≡ length front
          → Stored front w
          → (w' : W) × (chunk_loop out
                (suc rounds)
                (length front)
                (length back)
                (front ++ back)
                (cs, w)
              ≡ chunk_loop out rounds
                  (length (front ++ take c back))
                  (length (drop c back))
                  ((front ++ take c back) ++ drop c back)
                  (cs, w'))
            × Stored (front ++ take c back) w'
      unfolding chunk_loop
      round_lem rounds w size more aligned stored =
          let (w', call, moved) = store_lem w (take c back) (uint16 (length front)) in
          (
            w',
            rw (size, more, drop-append front back, call, chunk_end, rest_left, same_data) refl,
            moved
                ∙ ap (λ (o : ℕ). written o (take c back) (memory w)) aligned
                ∙ written_lem front (take c back) (memory w) stored,
          )

    -- A chunk starts at a multiple of 220.
    abbrev IsAligned : Bytes → Bytes → Type 0
    IsAligned front back = 0 < length back → (k : ℕ) × (length front ≡ 220 * k)

    offset_lem : (l k : ℕ) → l ≡ 220 * k → l < 1100 → 4 * uint8 (uint16 l / 4) ≡ l
    offset_lem l k h small = omega (arith, h, small)

    chunks_lem :
        (rounds : ℕ) (front back : Bytes) (w : W)
        → length back < rounds
        → length front + length back ≤ 1100
        → IsAligned front back
        → Stored front w
        → (w' : W) × (chunk_loop out rounds (length front) (length back) (front ++ back) (cs, w)
            ≡ (ok tt, (cs, w')))
          × Stored (front ++ back) w'
    unfolding chunk_loop
    chunks_lem zero front back w enough small aligned stored = absurd (omega arith)
    chunks_lem (suc rounds) front [] w enough small aligned stored =
        (w, refl, rw (append-nil front) stored)
    chunks_lem (suc rounds) front (b ∷ rest) w enough small aligned stored =
        let back = b ∷ rest in
        let more : ltb 0 (length back) ≡ true = ground arith in
        let (k, multiple) = aligned (omega arith) in
        let offset = offset_lem (length front) k multiple (omega arith) in
        elim (Bool-cases (ltb (length back) 220)) [
          | inl few ↦
              let n = length back in
              let le : n ≤ n = omega arith in
              let (w1, now, stored1) =
                round_lem front back n le rounds w (rw few refl) more offset stored in
              let (w2, later, stored2) =
                chunks_lem rounds (front ++ take n back) (drop n back) w1
                  (omega (arith, rest_left front back n le))
                  (omega (arith, rest_left front back n le, chunk_end front back n le))
                  (λ left. absurd (omega (arith, left, rest_left front back n le))) stored1 in
              (
                w2,
                now ∙ later,
                subst (λ (t : Bytes). Stored t w2) (same_data front back n le) stored2,
              )
          | inr many ↦
              let le : 220 ≤ length back = ground (arith, many) in
              let (w1, now, stored1) =
                round_lem front back 220 le rounds w (rw many refl) more offset stored in
              let (w2, later, stored2) =
                chunks_lem rounds (front ++ take 220 back) (drop 220 back) w1
                  (omega (arith, rest_left front back 220 le))
                  (omega (arith, rest_left front back 220 le, chunk_end front back 220 le))
                  (λ left. (k + 1, omega (arith, multiple, chunk_end front back 220 le))) stored1 in
              (
                w2,
                now ∙ later,
                subst (λ (t : Bytes). Stored t w2) (same_data front back 220 le) stored2,
              )
        ]

  set_ndef_recent :
      (ndef : Bytes) (w : W)
      → ltb 2 (app_major base.application_info) ≡ true
      → set_ndef out ndef (cs, w) ≡ store_chunks out (with_prefix ndef) (cs, w)
  unfolding set_ndef
  set_ndef_recent ndef w h = rw (set_ndef, h) refl

  prefixed_lem :
      (info : ApplicationInfo) (ndef : Bytes) (w : W)
      → base.application_info ≡ some info
      → 2 < uint8 (app_version info / 256)
      → length (with_prefix ndef) ≤ 1100
      → (w' : W) × (set_ndef out ndef (cs, w) ≡ (ok tt, (cs, w')))
        × (memory w' ≡ with_prefix ndef ++ drop (length (with_prefix ndef)) (memory w))
  unfolding app_major store_chunks
  prefixed_lem info ndef w known recent small =
      let message = with_prefix ndef in
      let major : ltb 2 (uint8 (app_version info / 256)) ≡ true = ground (arith, recent) in
      let (w', stored, memory') =
        chunks_lem (memory w) (suc (length message)) [] message w (omega arith)
          (omega (arith, small)) (λ more. (0, refl)) refl in
      (
        w',
        set_ndef_recent ndef w
              (ap (λ (i : Option ApplicationInfo). ltb 2 (app_major i)) known ∙ major)
            ∙ stored,
        memory',
      )

  -- With an applet of version 3 or later, a V2 channel that is not open, and a card that answers 9000
  -- to STORE DATA of an NDEF record and writes its bytes at four times P2, SetNDEF of a message of at
  -- most 1098 bytes succeeds. If the message is a length of two bytes, the high one first, with
  -- that many bytes behind it, it then stands at the start of the card's memory; if not, its length
  -- stands there in two bytes, the high one first, and the message behind it. The memory goes on
  -- with what was there before.
  pub set_ndef_lem :
      (info : ApplicationInfo) (ndef : Bytes) (w : W)
      → base.application_info ≡ some info
      → 2 < uint8 (app_version info / 256)
      → AllBytes ndef
      → length ndef ≤ 1098
      → (w' : W) × (set_ndef out ndef (cs, w) ≡ (ok tt, (cs, w')))
        × (((body : Bytes) × (ndef ≡ framed body)
              × (memory w' ≡ ndef ++ drop (length ndef) (memory w)))
            ⊎ (¬ ((body : Bytes) × (ndef ≡ framed body))
                × (memory w' ≡ framed ndef ++ drop (length (framed ndef)) (memory w))))
  set_ndef_lem info ndef w known recent bytes small = elim (prefix_lem ndef bytes small) [
    | inl ((body, has), same) ↦
        let fits : length (with_prefix ndef) ≤ 1100 = rw same (omega (arith, small)) in
        let (w', stored, held) = prefixed_lem info ndef w known recent fits in
        (w', stored, inl (body, has, rw same at held))
    | inr (bare, same) ↦
        let fits : length (with_prefix ndef) ≤ 1100 = rw same (omega (arith, small)) in
        let (w', stored, held) = prefixed_lem info ndef w known recent fits in
        (w', stored, inr (bare, rw same at held))
  ]
