-- ===== src/GlobalPlatform/Scp02/RetailMac.antt =====
-- The MAC of ISO 9797-1, algorithm 3, block by block, and MacFull3DES of
-- globalplatform/crypto/crypto.go.
use keycard_go.Base.{
  ℕ, zero, suc, ◌+◌, ◌-◌, ◌*◌, ◌/◌, ◌%◌, ◌≤◌, ◌≡◌, refl, sym, ap, ◌∙◌, true, [], ◌∷◌, ◌++◌, arith,
  ltb, if◌then◌else◌, length, length-append, length-take, length-drop, length-replicate, take, drop,
  drop-append_eq, drop-drop, replicate,
}
use keycard_go.Base.Bytes.{Bytes}
use keycard_go.GlobalPlatform.Des.{Des, append_des_padding, mac_full_3des}

-- CBC over whole blocks keeps the size, and goes on with the last block as the next IV.
pub record DesLaws (des : Des) : Type 0 where
  pub length-cbc_triple :
      (key iv plain : Bytes) → length (des.cbc_triple key iv plain) ≡ length plain
  pub length-cbc :
      (key iv plain : Bytes) → length plain % 8 ≡ 0 → length (des.cbc key iv plain) ≡ length plain
  pub cbc-append :
      (key iv front back : Bytes)
      → length front ≡ 8
      → length back % 8 ≡ 0
      → des.cbc key iv (front ++ back)
        ≡ des.cbc key iv front ++ des.cbc key (des.cbc key iv front) back

take_split : (a b : ℕ) (p : Bytes) → take (a + b) p ≡ take a p ++ take b (drop a p)
take_split zero b p = let e : 0 + b ≡ b = omega arith in rw e refl
take_split (suc a) zero [] = let e : suc a + 0 ≡ suc a = omega arith in rw e refl
take_split (suc a) (suc b) [] = let e : suc a + suc b ≡ suc (a + suc b) = omega arith in rw e refl
take_split (suc a) b (x ∷ p) =
    let e : suc a + b ≡ suc (a + b) = omega arith in
    rw e (ap (λ (t : Bytes). x ∷ t) (take_split a b p))

drop_past :
    (n : ℕ) (front back : Bytes) → length front ≡ 8 → drop (8 + n) (front ++ back) ≡ drop n back
drop_past n front back size =
    sym (drop-drop n 8 (front ++ back)) ∙ ap (drop n) (drop-append_eq 8 front back size)

module _ (des : Des) where
  -- The value after `n` blocks of single DES.
  unfoldable pub chained : ℕ → Bytes → Bytes → Bytes → Bytes
  chained zero key iv p = iv
  chained (suc n) key iv p = chained n key (des.cbc key iv (take 8 p)) (drop 8 p)

  -- The message is padded with 80 and zeros to whole blocks; the last goes through triple DES.
  unfoldable pub retail_mac : Bytes → Bytes → Bytes → Bytes
  retail_mac key iv message =
      let p = message ++ 0x80 ∷ replicate (7 - length message % 8) 0 in
      let n = length message / 8 in
      des.cbc_triple (take 16 key ++ take 8 key) (chained n (take 8 key) iv p) (drop (8 * n) p)

module _ (des : Des) (laws : DesLaws des) where
  -- The last block of CBC over `n` blocks and one more.
  chained_lem :
      (n : ℕ) (key iv p : Bytes)
      → 8 * n + 8 ≤ length p
      → drop (8 * n) (des.cbc key iv (take (8 * n + 8) p)) ≡ chained des (suc n) key iv p
  unfolding chained
  chained_lem zero key iv p enough = refl
  chained_lem (suc n) key iv p enough =
      let next = des.cbc key iv (take 8 p) in
      let left = drop 8 p in
      let one_more : 8 * suc n + 8 ≡ 8 + (8 * n + 8) = omega arith in
      let block : length (take 8 p) ≡ 8 = omega (arith, enough, length-take 8 p) in
      let whole : length (take (8 * n + 8) left) % 8 ≡ 0 =
        omega (arith, enough, length-take (8 * n + 8) left, length-drop 8 p) in
      let next_block : length next ≡ 8 =
        omega (arith, block, laws.length-cbc key iv (take 8 p) (omega (arith, block))) in
      let past : 8 * suc n ≡ 8 + 8 * n = omega arith in
      rw
        (
          one_more,
          past,
          take_split 8 (8 * n + 8) p,
          laws.cbc-append key iv (take 8 p) (take (8 * n + 8) left) block whole,
          drop_past (8 * n) next (des.cbc key next (take (8 * n + 8) left)) next_block,
        )
        (chained_lem n key next left (omega (arith, enough, length-drop 8 p)))

  last_lem :
      (n : ℕ) (key iv p : Bytes)
      → length p ≡ 8 * n + 8
      → (if ltb 8 (length p)
          then drop (length p - 8 - 8) (des.cbc key iv (take (length p - 8) p))
          else iv)
        ≡ chained des n key iv p
  unfolding chained
  last_lem zero key iv p size = rw size refl
  last_lem (suc n) key iv p size =
      let more : ltb 8 (length p) ≡ true = ground (arith, size) in
      let front : length p - 8 ≡ 8 * n + 8 = omega (arith, size) in
      let last : 8 * n + 8 - 8 ≡ 8 * n = omega arith in
      rw (more, front, last) (chained_lem n key iv p (omega (arith, size)))

  pub retail_mac_lem :
      (key input iv : Bytes) → mac_full_3des des key input iv ≡ retail_mac des key iv input
  unfolding mac_full_3des append_des_padding retail_mac
  retail_mac_lem key input iv =
      let zeros : 8 - length input % 8 - 1 ≡ 7 - length input % 8 = omega arith in
      let n = length input / 8 in
      let p = input ++ 0x80 ∷ replicate (7 - length input % 8) 0 in
      let size : length p ≡ 8 * n + 8 = omega (
        arith,
        length-append input (0x80 ∷ replicate (7 - length input % 8) 0),
        length-replicate (7 - length input % 8) zero,
      ) in
      let front : length p - 8 ≡ 8 * n = omega (arith, size) in
      rw
        (
          mac_full_3des,
          append_des_padding,
          retail_mac,
          zeros,
          last_lem n (take 8 key) iv p size,
          front,
        )
        refl
