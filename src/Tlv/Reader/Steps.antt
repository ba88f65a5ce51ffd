-- ===== src/Tlv/Reader/Steps.antt =====
-- One call of each reading method, under a cursor that sees what the method looks for.
use keycard_go.Base.{
  ℕ, ◌+◌, ◌<◌, ◌≤◌, ◌≡◌, sym, ap, ◌∙◌, [], ◌∷◌, ◌++◌, append_assoc, arith, length, drop, drop-head,
  drop-in_range, drop-drop, drop-append, take-append, length-append, length-drop, ok, ◌==◌,
}
use keycard_go.Base.Bytes.{Bytes}
use keycard_go.Tlv.Length.{encode_ber_length}
use keycard_go.Tlv.Length.RoundTrip.{decode-encode}
use keycard_go.Tlv.Writer.Output.{primitive}
use keycard_go.Tlv.Reader.{
  BerTlvReader, read_tag, next_tag_is, read_length, read_value, read_primitive,
}

-- What is left to read.
abbrev pub unread : BerTlvReader → Bytes
unread r = drop r.pos r.buffer

abbrev pub moved : ℕ → BerTlvReader → BerTlvReader
moved n r = record r { pos = r.pos + n }

pub unread-moved :
    (r : BerTlvReader) (front rest : Bytes)
    → unread r ≡ front ++ rest
    → unread (moved (length front) r) ≡ rest
unread-moved r front rest h =
    sym (drop-drop (length front) r.pos r.buffer)
    ∙ ap (drop (length front)) h
    ∙ drop-append front rest

pub moved_in_range :
    (r : BerTlvReader) (front rest : Bytes)
    → r.pos ≤ length r.buffer
    → unread r ≡ front ++ rest
    → r.pos + length front ≤ length r.buffer
moved_in_range r front rest hp h =
    omega (arith, length-append front rest, length-drop r.pos r.buffer, ap (length {0}) h)

module _ (r : BerTlvReader) where
  pub read_tag_lem : (t : ℕ) (rest : Bytes) → unread r ≡ t ∷ rest → read_tag r ≡ (ok t, moved 1 r)
  unfolding read_tag
  read_tag_lem t rest h =
      ground (arith, drop-head r.buffer r.pos 0 h, drop-in_range r.buffer r.pos h)

  pub next_tag_is_lem : (t u : ℕ) (rest : Bytes) → unread r ≡ t ∷ rest → next_tag_is r u ≡ (t == u)
  unfolding next_tag_is
  next_tag_is_lem t u rest h =
      ground (arith, drop-head r.buffer r.pos 0 h, drop-in_range r.buffer r.pos h)

  pub read_length_lem :
      (n : ℕ) (rest : Bytes)
      → n < 0x100000000
      → unread r ≡ encode_ber_length n ++ rest
      → read_length r ≡ (ok n, moved (length (encode_ber_length n)) r)
  unfolding read_length
  read_length_lem n rest hn h = rw (decode-encode r.buffer r.pos n rest hn h)

  read_value_lem :
      (value rest : Bytes)
      → r.pos ≤ length r.buffer
      → unread r ≡ value ++ rest
      → read_value (length value) r ≡ (ok value, moved (length value) r)
  unfolding read_value
  read_value_lem value rest hp h =
      ground (arith, take-append value rest, moved_in_range r value rest hp h, h)

module _ (r : BerTlvReader) (tag : ℕ) (value rest : Bytes)
    (small : length value < 0x100000000) where
  pub read_primitive_lem :
      unread r ≡ primitive tag value ++ rest
      → read_primitive tag r ≡ (ok value, moved (length (primitive tag value)) r)
  unfolding read_primitive
  read_primitive_lem h =
      let assoc = append_assoc (encode_ber_length (length value)) value rest in
      let r1 = moved 1 r in
      let r2 = moved (length (encode_ber_length (length value))) r1 in
      let h1 = unread-moved r (tag ∷ []) _ (h ∙ ap (λ t. tag ∷ t) assoc) in
      let h2 = unread-moved r1 (encode_ber_length (length value)) (value ++ rest) h1 in
      let start = drop-in_range r.buffer r.pos h in
      let p2 =
        moved_in_range r1 (encode_ber_length (length value)) (value ++ rest) (omega arith) h1 in
      ground (
        arith,
        read_tag_lem r tag _ h,
        read_length_lem r1 (length value) (value ++ rest) small h1,
        read_value_lem r2 value rest p2 h2,
        length-append (encode_ber_length (length value)) value,
      )
