-- ===== src/Tlv/Reader/Fields.antt =====
-- Fields of a template, some of which may be missing, under a cursor that sees them.
use keycard_go.Base.{
  ℕ, ◌<◌, ◌≡◌, ◌≢◌, refl, ap, ◌∙◌, true, false, [], ◌∷◌, ◌++◌, append_assoc, arith, length,
  length-drop, Option, none, some, Result, ok, ltb, ge→ltb, ltb→ge, Bool-cases, inl, inr, sym,
}
use keycard_go.Base.Bytes.{Bytes}
use keycard_go.Tlv.Length.{encode_ber_length}
use keycard_go.Tlv.Tags.{tlv_int}
use keycard_go.Tlv.Writer.{integer_bytes}
use keycard_go.Tlv.Writer.Output.{primitive}
use keycard_go.Tlv.Integers.{integer_value-integer_bytes}
use keycard_go.Tlv.Reader.{
  BerTlvReader, next_tag_is, read_primitive, read_primitive_if_present, read_integer,
  enter_constructed, peek_unread,
}
use keycard_go.Tlv.Reader.Steps.{
  unread, moved, unread-moved, read_primitive_lem, read_tag_lem, read_length_lem, next_tag_is_lem,
}

abbrev pub field : ℕ → Option Bytes → Bytes
field tag none = []
field tag (some value) = primitive tag value

abbrev pub IsShort : Option Bytes → Type 0
IsShort none = Unit
IsShort (some value) = length value < 0x100000000

-- What follows is no field with the tag.
abbrev pub Avoids : ℕ → Bytes → Type 0
Avoids tag [] = Unit
Avoids tag (b ∷ rest) = b ≢ tag

pub Avoids-field :
    (tag other : ℕ) (value : Option Bytes) (rest : Bytes)
    → other ≢ tag
    → Avoids tag rest
    → Avoids tag (field other value ++ rest)
Avoids-field tag other none rest h avoids = avoids
Avoids-field tag other (some value) rest h avoids = h

-- A call returned `a` and left the cursor in front of `rest`.
abbrev pub Reads {ℓ} : {A : Type ℓ} → A → Bytes → Result A × BerTlvReader → Type ℓ
Reads a rest outcome = (r' : BerTlvReader) × (outcome ≡ (ok a, r')) × (unread r' ≡ rest)

-- PeekUnread is what the cursor sees, also past the end.
pub peek_unread_lem : (r : BerTlvReader) → peek_unread r ≡ unread r
unfolding peek_unread
peek_unread_lem r = elim (Bool-cases (ltb r.pos (length r.buffer))) [
  | inl more ↦ rw more refl
  | inr done ↦ rw done (
      sym (
        nil_of_length (unread r)
          (omega (arith, length-drop r.pos r.buffer, ltb→ge r.pos (length r.buffer) done))))
]
  where
    nil_of_length : (bytes : Bytes) → length bytes ≡ 0 → bytes ≡ []
    nil_of_length [] h = refl
    nil_of_length (b ∷ rest) h = absurd (omega (arith, h))

module _ (r : BerTlvReader) where
  pub next_is : (tag : ℕ) (tail : Bytes) → unread r ≡ tag ∷ tail → next_tag_is r tag ≡ true
  next_is tag tail h = next_tag_is_lem r tag tag tail h ∙ ground arith

  pub next_is_not :
      (tag : ℕ) (rest : Bytes) → unread r ≡ rest → Avoids tag rest → next_tag_is r tag ≡ false
  unfolding next_tag_is
  next_is_not tag [] h avoids =
      let done : ltb r.pos (length r.buffer) ≡ false =
        ge→ltb r.pos (length r.buffer) (omega (arith, length-drop r.pos r.buffer, ap length h)) in
      rw (next_tag_is, done) refl
  next_is_not tag (b ∷ rest) h avoids = next_tag_is_lem r b tag rest h ∙ ground arith

  pub value_lem :
      (tag : ℕ) (value rest : Bytes)
      → length value < 0x100000000
      → unread r ≡ primitive tag value ++ rest
      → Reads value rest (read_primitive tag r)
  value_lem tag value rest small h = (
    moved (length (primitive tag value)) r,
    read_primitive_lem r tag value rest small h,
    unread-moved r (primitive tag value) rest h,
  )

  pub field_lem :
      (tag : ℕ) (value : Option Bytes) (rest : Bytes)
      → IsShort value
      → Avoids tag rest
      → unread r ≡ field tag value ++ rest
      → Reads value rest (read_primitive_if_present tag r)
  unfolding read_primitive_if_present
  field_lem tag none rest small avoids h = (r, rw (next_is_not tag rest h avoids) refl, h)
  field_lem tag (some value) rest small avoids h =
      let (r', read, left) = value_lem tag value rest small h in
      (r', rw (next_is tag _ h, read) refl, left)

  pub integer_lem :
      (n : ℕ) (rest : Bytes)
      → n < 0x100000000
      → unread r ≡ primitive tlv_int (integer_bytes n) ++ rest
      → Reads n rest (read_integer r)
  unfolding read_integer
  integer_lem n rest small h =
      let (value, _, few) = integer_value-integer_bytes n small in
      let (r', read, left) = value_lem tlv_int (integer_bytes n) rest (omega arith) h in
      (r', rw (read, value) refl, left)

  -- Entering a template stops in front of its content.
  pub enter_lem :
      (tag : ℕ) (content rest : Bytes)
      → length content < 0x100000000
      → unread r ≡ primitive tag content ++ rest
      → Reads (length content) (content ++ rest) (enter_constructed tag r)
  unfolding enter_constructed
  enter_lem tag content rest small h =
      let code = encode_ber_length (length content) in
      let r1 = moved 1 r in
      let h1 =
        unread-moved r (tag ∷ []) _ (h ∙ ap (λ t. tag ∷ t) (append_assoc code content rest)) in
      (
        moved (length code) r1,
        rw (read_tag_lem r tag _ h)
            (ground (arith, read_length_lem r1 (length content) (content ++ rest) small h1)),
        unread-moved r1 code (content ++ rest) h1,
      )
