-- ===== src/Tlv/Reader/Bounds.antt =====
-- The cursor never leaves the buffer, whatever the bytes are and whichever calls fail.
use keycard_go.Base.{
  ℕ, suc, Option, ◌≤◌, ◌≡◌, refl, ◌∙◌, Bool, [], List, ◌∷◌, arith, length, Result, ok, err, Error,
  true, false, if◌then◌else◌, some, none,
}
use keycard_go.Base.Int.{ℤ, pos, negsuc}
use keycard_go.Base.Exec.{Exec, raise, lift, ◌>>=◌, continue}
use keycard_go.Tlv.Length.{decode_ber_length}
use keycard_go.Tlv.Length.Bounds.{decode_bounds}
use keycard_go.Tlv.Reader.{
  BerTlvReader, read_tag, read_length, advance_to, enter_constructed, read_value, read_primitive,
  read_primitive_if_present, skip, skip_primitive, read_boolean, read_integer, advance,
}

-- From `r`, the cursor moved forward at most, inside the same buffer.
pub record Forward (r r' : BerTlvReader) : Type 0 where
  pub same_buffer : r'.buffer ≡ r.buffer
  pub forward : r.pos ≤ r'.pos
  pub inside : r.pos ≤ length r.buffer → r'.pos ≤ length r.buffer

Forward-refl : (r : BerTlvReader) → Forward r r
Forward-refl r = record { same_buffer = refl; forward = omega arith; inside = λ h. h }

Forward-trans : {r s t : BerTlvReader} → Forward r s → Forward s t → Forward r t
Forward-trans {r} {s} {t} f g = record {
  same_buffer = g.same_buffer ∙ f.same_buffer;
  forward = omega (arith, f.forward, g.forward);
  inside = λ h. rw (← f.same_buffer) (g.inside (rw f.same_buffer (f.inside h)));
}

-- A method all of whose runs move the cursor forward.
record Advances {A : Type 0} (m : Exec BerTlvReader A) : Type 0 where
  at : (r : BerTlvReader) → Forward r (m r).1

module _ {A B : Type 0} where
  Advances-continue :
      (x : Result A) (f : A → Exec BerTlvReader B) (r : BerTlvReader)
      → ((a : A) → Advances (f a))
      → Forward r (continue x f r).1
  Advances-continue (ok a) f r h = (h a).at r
  Advances-continue (err e) f r h = Forward-refl r

  Advances-bind :
      (m : Exec BerTlvReader A) (f : A → Exec BerTlvReader B)
      → Advances m
      → ((a : A) → Advances (f a))
      → Advances (m >>= f)
  Advances-bind m f hm hf = record {
    at = λ r. Forward-trans (hm.at r) (Advances-continue (m r).0 f (m r).1 hf);
  }

read_tag-Advances : Advances read_tag
unfolding read_tag
read_tag-Advances = record { at = λ r. ground arith }

advance_to-Forward :
    (r : BerTlvReader) (x : Result (ℕ × ℕ))
    → decode_ber_length r.buffer r.pos ≡ x
    → Forward r (advance_to x r).1
unfolding advance_to
advance_to-Forward r (ok (n, next)) h = ground (arith, decode_bounds r.buffer r.pos n next h)
advance_to-Forward r (err e) h = Forward-refl r

read_length-Advances : Advances read_length
unfolding read_length
read_length-Advances = record {
  at = λ r. advance_to-Forward r (decode_ber_length r.buffer r.pos) refl;
}

read_value-Advances : (n : ℕ) → Advances (read_value n)
unfolding read_value
read_value-Advances n = record { at = λ r. ground arith }

skip-Advances : (n : ℕ) → Advances (skip n)
unfolding skip
skip-Advances n = record { at = λ r. ground arith }

raise-Advances : {A : Type 0} (e : Error) → Advances (raise {A = A} e)
raise-Advances e = record { at = λ r. Forward-refl r }

lift-Advances : {A : Type 0} (x : Result A) → Advances (lift {S = BerTlvReader} x)
lift-Advances x = record { at = λ r. Forward-refl r }

if-Advances :
    {A : Type 0} (b : Bool) (m n : Exec BerTlvReader A)
    → Advances m
    → Advances n
    → Advances (if b then m else n)
if-Advances true m n hm hn = hm
if-Advances false m n hm hn = hn

ruleset advance_rules = (
  Advances-bind, raise-Advances, lift-Advances, if-Advances, read_tag-Advances,
  read_length-Advances, read_value-Advances, skip-Advances,
)

-- The reader after a call that leaves one, and how its cursor moved.
abbrev IsMoved : BerTlvReader → Option BerTlvReader → Type 0
IsMoved r outcome = (r' : BerTlvReader) × (outcome ≡ some r') × Forward r r'

-- A call of any method of the reader that can move the cursor.
pub data Call : Type 0 where
  tag_call length_call skip_call boolean_call integer_call : Call
  enter_call primitive_call optional_call : ℕ → Call
  skip_count_call : ℕ → Call
  advance_call : ℤ → Call

-- Not an Advance by a negative count.
abbrev pub IsForward : Call → Type 0
IsForward (advance_call (negsuc n)) = suc n ≡ 0
IsForward c = Unit

-- The reader after the call, whether that succeeded or not.
pub call : Call → BerTlvReader → Option BerTlvReader
call tag_call r = some (read_tag r).1
call length_call r = some (read_length r).1
call skip_call r = some (skip_primitive r).1
call boolean_call r = some (read_boolean r).1
call integer_call r = some (read_integer r).1
call (enter_call tag) r = some (enter_constructed tag r).1
call (primitive_call tag) r = some (read_primitive tag r).1
call (optional_call tag) r = some (read_primitive_if_present tag r).1
call (skip_count_call n) r = some (skip n r).1
call (advance_call count) r = advance count r

pub calls : List Call → BerTlvReader → Option BerTlvReader
calls [] r = some r
calls (c ∷ cs) r = elim (call c r) [ none ↦ none | some r' ↦ calls cs r' ]
