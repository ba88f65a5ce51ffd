-- ===== src/DerivationPath/KeyPath.antt =====
-- derivationpath/keypath.go. strings.TrimSpace, which knows the white space of Unicode, is a
-- parameter.
pub mod Bounds
pub mod Agreement
use keycard_go.Base.{
  ℕ, zero, suc, ◌+◌, ◌*◌, ◌/◌, Bool, true, false, not, ◌||◌, List, [], ◌∷◌, ◌++◌, ltb, ◌==◌,
  if◌then◌else◌, length, get_or, take, drop, Option, none, some, bit_and, bit_or, Result, ok, err,
  path, bad_number, index_too_large, empty_path, too_many_components, empty_component,
  signed_component,
}
use keycard_go.Base.Bytes.{Bytes, uint8, bytes_equal}
use keycard_go.Base.Decimal.{parse_uint32, format_uint}

abbrev pub source_master : ℕ
source_master = 0x00

abbrev pub source_parent : ℕ
source_parent = 0x40

abbrev pub source_current : ℕ
source_current = 0x80

-- The field Data is `raw`.
pub record KeyPath : Type 0 where
  pub source : ℕ
  pub raw : Bytes

prepend : ℕ → List Bytes → List Bytes
prepend c [] = (c ∷ []) ∷ []
prepend c (part ∷ parts) = (c ∷ part) ∷ parts

-- strings.Split(path, "/"), a first part and the others.
split : Bytes → List Bytes
unfolding prepend
split [] = [] ∷ []
split (c ∷ rest) = let parts = split rest in if c == 0x2f then [] ∷ parts else prepend c parts

-- Whether the text ends in an apostrophe, and the text without that.
strip_mark : Bytes → Bool × Bytes
strip_mark [] = (false, [])
strip_mark (c ∷ []) = if c == 0x27 then (true, []) else (false, c ∷ [])
strip_mark (c ∷ d ∷ rest) = let (marked, front) = strip_mark (d ∷ rest) in (marked, c ∷ front)

component_number : Bool → Option ℕ → Result ℕ
component_number hardened none = err (path bad_number)
component_number hardened (some num) =
    if ltb 0x7fffffff num
    then err (path (index_too_large num))
    else ok (if hardened then bit_or num 0x80000000 else num)

unsigned_component : Bool → Bytes → Result ℕ
unfolding component_number
unsigned_component hardened [] = err (path empty_component)
unsigned_component hardened (c ∷ rest) =
    if c == 0x2b || c == 0x2d
    then err (path signed_component)
    else component_number hardened (parse_uint32 (c ∷ rest))

unfoldable pub parse_path_component : Bytes → Result ℕ
unfolding strip_mark unsigned_component
parse_path_component s = let (hardened, rest) = strip_mark s in unsigned_component hardened rest

-- The four bytes that the loop appends for a number.
abbrev pub number_bytes : ℕ → Bytes
number_bytes num =
    uint8 (num / 0x1000000) ∷ uint8 (num / 0x10000) ∷ uint8 (num / 0x100) ∷ uint8 num ∷ []

more_bytes : ℕ → Result Bytes → Result Bytes
more_bytes num (ok rest) = ok (number_bytes num ++ rest)
more_bytes num (err e) = err e

-- The loop ends at the first component that is an error.
component_bytes : Result ℕ → Result Bytes → Result Bytes
unfolding more_bytes
component_bytes (ok num) rest = more_bytes num rest
component_bytes (err e) rest = err e

unfoldable pub path_bytes : List Bytes → Result Bytes
unfolding component_bytes
path_bytes [] = ok []
path_bytes (c ∷ components) = component_bytes (parse_path_component c) (path_bytes components)

with_source : ℕ → Result Bytes → Result KeyPath
with_source source (ok raw) = ok (record { source = source; raw = raw })
with_source source (err e) = err e

from_components : ℕ → List Bytes → Result KeyPath
unfolding with_source
from_components source components =
    if ltb 10 (length components)
    then err (path too_many_components)
    else with_source source (path_bytes components)

module _ (trim_space : Bytes → Bytes) where
  -- `switch first`, of the parts of the text.
  from_parts : List Bytes → Result KeyPath
  unfolding from_components
  from_parts [] = err (path empty_path)
  from_parts (part ∷ components) =
      let first = trim_space part in
      if bytes_equal first []
      then err (path empty_path)
      else if bytes_equal first (0x6d ∷ [])
      then from_components source_master components
      else if bytes_equal first (0x2e ∷ 0x2e ∷ [])
      then from_components source_parent components
      else if bytes_equal first (0x2e ∷ [])
      then from_components source_current components
      else from_components source_current (first ∷ components)

  unfoldable pub key_path_from_string : Bytes → Result KeyPath
  unfolding split from_parts
  key_path_from_string text = from_parts (split text)

abbrev pub key_path_from_raw : Bytes → ℕ → KeyPath
key_path_from_raw raw source = record { source = source; raw = raw }

abbrev pub key_path_from_raw_master : Bytes → KeyPath
key_path_from_raw_master raw = key_path_from_raw raw source_master

source_text : ℕ → Bytes
source_text source =
    if source == source_master
    then 0x6d ∷ []
    else if source == source_parent
    then 0x2e ∷ 0x2e ∷ []
    else 0x2e ∷ []

-- `for i := 0; i+4 <= len(kp.data); i += 4`, by the chunks left.
chunk_texts : ℕ → Bytes → Bytes
chunk_texts zero rest = []
chunk_texts (suc chunks) rest =
    let hardened = not (bit_and (get_or rest 0 0) 0x80 == 0) in
    let num =
      bit_or
        (bit_or (bit_or (bit_and (get_or rest 0 0) 0x7f * 0x1000000) (get_or rest 1 0 * 0x10000))
          (get_or rest 2 0 * 0x100))
        (get_or rest 3 0) in
    0x2f
    ∷ (format_uint num
        ++ ((if hardened then 0x27 ∷ [] else []) ++ chunk_texts chunks (drop 4 rest)))

unfoldable pub key_path_string : KeyPath → Bytes
unfolding source_text chunk_texts
key_path_string kp = source_text kp.source ++ chunk_texts (length kp.raw / 4) kp.raw
