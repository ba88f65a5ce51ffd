-- ===== src/DerivationPath/KeyPath/Bounds.antt =====
-- What KeyPathFromString returns.
use keycard_go.Base.{
  ℕ, suc, ◌*◌, ◌≤◌, ◌≡◌, refl, inl, inr, ◌⊎◌, Bool, Bool-cases, true, false, List, [], ◌∷◌, arith,
  ltb, ltb→ge, if◌then◌else◌, length, Result, ok, err,
}
use keycard_go.Base.Bytes.{Bytes, AllBytes, bytes_equal}
use keycard_go.DerivationPath.KeyPath.{
  KeyPath, path_bytes, parse_path_component, component_bytes, more_bytes, from_components,
  with_source, from_parts, key_path_from_string, source_master, source_parent, source_current,
  split,
}

-- Whole numbers of four bytes, `count` of them.
abbrev IsNumbers : ℕ → Result Bytes → Type 0
IsNumbers count (ok raw) = (length raw ≡ 4 * count) × AllBytes raw
IsNumbers count (err e) = Unit

more_bytes_lem :
    (count num : ℕ) (r : Result Bytes)
    → IsNumbers count r
    → IsNumbers (suc count) (more_bytes num r)
unfolding more_bytes
more_bytes_lem count num (ok raw) (len, h) =
    (omega arith, (omega arith, (omega arith, (omega arith, (omega arith, h)))))
more_bytes_lem count num (err e) h = tt

component_bytes_lem :
    (count : ℕ) (num : Result ℕ) (r : Result Bytes)
    → IsNumbers count r
    → IsNumbers (suc count) (component_bytes num r)
unfolding component_bytes
component_bytes_lem count (ok num) r h = more_bytes_lem count num r h
component_bytes_lem count (err e) r h = tt

path_bytes_lem : (components : List Bytes) → IsNumbers (length components) (path_bytes components)
unfolding path_bytes
path_bytes_lem [] = (refl, tt)
path_bytes_lem (c ∷ components) =
    component_bytes_lem (length components) (parse_path_component c) (path_bytes components)
      (path_bytes_lem components)

-- A path that the card can be sent: one of the three sources, and at most ten numbers of four bytes.
abbrev pub IsKeyPath : Result KeyPath → Type 0
IsKeyPath (ok kp) =
    ((kp.source ≡ source_master) ⊎ ((kp.source ≡ source_parent) ⊎ (kp.source ≡ source_current)))
    × ((count : ℕ) × (count ≤ 10) × (length kp.raw ≡ 4 * count))
    × AllBytes kp.raw
IsKeyPath (err e) = Unit

abbrev IsSource : ℕ → Type 0
IsSource s = (s ≡ source_master) ⊎ ((s ≡ source_parent) ⊎ (s ≡ source_current))

with_source_lem :
    (source count : ℕ) (r : Result Bytes)
    → IsSource source
    → count ≤ 10
    → IsNumbers count r
    → IsKeyPath (with_source source r)
unfolding with_source
with_source_lem source count (ok raw) s le (len, h) = (s, (count, le, len), h)
with_source_lem source count (err e) s le h = tt

from_components_lem :
    (source : ℕ) (components : List Bytes)
    → IsSource source
    → IsKeyPath (from_components source components)
unfolding from_components
from_components_lem source components s = elim (Bool-cases (ltb 10 (length components))) [
  | inl many ↦ rw many tt
  | inr few ↦ rw few (
      with_source_lem source (length components) (path_bytes components) s
        (ltb→ge 10 (length components) few) (path_bytes_lem components))
]

IsKeyPath-if :
    (b : Bool) (x y : Result KeyPath) → IsKeyPath x → IsKeyPath y → IsKeyPath (if b then x else y)
IsKeyPath-if true x y hx hy = hx
IsKeyPath-if false x y hx hy = hy

module _ (trim_space : Bytes → Bytes) where
  from_parts_lem : (parts : List Bytes) → IsKeyPath (from_parts trim_space parts)
  unfolding from_parts
  from_parts_lem [] = tt
  from_parts_lem (part ∷ components) =
      let first = trim_space part in
      IsKeyPath-if (bytes_equal first []) _ _ tt (
        IsKeyPath-if (bytes_equal first (0x6d ∷ [])) _ _
          (from_components_lem source_master components (inl refl))
          (IsKeyPath-if (bytes_equal first (0x2e ∷ 0x2e ∷ [])) _ _
            (from_components_lem source_parent components (inr (inl refl)))
            (IsKeyPath-if (bytes_equal first (0x2e ∷ [])) _ _
              (from_components_lem source_current components (inr (inr refl)))
              (from_components_lem source_current (first ∷ components) (inr (inr refl))))))

  -- Whatever the text, a path that KeyPathFromString accepts has one of the three sources and at
  -- most ten numbers, of four bytes each.
  pub key_path_from_string-IsKeyPath :
      (text : Bytes) → IsKeyPath (key_path_from_string trim_space text)
  unfolding key_path_from_string
  key_path_from_string-IsKeyPath text = from_parts_lem (split text)
