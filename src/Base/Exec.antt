-- ===== src/Base/Exec.antt =====
-- Methods that change their receiver and may fail. What was written before an error stays written,
-- so the state comes back beside the error too.
use keycard_go.Base.Errors.{Error, Result, ok, err}

abbrev pub Exec {ℓ} : Type ℓ → Type ℓ → Type ℓ
Exec S A = S → Result A × S

module _ {ℓ} {S A : Type ℓ} where
  abbrev pub lift : Result A → Exec S A
  lift result state = (result, state)

  abbrev pub raise : Error → Exec S A
  raise e = lift (err e)

  abbrev pub pure : A → Exec S A
  pure a = lift (ok a)

module _ {ℓ} {S A B : Type ℓ} where
  -- The rest of a method, if what stands before it did not fail.
  abbrev pub continue : Result A → (A → Exec S B) → Exec S B
  continue (err e) rest state = (err e, state)
  continue (ok a) rest state = rest a state

  infixl 10 ◌>>=◌ ◌>>◌
  abbrev pub ◌>>=◌ : Exec S A → (A → Exec S B) → Exec S B
  ◌>>=◌ first rest state = let (result, state') = first state in continue result rest state'

  abbrev pub ◌>>◌ : Exec S A → Exec S B → Exec S B
  first >> second = first >>= λ ignored. second

-- A method on one of two objects.
module _ {ℓ} {S T A : Type ℓ} where
  abbrev pub on_first : Exec S A → Exec (S × T) A
  on_first method (s, t) = let (result, s') = method s in (result, (s', t))

  abbrev pub on_second : Exec T A → Exec (S × T) A
  on_second method (s, t) = let (result, t') = method t in (result, (s, t'))
