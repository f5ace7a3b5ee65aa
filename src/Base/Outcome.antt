-- ===== src/Base/Outcome.antt =====
-- `crate::error::Result`, with one more outcome: a Rust panic (an index out of bounds).
use Prim.Native.String.{String}
use mathlib.Core.Bool.{true, false}
use mathlib.Core.Path.{◌≡◌}

-- `crate::error::Error`; an I/O error is its text.
pub data Error : Type 0 where
  parse : String → Error
  encode : String → Error
  resolver : String → Error
  io : String → Error
  db : String → Error
  redis : String → Error
  config : String → Error
  tls : String → Error

pub data Result {ℓ} (A : Type ℓ) : Type ℓ where
  ok : A → Result A
  err : Error → Result A
  panic : Result A

-- A panic ends the chain as an error does.
infixl 5 ◌>>=◌
abbrev pub ◌>>=◌ {ℓ κ} : {A : Type ℓ} {B : Type κ} → Result A → (A → Result B) → Result B
panic >>= next = panic
err e >>= next = err e
ok a >>= next = next a

-- A step that gives a value or panics.
abbrev pub NeverFails : {A : Type 0} → Result A → Type 0
NeverFails (ok x) = Unit
NeverFails (err e) = true ≡ false
NeverFails panic = Unit
