-- ===== src/Base/Results.antt =====
-- `std::io::Result` with the error kinds that the program tells apart, and `std::task::Poll`.
use mathlib.Core.Path.{◌≡◌}
use mathlib.Core.Option.{Option, none, some}

pub data ErrorKind : Type 0 where
  would_block interrupted other : ErrorKind

pub data IoResult {ℓ} (A : Type ℓ) : Type ℓ where
  ok : A → IoResult A
  err : ErrorKind → IoResult A

pub data Poll {ℓ} (A : Type ℓ) : Type ℓ where
  pending : Poll A
  ready : A → Poll A

pub some_injective : {A : Type 0} {a b : A} → some a ≡ some b → a ≡ b
some_injective h = cc

-- An option is not both.
pub none_apart : {A : Type 0} {o : Option A} {a : A} → o ≡ none → o ≡ some a → ⊥
none_apart e f = cc
