-- ===== src/Base/Outcome.antt =====
-- Runs of Rust code that may panic, or trap in WebAssembly.
use mathlib.Core.Path.{◌≡◌, refl}
use Prim.Native.Nat.{ℕ, zero, suc}
use mathlib.Core.List.{List, [], ◌∷◌}
use mathlib.Core.Bool.{Bool, true, false}

-- Why a run stopped: a failed `assert!`, a slice index out of range, a remainder by zero, a linear
-- memory access out of range, a failed `unwrap` or `expect`, an explicit `panic!`, and an arithmetic
-- overflow of a debug build.
pub data Panic : Type 0 where
  assertion index remainder trap unwrap explicit overflow : Panic

pub data Run {ℓ} (A : Type ℓ) : Type ℓ where
  ok : A → Run A
  panic : Panic → Run A

-- Sequencing: the first failure is the answer.
module _ {ℓ₁ ℓ₂} {A : Type ℓ₁} {B : Type ℓ₂} where
  infixl 5 ◌>>=◌
  abbrev pub ◌>>=◌ : Run A → (A → Run B) → Run B
  panic why >>= next = panic why
  ok x >>= next = next x

  -- A sequence that succeeds has run both of its parts.
  pub >>=-eq-ok :
      {y : B} (r : Run A) (next : A → Run B)
      → (r >>= next) ≡ ok y
      → (x : A) × (r ≡ ok x) × (next x ≡ ok y)
  >>=-eq-ok (panic why) next eq = absurd (cc eq)
  >>=-eq-ok (ok x) next eq = (x, refl, eq)

abbrev pub check : Bool → Panic → Run (Unit {0})
check true why = ok tt
check false why = panic why

abbrev pub assert : Bool → Run (Unit {0})
assert b = check b assertion

module _ {ℓ} {B : Type ℓ} where
  infixl 5 ◌>>◌
  abbrev pub ◌>>◌ : Run (Unit {0}) → Run B → Run B
  ok _ >> next = next
  panic why >> next = panic why

-- A slice at an index.
abbrev pub item {ℓ} : {A : Type ℓ} → List A → ℕ → Run A
item [] i = panic index
item (x ∷ xs) zero = ok x
item (x ∷ xs) (suc i) = item xs i
