-- ===== src/Gtk/Outcome.antt =====
-- How a call of a module ends: with a value that satisfies a predicate, or, in a debug build only,
-- in the panic of an arithmetic overflow.
use wasm_shared_buffers.Base.{◌≡◌, refl, Run, ok, panic, overflow, ◌>>=◌}
use wasm_shared_buffers.Int.{Profile, debug, release, overflows}

pub data Yields {ℓ κ} {A : Type ℓ} (P : A → Type κ) : Profile → Run A → Type (ℓ ⊔ κ) where
  yields : {p : Profile} {a : A} → P a → Yields P p (ok a)
  overflowed : Yields P debug (panic overflow)

module _ {ℓ κ} {A : Type ℓ} {P : A → Type κ} where
  pub Yields-bind {ℓ' κ'} :
      {B : Type ℓ'} {Q : B → Type κ'} {p : Profile} {r : Run A} {f : A → Run B}
      → Yields P p r
      → ((a : A) → P a → Yields Q p (f a))
      → Yields Q p (r >>= f)
  Yields-bind (yields h) k = k _ h
  Yields-bind overflowed k = overflowed

  pub Yields-map {κ'} :
      {Q : A → Type κ'} {p : Profile} {r : Run A}
      → Yields P p r
      → ((a : A) → P a → Q a)
      → Yields Q p r
  Yields-map (yields h) k = yields (k _ h)
  Yields-map overflowed k = overflowed

  pub Yields-ok :
      {p : Profile} {r : Run A} → Yields P p r → p ≡ release → (a : A) × (r ≡ ok a) × P a
  Yields-ok (yields h) e = (_, refl, h)
  Yields-ok overflowed e = absurd (cc e)

pub overflows-Yields :
    {A : Type 0} {P : A → Type 0} (p : Profile) (a : A)
    → (p ≡ release → P a)
    → Yields P p (overflows p a)
overflows-Yields debug a h = overflowed
overflows-Yields release a h = yields (h refl)
