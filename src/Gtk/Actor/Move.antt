-- ===== src/Gtk/Actor/Move.antt =====
-- Where `move_by` and the random steps of rust/gtk/src/module_common.rs lead.
use wasm_shared_buffers.Base.{
  ℕ, suc, ◌-◌, ◌%◌, ◌^◌, ◌<◌, ◌≡◌, refl, ◌⊎◌, inl, inr, false, ◌||◌, arith, ltb, if◌then◌else◌,
  Bool-cases,
}
use wasm_shared_buffers.Int.{ℤ, pos, negsuc, Profile, release, abs_i32, rem3}
use wasm_shared_buffers.Gtk.Outcome.{Yields, yields, Yields-bind, overflows-Yields}
use wasm_shared_buffers.Gtk.Actor.{
  GridType, rand, rand_rem3, rand_step, step, is_off, is_blocked, target, move_at_random, move_by,
}

-- An actor stays, or goes to a cell of the grid that is not blocked.
pub data Lands (grid : GridType) (x y : ℕ) : ℕ × ℕ → Type 0 where
  stays : Lands grid x y (x, y)
  moves :
      {tx ty : ℕ}
      → is_off grid tx ty ≡ false
      → is_blocked grid tx ty ≡ false
      → Lands grid x y (tx, ty)

-- A number from 0 to 2. After an overflow in a release build it may be another one.
abbrev pub IsThird : Profile → ℤ → Type 0
IsThird p i = ((n : ℕ) × (n < 3) × (i ≡ pos n)) ⊎ (p ≡ release)

abs_i32-Yields : (p : Profile) (i : ℤ) → Yields (λ a. IsThird p (rem3 a)) p (abs_i32 p i)
unfolding abs_i32 rem3
abs_i32-Yields p (pos n) = yields (inl (n % 3, omega arith, refl))
abs_i32-Yields p (negsuc n) = elim (Bool-cases (ltb n (2 ^ 31 - 1))) [
  | inl e ↦ rw e (yields (inl (suc n % 3, omega arith, refl)))
  | inr e ↦ rw e (overflows-Yields p (negsuc n) (λ is_release. inr is_release))
]

pub rand_rem3-Yields : (p : Profile) (v : ℕ) → Yields (λ a. IsThird p a.0) p (rand_rem3 p v)
unfolding rand_rem3
rand_rem3-Yields p v = Yields-bind (abs_i32-Yields p (rand v)) (λ a third. yields third)

pub rand_step-Yields : (p : Profile) (v : ℕ) → Yields (λ _. Unit {0}) p (rand_step p v)
unfolding rand_step
rand_step-Yields p v = Yields-bind (rand_rem3-Yields p v) (λ a _. yields tt)

chosen-Lands :
    (grid : GridType) (x y tx ty : ℕ)
    → Lands grid x y (if is_off grid tx ty || is_blocked grid tx ty then (x, y) else (tx, ty))
chosen-Lands grid x y tx ty = elim (Bool-cases (is_off grid tx ty)) [
  | inl e ↦ rw e (stays)
  | inr e ↦ elim (Bool-cases (is_blocked grid tx ty)) [
    | inl d ↦ rw (e, d) (stays)
    | inr d ↦ rw (e, d) (moves e d)
  ]
]

move_at_random-Lands :
    (p : Profile) (grid : GridType) (x y v : ℕ)
    → Yields (λ r. Lands grid x y r.0) p (move_at_random p grid x y v)
unfolding move_at_random
move_at_random-Lands p grid x y v = Yields-bind (rand_step-Yields p v) (λ a _.
    Yields-bind (rand_step-Yields p a.1)
      (λ b _. yields (chosen-Lands grid x y (target x a.0) (target y b.0))))

pub move_by-Lands :
    (p : Profile) (grid : GridType) (x y : ℕ) (mx my : ℤ) (v : ℕ)
    → Yields (λ r. Lands grid x y r.0) p (move_by p grid x y mx my v)
unfolding move_by
move_by-Lands p grid x y mx my v =
    elim (Bool-cases (is_off grid (target x (step mx)) (target y (step my)))) [
      | inl e ↦ rw e (yields stays)
      | inr e ↦ elim (Bool-cases (is_blocked grid (target x (step mx)) (target y (step my)))) [
        | inl d ↦ rw (e, d) (move_at_random-Lands p grid x y v)
        | inr d ↦ rw (e, d) (yields (moves e d))
      ]
    ]
