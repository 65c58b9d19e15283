-- ===== src/Gtk/Runner/Moved.antt =====
-- The moves of a runner in `tick` of rust/gtk/src/modules/runner.rs.
use wasm_shared_buffers.Base.{
  ℕ, zero, suc, ◌≤◌, ◌<◌, ◌≡◌, refl, sym, ◌⊎◌, inl, inr, Bool, true, false, Option, none, some,
  arith,
}
use wasm_shared_buffers.Int.{ℤ, pos, negsuc, Profile, release}
use wasm_shared_buffers.Gtk.State.{State, walking, running, dead, is_dead}
use wasm_shared_buffers.Gtk.Outcome.{Yields, yields, Yields-bind}
use wasm_shared_buffers.Gtk.Actor.{Runner, Hunter, GridType}
use wasm_shared_buffers.Gtk.Actor.Move.{
  IsThird, Lands, stays, move_by-Lands, rand_step-Yields, rand_rem3-Yields,
}
use wasm_shared_buffers.Gtk.Hunter.Distance.{sq_gap}
use wasm_shared_buffers.Gtk.Runner.{walk, arm, flee, move, fled, wander, run_away}

-- What a round makes of a runner: a dead one rests, one that the hunter has reached dies, one
-- further than 10 away walks, and another one runs; these two stay or land on a free cell.
pub data Ticked (grid : GridType) (h : Hunter) (r : Runner) : Runner → Type 0 where
  rests : is_dead r.state ≡ true → Ticked grid h r r
  caught :
      is_dead r.state ≡ false → r.x ≡ h.x → r.y ≡ h.y → Ticked grid h r (record r { state = dead })
  walks :
      {x y : ℕ}
      → is_dead r.state ≡ false
      → 100 < sq_gap h r
      → Lands grid r.x r.y (x, y)
      → Ticked grid h r (record { x = x; y = y; state = walking })
  runs :
      {x y : ℕ}
      → is_dead r.state ≡ false
      → sq_gap h r ≤ 100
      → ¬ ((r.x ≡ h.x) × (r.y ≡ h.y))
      → Lands grid r.x r.y (x, y)
      → Ticked grid h r (record { x = x; y = y; state = running })

move-Lands :
    (p : Profile) (grid : GridType) (r : Runner) (mx my : ℤ) (v : ℕ)
    → Yields
        (λ o. Lands grid r.x r.y (o.0.x, o.0.y) × (o.0.state ≡ r.state))
        p
        (move p grid r mx my v)
unfolding move
move-Lands p grid r mx my v =
    Yields-bind (move_by-Lands p grid r.x r.y mx my v) (λ m lands. yields (lands, refl))

walk-Yields : (p : Profile) (v : ℕ) → Yields (λ _. Unit {0}) p (walk p v)
unfolding walk
walk-Yields p v =
    Yields-bind (rand_step-Yields p v)
      (λ a _. Yields-bind (rand_step-Yields p a.1) (λ b _. yields tt))

-- A `match` on `rand().abs() % 3` leaves `tick` in a release build only.
abbrev IsArm : Profile → Option (ℤ × ℤ) → Type 0
IsArm p m = ((d : ℤ × ℤ) × (m ≡ some d)) ⊎ (p ≡ release)

arm-Yields :
    (p : Profile) (m dx dy : ℤ) (v : ℕ)
    → IsThird p m
    → Yields (λ o. IsArm p o.0) p (arm p m dx dy v)
unfolding arm
arm-Yields p (pos zero) dx dy v t =
    Yields-bind (rand_step-Yields p v) (λ a _. yields (inl (_, refl)))
arm-Yields p (pos (suc zero)) dx dy v t =
    Yields-bind (rand_step-Yields p v) (λ a _. yields (inl (_, refl)))
arm-Yields p (pos (suc (suc zero))) dx dy v t = yields (inl (_, refl))
arm-Yields p (pos (suc (suc (suc n)))) dx dy v (inl (k, l, e)) = absurd (ground arith)
arm-Yields p (pos (suc (suc (suc n)))) dx dy v (inr e) = yields (inr e)
arm-Yields p (negsuc n) dx dy v (inl (k, l, e)) = absurd (cc e)
arm-Yields p (negsuc n) dx dy v (inr e) = yields (inr e)

flee-Yields : (p : Profile) (dx dy : ℤ) (v : ℕ) → Yields (λ o. IsArm p o.0) p (flee p dx dy v)
unfolding flee
flee-Yields p dx dy v = Yields-bind (rand_rem3-Yields p v) (λ a t. arm-Yields p a.0 dx dy a.1 t)

-- A runner in a state, on its old position or on a free cell, and whether the loop goes on.
pub record Moved (p : Profile) (grid : GridType) (x y : ℕ) (s : State) (o : (Runner × Bool) × ℕ)
    : Type 0 where
  pub lands : Lands grid x y (o.0.0.x, o.0.0.y)
  pub state : s ≡ o.0.0.state
  pub goes_on : (o.0.1 ≡ true) ⊎ (p ≡ release)

fled-Moved :
    (p : Profile) (grid : GridType) (r : Runner) (m : Option (ℤ × ℤ)) (v : ℕ)
    → IsArm p m
    → Yields (Moved p grid r.x r.y r.state) p (fled p grid r m v)
unfolding fled
fled-Moved p grid r none v (inl (d, e)) = absurd (cc e)
fled-Moved p grid r none v (inr e) =
    yields (record { lands = stays; state = refl; goes_on = inr e })
fled-Moved p grid r (some (mx, my)) v a =
    Yields-bind (move-Lands p grid r mx my v)
      (λ o (lands, e). yields (record { lands = lands; state = sym e; goes_on = inl refl }))

pub wander-Moved :
    (p : Profile) (grid : GridType) (r : Runner) (v : ℕ)
    → Yields (Moved p grid r.x r.y walking) p (wander p grid r v)
unfolding wander
wander-Moved p grid r v = Yields-bind (walk-Yields p v) (λ w _.
    Yields-bind (move-Lands p grid (record r { state = walking }) w.0.0 w.0.1 w.1)
      (λ o (lands, e). yields (record { lands = lands; state = sym e; goes_on = inl refl })))

pub run_away-Moved :
    (p : Profile) (grid : GridType) (r : Runner) (dx dy : ℤ) (v : ℕ)
    → Yields (Moved p grid r.x r.y running) p (run_away p grid r dx dy v)
unfolding run_away
run_away-Moved p grid r dx dy v =
    Yields-bind (flee-Yields p dx dy v)
      (λ m a. fled-Moved p grid (record r { state = running }) m.0 m.1 a)
