-- ===== src/Gtk/Runner/Tick.antt =====
-- `tick` of rust/gtk/src/modules/runner.rs.
use wasm_shared_buffers.Base.{
  ℕ, ◌+◌, ◌≤◌, ◌<◌, ◌≡◌, refl, ◌⊎◌, inl, inr, Bool, true, false, ◌&&◌, List, [], ◌∷◌, arith, ltb,
  ltb→lt, Bool-cases, All, Run,
}
use wasm_shared_buffers.Int.{ℤ, pos, sub_ℕ, ltb_ℤ, as_usize, Profile, release}
use mathlib.Core.Path.{subst}
use wasm_shared_buffers.Gtk.State.{State, walking, running, is_dead}
use wasm_shared_buffers.Gtk.Outcome.{Yields, yields, Yields-bind, Yields-map}
use wasm_shared_buffers.Gtk.Actor.{Context, Runner, Hunter, GridType, rand_usize}
use wasm_shared_buffers.Gtk.Actor.Move.{Lands}
use wasm_shared_buffers.Gtk.Actor.Within.{IsGrid, Lands-IsInGrid}
use wasm_shared_buffers.Gtk.Hunter
use wasm_shared_buffers.Gtk.Hunter.Tick.{IsValid}
use wasm_shared_buffers.Gtk.Hunter.Distance.{
  IsInGrid, RunnerIsInGrid, sq_gap, delta_lem, dist_of-sub_ℕ,
}
use wasm_shared_buffers.Gtk.Runner.{
  init, place, escape, is_zero, react, tick_runner, go_on, tick_runners, tick,
}
use wasm_shared_buffers.Gtk.Runner.Moved.{
  Ticked, rests, caught, walks, runs, Moved, wander-Moved, run_away-Moved,
}

-- One round of the loop.
pub record Round (p : Profile) (grid : GridType) (h : Hunter) (r : Runner) (o : (Runner × Bool) × ℕ)
    : Type 0 where
  pub ticked : Ticked grid h r o.0.0
  pub goes_on : (o.0.1 ≡ true) ⊎ (p ≡ release)

-- A moved runner, from the predicate on the runner in its new state.
Moved-Round :
    (p : Profile) (grid : GridType) (h : Hunter) (r : Runner) (s : State) (o : (Runner × Bool) × ℕ)
    → (Lands grid r.x r.y (o.0.0.x, o.0.0.y)
        → Ticked grid h r (record { x = o.0.0.x; y = o.0.0.y; state = s }))
    → Moved p grid r.x r.y s o
    → Round p grid h r o
Moved-Round p grid h r s o k m = record {
  ticked =
      subst (λ t. Ticked grid h r (record { x = o.0.0.x; y = o.0.0.y; state = t })) m.state
        (k m.lands);
  goes_on = m.goes_on;
}

is_zero-eq : (a b : ℕ) → is_zero (sub_ℕ a b) ≡ true → a ≡ b
unfolding is_zero
is_zero-eq a b e = ground arith

eq-is_zero : (a b : ℕ) → a ≡ b → is_zero (sub_ℕ a b) ≡ true
unfolding is_zero
eq-is_zero a b e = ground arith

and-true : (a b : Bool) → (a && b) ≡ true → (a ≡ true) × (b ≡ true)
and-true true b e = (refl, e)
and-true false b e = absurd (cc e)

both_zero : {a b : Bool} → a ≡ true → b ≡ true → (a && b) ≡ false → ⊥
both_zero {a = true} {b = true} h k e = cc e
both_zero {a = true} {b = false} h k e = cc k
both_zero {a = false} h k e = cc h

ltb-false : (a b : ℕ) → ltb a b ≡ false → b ≤ a
ltb-false a b e = ground arith

module _ (p : Profile) (grid : GridType) (h : Hunter) (r : Runner) (v : ℕ)
    (alive : is_dead r.state ≡ false) where
  escape-Round :
      (dx dy : ℤ)
      → ¬ ((r.x ≡ h.x) × (r.y ≡ h.y))
      → Yields (Round p grid h r) p (escape p grid r dx dy (pos (sq_gap h r)) v)
  unfolding escape
  escape-Round dx dy apart = elim (Bool-cases (ltb_ℤ (pos 100) (pos (sq_gap h r)))) [
    | inl far ↦ rw far (
        Yields-map (wander-Moved p grid r v)
          (λ o. Moved-Round p grid h r walking o (walks alive (far_gap far))))
    | inr near ↦ rw near (
        Yields-map (run_away-Moved p grid r dx dy v)
          (λ o. Moved-Round p grid h r running o (runs alive (near_gap near) apart)))
  ]
    where
      far_gap : ltb_ℤ (pos 100) (pos (sq_gap h r)) ≡ true → 100 < sq_gap h r
      far_gap e = let k = ltb→lt (100 + 0) (0 + sq_gap h r) e in omega arith

      near_gap : ltb_ℤ (pos 100) (pos (sq_gap h r)) ≡ false → sq_gap h r ≤ 100
      near_gap e = let k = ltb-false (100 + 0) (0 + sq_gap h r) e in omega arith

  react-Round :
      IsInGrid h.x h.y
      → RunnerIsInGrid r
      → Yields (Round p grid h r) p (react p grid r (sub_ℕ r.x h.x) (sub_ℕ r.y h.y) v)
  unfolding react
  react-Round a b = elim (Bool-cases (is_zero (sub_ℕ r.x h.x) && is_zero (sub_ℕ r.y h.y))) [
    | inl e ↦
        let (z, w) = and-true (is_zero (sub_ℕ r.x h.x)) (is_zero (sub_ℕ r.y h.y)) e in
        rw e (
          yields (record {
            ticked = caught alive (is_zero-eq r.x h.x z) (is_zero-eq r.y h.y w);
            goes_on = inl refl;
          }))
    | inr e ↦
        rw (e, dist_of-sub_ℕ p h r a b)
          (escape-Round (sub_ℕ r.x h.x) (sub_ℕ r.y h.y)
            (λ (x, y). absurd (both_zero (eq-is_zero r.x h.x x) (eq-is_zero r.y h.y y) e)))
  ]

tick_runner-Round :
    (p : Profile) (grid : GridType) (h : Hunter) (r : Runner) (v : ℕ)
    → IsInGrid h.x h.y
    → RunnerIsInGrid r
    → Yields (Round p grid h r) p (tick_runner p grid h r v)
unfolding tick_runner
tick_runner-Round p grid h r v a b = elim (Bool-cases (is_dead r.state)) [
  | inl e ↦ rw e (yields (record { ticked = rests e; goes_on = inl refl }))
  | inr e ↦
      rw
        (
          e,
          delta_lem p r.x h.x b.across a.across,
          delta_lem p r.y h.y (omega (arith, b.down)) (omega (arith, a.down)),
        )
        (react-Round p grid h r v e a b)
]

-- What the loop makes of the runners. Only a release build can leave it before the last one, and
-- then the later runners are unchanged.
pub data AllTicked (p : Profile) (grid : GridType) (h : Hunter)
    : List Runner → List Runner → Type 0 where
  done : AllTicked p grid h [] []
  ticked :
      {r r' : Runner} {rs rs' : List Runner}
      → Ticked grid h r r'
      → AllTicked p grid h rs rs'
      → AllTicked p grid h (r ∷ rs) (r' ∷ rs')
  left :
      {r r' : Runner} {rs : List Runner}
      → p ≡ release
      → Ticked grid h r r'
      → AllTicked p grid h (r ∷ rs) (r' ∷ rs)

go_on-AllTicked :
    (p : Profile) (grid : GridType) (h : Hunter) (r : Runner) (rs : List Runner)
    (o : (Runner × Bool) × ℕ) (rest : Run (List Runner × ℕ))
    → Round p grid h r o
    → Yields (λ q. AllTicked p grid h rs q.0) p rest
    → Yields (λ q. AllTicked p grid h (r ∷ rs) q.0) p (go_on o.0.1 o.0.0 rs o.1 rest)
unfolding go_on
go_on-AllTicked p grid h r rs ((r', true), v) rest m y =
    Yields-bind y (λ q a. yields (ticked m.ticked a))
go_on-AllTicked p grid h r rs ((r', false), v) rest m y =
    yields (elim m.goes_on [ inl e ↦ absurd (cc e) | inr e ↦ left e m.ticked ])

tick_runners-AllTicked :
    (p : Profile) (grid : GridType) (h : Hunter) (rs : List Runner) (v : ℕ)
    → IsInGrid h.x h.y
    → All RunnerIsInGrid rs
    → Yields (λ o. AllTicked p grid h rs o.0) p (tick_runners p grid h rs v)
unfolding tick_runners
tick_runners-AllTicked p grid h [] v a i = yields done
tick_runners-AllTicked p grid h (r ∷ rs) v a (b, i) =
    Yields-bind (tick_runner-Round p grid h r v a b) (λ o m.
      go_on-AllTicked p grid h r rs o (tick_runners p grid h rs o.1) m
        (tick_runners-AllTicked p grid h rs o.1 a i))

-- `tick` of the runners keeps the grid and the hunter, and every runner has its round.
pub record Runs (p : Profile) (ctx ctx' : Context) : Type 0 where
  pub ticked : AllTicked p ctx.grid ctx.hunter ctx.runners ctx'.runners
  pub grid : ctx'.grid ≡ ctx.grid
  pub hunter : ctx'.hunter ≡ ctx.hunter

-- On a valid context `tick` gives every runner its round: a dead one rests, one that the hunter has
-- reached dies, one further than 10 away walks, another one runs, and they land on free cells or
-- stay; the grid and the hunter are kept. It overflows in a debug build only, and leaves out later
-- runners in a release build only.
pub tick-Runs :
    (p : Profile) (ctx : Context) (v : ℕ)
    → IsValid ctx
    → Yields (λ o. Runs p ctx o.0) p (tick p ctx v)
unfolding tick
tick-Runs p ctx v i =
    Yields-bind (tick_runners-AllTicked p ctx.grid ctx.hunter ctx.runners v i.hunter i.runners)
      (λ o a. yields (record { ticked = a; grid = refl; hunter = refl }))

Ticked-IsInGrid :
    {grid : GridType} {h : Hunter} {r r' : Runner}
    → IsGrid grid
    → RunnerIsInGrid r
    → Ticked grid h r r'
    → RunnerIsInGrid r'
Ticked-IsInGrid g i (rests e) = i
Ticked-IsInGrid g i (caught e x y) = record { across = i.across; down = i.down }
Ticked-IsInGrid g i (walks e d lands) =
    let k = Lands-IsInGrid g i lands in record { across = k.across; down = k.down }
Ticked-IsInGrid g i (runs e d n lands) =
    let k = Lands-IsInGrid g i lands in record { across = k.across; down = k.down }

pub AllTicked-IsInGrid :
    {p : Profile} {grid : GridType} {h : Hunter} {rs rs' : List Runner}
    → IsGrid grid
    → AllTicked p grid h rs rs'
    → All RunnerIsInGrid rs
    → All RunnerIsInGrid rs'
AllTicked-IsInGrid g done i = tt
AllTicked-IsInGrid g (ticked t a) (b, i) = (Ticked-IsInGrid g b t, AllTicked-IsInGrid g a i)
AllTicked-IsInGrid g (left e t) (b, i) = (Ticked-IsInGrid g b t, i)

-- `tick` keeps every actor in the grid.
pub tick-IsValid :
    (p : Profile) (ctx : Context) (v : ℕ) → IsValid ctx → Yields (λ o. IsValid o.0) p (tick p ctx v)
unfolding tick
tick-IsValid p ctx v i =
    Yields-bind (tick_runners-AllTicked p ctx.grid ctx.hunter ctx.runners v i.hunter i.runners)
      (λ o a. yields (record {
        grid = i.grid;
        hunter = i.hunter;
        runners = AllTicked-IsInGrid i.grid a i.runners;
      }))

place-RunnerIsInGrid : (rs : List Runner) (v : ℕ) → All RunnerIsInGrid (place rs v).0
unfolding place
place-RunnerIsInGrid [] v = tt
place-RunnerIsInGrid (r ∷ rs) v = (
  record { across = omega arith; down = omega arith },
  place-RunnerIsInGrid rs (rand_usize (rand_usize v)),
)

-- After both modules' `init`, on a grid of the right shape, the context is valid, whatever the
-- seeds and the memory held before.
pub init-IsValid :
    (ctx : Context) (hunter_seed runner_seed : ℤ)
    → IsGrid ctx.grid
    → IsValid (init (Hunter.init ctx hunter_seed).0 runner_seed).0
unfolding init Hunter.init
init-IsValid ctx hunter_seed runner_seed g = record {
  grid = g;
  hunter = record { across = omega arith; down = omega arith };
  runners = place-RunnerIsInGrid ctx.runners (as_usize runner_seed);
}
