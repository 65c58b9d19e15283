-- ===== src/Gtk/Context/Shown.antt =====
-- What the host reads of the actors after the modules have ticked.
use wasm_shared_buffers.Base.{
  ℕ, zero, suc, ◌<◌, ◌≡◌, refl, ap, ◌∙◌, List, [], ◌∷◌, arith, length, drop, All, ok, ◌>>=◌,
}
use wasm_shared_buffers.Int.{pos, as_i32, Profile, as_i32-low}
use mathlib.Core.Path.{subst}
use wasm_shared_buffers.Gtk.State.{State}
use wasm_shared_buffers.Gtk.Outcome.{Yields, Yields-map}
use wasm_shared_buffers.Gtk.Actor.{GridType, Context, Runner, Hunter, n_runners}
use wasm_shared_buffers.Gtk.Actors.{Position, hunter_position, runner, layout, look, layout-look}
use wasm_shared_buffers.Gtk.Host.Arena.{IsArena}
use wasm_shared_buffers.Gtk.Context.{new_unowned, new_unowned-layout}
use wasm_shared_buffers.Gtk.Host.Pen.{
  IsInside, RunnerIsInside, ArePenned, ArePenned-IsValid, hunted, ran,
}
use wasm_shared_buffers.Gtk.Hunter.Tick.{tick-Hunts}
use wasm_shared_buffers.Gtk.Runner.Tick.{AllTicked, done, ticked, left, tick-Runs}
use wasm_shared_buffers.Gtk.View.{grid_view}
use wasm_shared_buffers.Gtk.Hunter
use wasm_shared_buffers.Gtk.Runner

-- A position inside the wall.
abbrev pub IsShownInside : Position → Type 0
IsShownInside q = (x : ℕ) × (y : ℕ) × (q ≡ record { x = pos x; y = pos y }) × IsInside x y

-- The host reads the hunter and each of the runners inside the wall.
pub record IsShown (data_ : List ℕ) (n : ℕ) : Type 0 where
  pub hunter : (q : Position) × (hunter_position data_ ≡ ok q) × IsShownInside q
  pub runners :
      (i : ℕ)
      → i < n
      → (q : Position) × (s : State) × (runner data_ i ≡ ok (q, s)) × IsShownInside q

inside-IsShownInside :
    (x y : ℕ) → IsInside x y → IsShownInside (record { x = as_i32 x; y = as_i32 y })
inside-IsShownInside x y i = (
  x,
  y,
  rw (as_i32-low x (omega (arith, i.across.1)), as_i32-low y (omega (arith, i.down.1))) refl,
  i,
)

looked :
    (rs : List Runner) (i : ℕ)
    → i < length rs
    → All (λ r. IsInside r.x r.y) rs
    → (q : Position) × (s : State) × (look rs i ≡ ok (q, s)) × IsShownInside q
looked [] i h a = absurd (omega arith)
looked (r ∷ rs) zero h (k, a) =
    (record { x = as_i32 r.x; y = as_i32 r.y }, r.state, refl, inside-IsShownInside r.x r.y k)
looked (r ∷ rs) (suc i) h (k, a) = looked rs i (omega arith) a

-- Actors inside the wall, in the documented layout, are read by the host where they are.
pub ArePenned-IsShown :
    (d : List ℕ) (ctx : Context) (sig : ℕ)
    → ArePenned d ctx
    → IsShown (layout sig ctx.hunter ctx.runners) (length ctx.runners)
ArePenned-IsShown d ctx sig a = record {
  hunter = (
    record { x = as_i32 ctx.hunter.x; y = as_i32 ctx.hunter.y },
    (layout-look sig ctx.hunter ctx.runners 0).0,
    inside-IsShownInside ctx.hunter.x ctx.hunter.y a.hunter,
  );
  runners = λ i h.
      let (q, s, e, k) = looked ctx.runners i h a.runners in
      (q, s, (layout-look sig ctx.hunter ctx.runners i).1 ∙ e, k);
}

pub AllTicked-length :
    {p : Profile} {grid : GridType} {h : Hunter} {rs rs' : List Runner}
    → AllTicked p grid h rs rs'
    → length rs' ≡ length rs
AllTicked-length done = refl
AllTicked-length (ticked t a) = ap suc (AllTicked-length a)
AllTicked-length (left e t) = refl

pub IsShown-layout :
    (d : List ℕ) (ctx : Context) (sig n : ℕ)
    → ArePenned d ctx
    → length ctx.runners ≡ n
    → IsShown (layout sig ctx.hunter ctx.runners) n
IsShown-layout d ctx sig n a e =
    subst (IsShown (layout sig ctx.hunter ctx.runners)) e (ArePenned-IsShown d ctx sig a)

-- The grid of the host has its wall, and the read-write buffer holds a hunter and 15 runners inside
-- it in the documented layout. Then the context that either module makes of the buffers lets its
-- `tick` run, and from what that leaves, with any signals, the host reads the hunter and all
-- runners inside the wall and with a state; only in a debug build can `tick` overflow instead.
pub tick-IsShown :
    (p : Profile) (d : List ℕ) (h : Hunter) (rs : List Runner) (sig sig' v : ℕ)
    → IsArena d
    → IsInside h.x h.y
    → All RunnerIsInside rs
    → length rs ≡ n_runners
    → Yields
        (λ o. IsShown (layout sig' o.0.hunter o.0.runners) n_runners)
        p
        (new_unowned d (drop 1 (layout sig h rs)) >>= (λ ctx. Hunter.tick p ctx v))
      × Yields
          (λ o. IsShown (layout sig' o.0.hunter o.0.runners) n_runners)
          p
          (new_unowned d (drop 1 (layout sig h rs)) >>= (λ ctx. Runner.tick p ctx v))
tick-IsShown p d h rs sig sig' v i ih irs n =
    let ctx : Context = record { grid = grid_view d; hunter = h; runners = rs } in
    let a : ArePenned d ctx = record { grid = refl; hunter = ih; runners = irs } in
    let valid = ArePenned-IsValid d ctx i a in
    rw ((new_unowned-layout ctx d sig h rs n).0) (
      Yields-map (tick-Hunts p ctx v valid) (λ o k.
          IsShown-layout d o.0 sig' n_runners (hunted d ctx o.0 i a k) (ap length k.runners ∙ n)),
      Yields-map (tick-Runs p ctx v valid) (λ o k.
          IsShown-layout d o.0 sig' n_runners (ran p d ctx o.0 i a k)
            (AllTicked-length k.ticked ∙ n)),
    )
