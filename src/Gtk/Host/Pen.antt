-- ===== src/Gtk/Host/Pen.antt =====
-- The actors on a grid with a wall: `init` and `tick` of rust/gtk/src/modules.
use wasm_shared_buffers.Base.{
  ℕ, ◌≤◌, ◌<◌, ◌≡◌, refl, sym, ◌∙◌, inl, inr, true, false, List, [], ◌∷◌, arith, ◌==◌, Bool-cases,
  All,
}
use wasm_shared_buffers.Int.{ℤ, as_usize, Profile}
use mathlib.Core.Path.{subst}
use wasm_shared_buffers.Gtk.Outcome.{Yields, Yields-map}
use wasm_shared_buffers.Gtk.Actor.{Context, Runner, is_blocked, rand_usize, Hunter}
use wasm_shared_buffers.Gtk.Actor.Move.{Lands, stays, moves}
use wasm_shared_buffers.Gtk.Actor.Within.{IsGrid, is_off-IsInGrid}
use wasm_shared_buffers.Gtk.Grid.Cells.{cell}
use wasm_shared_buffers.Gtk.Host.Arena.{IsArena, on_rim}
use wasm_shared_buffers.Gtk.Hunter
use wasm_shared_buffers.Gtk.Hunter.Distance.{IsInGrid}
use wasm_shared_buffers.Gtk.Hunter.Tick.{IsValid, Hunts, tick-Hunts}
use wasm_shared_buffers.Gtk.Runner
use wasm_shared_buffers.Gtk.Runner.Moved.{Ticked, rests, caught, walks, runs}
use wasm_shared_buffers.Gtk.Runner.Tick.{AllTicked, done, ticked, left, Runs, tick-Runs}
use wasm_shared_buffers.Gtk.View.{grid_view, grid_view-IsGrid, is_blocked-grid_view}

-- Inside the wall.
pub record IsInside (x y : ℕ) : Type 0 where
  pub across : (1 ≤ x) × (x ≤ 48)
  pub down : (1 ≤ y) × (y ≤ 28)

abbrev pub RunnerIsInside : Runner → Type 0
RunnerIsInside r = IsInside r.x r.y

-- The modules see the grid of the host, and all actors are inside the wall.
pub record ArePenned (d : List ℕ) (ctx : Context) : Type 0 where
  pub grid : ctx.grid ≡ grid_view d
  pub hunter : IsInside ctx.hunter.x ctx.hunter.y
  pub runners : All RunnerIsInside ctx.runners

pub IsInside-IsInGrid : {x y : ℕ} → IsInside x y → IsInGrid x y
IsInside-IsInGrid i = record { across = omega (arith, i.across.1); down = omega (arith, i.down.1) }

pub All-IsInGrid : (rs : List Runner) → All RunnerIsInside rs → All (λ r. IsInGrid r.x r.y) rs
All-IsInGrid [] a = tt
All-IsInGrid (r ∷ rs) (i, a) = (IsInside-IsInGrid i, All-IsInGrid rs a)

pub arena_grid : (d : List ℕ) → IsArena d → IsGrid (grid_view d)
arena_grid d i = grid_view-IsGrid d i.binary.size

pub ArePenned-IsValid : (d : List ℕ) (ctx : Context) → IsArena d → ArePenned d ctx → IsValid ctx
ArePenned-IsValid d ctx i a = record {
  grid = subst IsGrid (sym a.grid) (arena_grid d i);
  hunter = IsInside-IsInGrid a.hunter;
  runners = All-IsInGrid ctx.runners a.runners;
}

-- A position that is not on the rim.
off_rim : (x y : ℕ) → x < 50 → y < 30 → on_rim x y ≡ false → IsInside x y
off_rim x y h l e = record {
  across = (ground arith, ground arith);
  down = (ground arith, ground arith);
}

free-IsInside :
    (d : List ℕ) (x y : ℕ)
    → IsArena d
    → x < 50
    → y < 30
    → is_blocked (grid_view d) x y ≡ false
    → IsInside x y
free-IsInside d x y i h l free = elim (Bool-cases (on_rim x y)) [
  | inl e ↦
      let wall = i.walled x y h l e in
      let full : (cell d x y == 1) ≡ true = rw wall refl in
      absurd (cc (sym (is_blocked-grid_view d x y h l) ∙ free, full))
  | inr e ↦ off_rim x y h l e
]

pub Lands-IsInside :
    (d : List ℕ) {x y : ℕ} {to : ℕ × ℕ}
    → IsArena d
    → IsInside x y
    → Lands (grid_view d) x y to
    → IsInside to.0 to.1
Lands-IsInside d i a stays = a
Lands-IsInside d i a (moves {tx = tx} {ty = ty} on free) =
    let in_grid = is_off-IsInGrid (grid_view d) tx ty (arena_grid d i) on in
    free-IsInside d tx ty i in_grid.across in_grid.down free

Ticked-IsInside :
    (d : List ℕ) {h : Hunter} {r r' : Runner}
    → IsArena d
    → RunnerIsInside r
    → Ticked (grid_view d) h r r'
    → RunnerIsInside r'
Ticked-IsInside d i a (rests e) = a
Ticked-IsInside d i a (caught e x y) = record { across = a.across; down = a.down }
Ticked-IsInside d i a (walks e f lands) =
    let k = Lands-IsInside d i a lands in record { across = k.across; down = k.down }
Ticked-IsInside d i a (runs e f n lands) =
    let k = Lands-IsInside d i a lands in record { across = k.across; down = k.down }

pub AllTicked-IsInside :
    (d : List ℕ) {p : Profile} {h : Hunter} {rs rs' : List Runner}
    → IsArena d
    → AllTicked p (grid_view d) h rs rs'
    → All RunnerIsInside rs
    → All RunnerIsInside rs'
AllTicked-IsInside d i done a = tt
AllTicked-IsInside d i (ticked t ts) (b, a) = (Ticked-IsInside d i b t, AllTicked-IsInside d i ts a)
AllTicked-IsInside d i (left e t) (b, a) = (Ticked-IsInside d i b t, a)

pub hunted :
    (d : List ℕ) (ctx ctx' : Context)
    → IsArena d
    → ArePenned d ctx
    → Hunts ctx ctx'
    → ArePenned d ctx'
hunted d ctx ctx' i a h = record {
  grid = h.grid ∙ a.grid;
  hunter = Lands-IsInside d i a.hunter (
      subst (λ g. Lands g ctx.hunter.x ctx.hunter.y (ctx'.hunter.x, ctx'.hunter.y)) a.grid h.lands);
  runners = subst (All RunnerIsInside) (sym h.runners) a.runners;
}

pub ran :
    (p : Profile) (d : List ℕ) (ctx ctx' : Context)
    → IsArena d
    → ArePenned d ctx
    → Runs p ctx ctx'
    → ArePenned d ctx'
ran p d ctx ctx' i a r = record {
  grid = r.grid ∙ a.grid;
  hunter = subst (λ h. IsInside h.x h.y) (sym r.hunter) a.hunter;
  runners =
      AllTicked-IsInside d i
        (subst (λ g. AllTicked p g ctx.hunter ctx.runners ctx'.runners) a.grid r.ticked) a.runners;
}

-- On a grid with a wall, `tick` of either module keeps the hunter and all runners inside the wall
-- when they are, and leaves the grid; only in a debug build can it overflow instead.
pub tick-ArePenned :
    (p : Profile) (d : List ℕ) (ctx : Context) (v : ℕ)
    → IsArena d
    → ArePenned d ctx
    → Yields (λ o. ArePenned d o.0) p (Hunter.tick p ctx v)
      × Yields (λ o. ArePenned d o.0) p (Runner.tick p ctx v)
tick-ArePenned p d ctx v i a =
    let valid = ArePenned-IsValid d ctx i a in
    (
      Yields-map (tick-Hunts p ctx v valid) (λ o h. hunted d ctx o.0 i a h),
      Yields-map (tick-Runs p ctx v valid) (λ o r. ran p d ctx o.0 i a r),
    )

pub place-RunnerIsInside : (rs : List Runner) (v : ℕ) → All RunnerIsInside (Runner.place rs v).0
unfolding Runner.place
place-RunnerIsInside [] v = tt
place-RunnerIsInside (r ∷ rs) v = (
  record { across = (omega arith, omega arith); down = (omega arith, omega arith) },
  place-RunnerIsInside rs (rand_usize (rand_usize v)),
)

-- `init` of both modules puts all actors inside the wall.
pub init-ArePenned :
    (d : List ℕ) (ctx : Context) (hunter_seed runner_seed : ℤ)
    → ctx.grid ≡ grid_view d
    → ArePenned d (Runner.init (Hunter.init ctx hunter_seed).0 runner_seed).0
unfolding Runner.init Hunter.init
init-ArePenned d ctx hunter_seed runner_seed e = record {
  grid = e;
  hunter = record { across = (omega arith, omega arith); down = (omega arith, omega arith) };
  runners = place-RunnerIsInside ctx.runners (as_usize runner_seed);
}
