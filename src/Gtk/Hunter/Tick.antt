-- ===== src/Gtk/Hunter/Tick.antt =====
-- `tick` of rust/gtk/src/modules/hunter.rs.
use wasm_shared_buffers.Base.{
  ℕ, ◌<◌, ◌≡◌, refl, ◌⊎◌, inl, inr, true, false, List, [], ◌∷◌, arith, Bool-cases, All, ok,
}
use wasm_shared_buffers.Int.{Profile}
use wasm_shared_buffers.Gtk.State.{is_dead}
use wasm_shared_buffers.Gtk.Outcome.{Yields, yields, Yields-bind}
use wasm_shared_buffers.Gtk.Actor.{Context, Runner, Hunter, is_blocked, move_by}
use wasm_shared_buffers.Gtk.Actor.Move.{Lands, move_by-Lands}
use wasm_shared_buffers.Gtk.Actor.Within.{
  IsInGrid-is_off, toward, target-step, IsGrid, Lands-IsInGrid,
}
use wasm_shared_buffers.Gtk.Hunter.{Nearest, closest, start, tick}
use wasm_shared_buffers.Gtk.Hunter.Distance.{IsInGrid, RunnerIsInGrid, sq_gap}
use wasm_shared_buffers.Gtk.Hunter.Closest.{
  Mem, here, there, aim, IsFar, none_left, nearest, Targets, closest-Targets,
}

-- The grid has its shape, and all actors are on it.
pub record IsValid (ctx : Context) : Type 0 where
  pub grid : IsGrid ctx.grid
  pub hunter : IsInGrid ctx.hunter.x ctx.hunter.y
  pub runners : All RunnerIsInGrid ctx.runners

-- The hunter has moved by `move_by` towards its target; nothing else has changed.
pub record Hunts (ctx ctx' : Context) : Type 0 where
  pub lands : Lands ctx.grid ctx.hunter.x ctx.hunter.y (ctx'.hunter.x, ctx'.hunter.y)
  pub grid : ctx'.grid ≡ ctx.grid
  pub runners : ctx'.runners ≡ ctx.runners
  pub is_valid : IsValid ctx'

-- On a valid context `tick` moves the hunter to a free cell of the grid or leaves it, keeps the
-- grid and the runners, and keeps the context valid; only in a debug build can it overflow.
pub tick-Hunts :
    (p : Profile) (ctx : Context) (v : ℕ)
    → IsValid ctx
    → Yields (λ r. Hunts ctx r.0) p (tick p ctx v)
unfolding tick
tick-Hunts p ctx v i =
    let (n, run, _) = closest-Targets p ctx.hunter ctx.runners i.hunter i.runners in
    rw run (
      Yields-bind (move_by-Lands p ctx.grid ctx.hunter.x ctx.hunter.y n.min_dx n.min_dy v)
        (λ m lands. yields (record {
          lands = lands;
          grid = refl;
          runners = refl;
          is_valid = record {
            grid = i.grid;
            hunter = Lands-IsInGrid i.grid i.hunter lands;
            runners = i.runners;
          };
        })))

-- The context after the hunter has gone to a cell.
abbrev hunter_at : Context → ℕ → ℕ → Context
hunter_at ctx x y = record ctx { hunter = record { x = x; y = y } }

Mem-All : (P : Runner → Type 0) (r : Runner) (rs : List Runner) → Mem r rs → All P rs → P r
Mem-All P r [] m a = elim m [ ]
Mem-All P r (_ ∷ rs) here (h, a) = h
Mem-All P r (s ∷ rs) (there m) (h, a) = Mem-All P r rs m a

toward-IsInGrid :
    (h : Hunter) (r : Runner)
    → IsInGrid h.x h.y
    → RunnerIsInGrid r
    → IsInGrid (toward h.x r.x) (toward h.y r.y)
toward-IsInGrid h r a b = record {
  across = bound h.x r.x 50 a.across b.across;
  down = bound h.y r.y 30 a.down b.down;
}
  where
    bound : (m n k : ℕ) → m < k → n < k → toward m n < k
    bound m n k i j = ground arith

module _ (p : Profile) (ctx : Context) (v : ℕ) (i : IsValid ctx) (r : Runner) where
  heads :
      Mem r ctx.runners
      → closest p ctx.hunter ctx.runners start ≡ ok (aim ctx.hunter r)
      → is_blocked ctx.grid (toward ctx.hunter.x r.x) (toward ctx.hunter.y r.y) ≡ false
      → tick p ctx v ≡ ok (hunter_at ctx (toward ctx.hunter.x r.x) (toward ctx.hunter.y r.y), v)
  unfolding tick move_by
  heads m run free =
      let h = ctx.hunter in
      let b = Mem-All RunnerIsInGrid r ctx.runners m i.runners in
      let on =
        IsInGrid-is_off ctx.grid (toward h.x r.x) (toward h.y r.y) i.grid
          (toward-IsInGrid h r i.hunter b) in
      rw (
        run,
        target-step h.x r.x i.hunter.across b.across,
        target-step h.y r.y (omega (arith, i.hunter.down)) (omega (arith, b.down)),
        on,
        free,
      )

-- What a run of `tick` aims at: nothing when all runners are dead, or a nearest living runner. The
-- hunter is then one step nearer to it in each direction, unless that cell is blocked.
pub data Chases (p : Profile) (ctx : Context) (v : ℕ) : Type 0 where
  all_dead : All (λ r. is_dead r.state ≡ true) ctx.runners → Chases p ctx v
  chases :
      (r : Runner)
      → Mem r ctx.runners
      → is_dead r.state ≡ false
      → All (IsFar ctx.hunter (sq_gap ctx.hunter r)) ctx.runners
      → (is_blocked ctx.grid (toward ctx.hunter.x r.x) (toward ctx.hunter.y r.y) ≡ true)
        ⊎ (tick p ctx v ≡ ok (hunter_at ctx (toward ctx.hunter.x r.x) (toward ctx.hunter.y r.y), v))
      → Chases p ctx v

found :
    (p : Profile) (ctx : Context) (v : ℕ) (n : Nearest)
    → IsValid ctx
    → closest p ctx.hunter ctx.runners start ≡ ok n
    → Targets ctx.hunter ctx.runners n
    → Chases p ctx v
found p ctx v n i run (none_left dead) = all_dead dead
found p ctx v n i run (nearest r m alive f) =
    chases r m alive f
      (elim (Bool-cases (is_blocked ctx.grid (toward ctx.hunter.x r.x) (toward ctx.hunter.y r.y))) [
        | inl wall ↦ inl wall
        | inr free ↦ inr (heads p ctx v i r m run free)
      ])

-- On a valid context, in either build, `tick` aims at a nearest living runner: one step towards it
-- in each direction is the new position of the hunter, unless that cell is blocked.
pub tick-Chases : (p : Profile) (ctx : Context) (v : ℕ) → IsValid ctx → Chases p ctx v
tick-Chases p ctx v i =
    let (n, run, aims) = closest-Targets p ctx.hunter ctx.runners i.hunter i.runners in
    found p ctx v n i run aims
