-- ===== src/Gtk/Tests/Host.antt =====
-- The host's grid, the actors on it, and the signals, at concrete values.
use wasm_shared_buffers.Base.{
  ℕ, zero, suc, All, drop, ◌>>=◌, ◌≤◌, ◌≡◌, refl, false, List, [], ◌∷◌, arith, length, replicate,
  ok, length-replicate,
}
use wasm_shared_buffers.Int.{release}
use wasm_shared_buffers.Gtk.State.{tick, signal_code, running, walking}
use wasm_shared_buffers.Gtk.Signals.{send_signal, poll_idle}
use wasm_shared_buffers.Gtk.Outcome.{Yields}
use wasm_shared_buffers.Gtk.Actor.{Context, Runner}
use wasm_shared_buffers.Gtk.Grid
use wasm_shared_buffers.Gtk.Grid.Cells.{Paints}
use wasm_shared_buffers.Gtk.Grid.Init.{AreInside, plan, init-plan}
use wasm_shared_buffers.Gtk.Host.{HostContext, host_new, toggle_host_modify}
use wasm_shared_buffers.Gtk.Host.Arena.{
  IsArena, Session, started, clicked, Kept, Session-IsArena, on_tick-IsArena,
}
use wasm_shared_buffers.Gtk.Context.{new_unowned}
use wasm_shared_buffers.Gtk.Context.Shown.{IsShown, tick-IsShown, ArePenned-IsShown}
use wasm_shared_buffers.Gtk.Actors.{layout}
use wasm_shared_buffers.Gtk.Host.Pen.{IsInside, ArePenned}
use wasm_shared_buffers.Gtk.Hunter
use wasm_shared_buffers.Gtk.Runner
use wasm_shared_buffers.Gtk.View.{grid_view}
use wasm_shared_buffers.Gtk.Protocol.{
  System, Reach, begin, later, send, start, fresh, sending, ready, waiting,
}
use wasm_shared_buffers.Gtk.Protocol.Order.{Reach-ready, KeepsUp, Reach-KeepsUp}
use wasm_shared_buffers.Gtk.Protocol.Progress.{Continues, Answered, Reach-Continues}

abbrev zeros : List ℕ
zeros = replicate 1500 0

zeros_large : 1500 ≤ length zeros
zeros_large = omega (arith, length-replicate {A = ℕ} 1500 0)

abbrev draws : List (ℕ × ℕ)
draws = (3, 4) ∷ (48, 28) ∷ []

draws-AreInside : AreInside draws
draws-AreInside = (
  ((omega arith, omega arith), (omega arith, omega arith)),
  (((omega arith, omega arith), (omega arith, omega arith)), tt),
)

init-plan_example :
    (d' : List ℕ) × (Grid.init draws zeros ≡ ok d') × Paints zeros d' (λ x y old. plan draws x y)
init-plan_example = init-plan draws zeros zeros_large draws-AreInside

-- Both containers answer at once.
abbrev answers : ℕ → ℕ × ℕ
answers k = (0, 0)

planned :
    (d' : List ℕ) × (Grid.init draws zeros ≡ ok d') × Paints zeros d' (λ x y old. plan draws x y)
planned = init-plan draws zeros zeros_large draws-AreInside

abbrev opened : HostContext
opened = record { grid = planned.0; enable_host_modify = false }

opened-host_new : host_new draws answers zeros ≡ ok opened
unfolding host_new send_signal poll_idle signal_code
opened-host_new = rw planned.1 refl

opened-Session : Session release (toggle_host_modify opened)
opened-Session = clicked (started draws answers zeros zeros_large draws-AreInside opened-host_new)

on_tick-IsArena_example :
    (hc' : HostContext) × Kept release draws answers (toggle_host_modify opened) hc'
on_tick-IsArena_example =
    on_tick-IsArena release (toggle_host_modify opened) draws answers opened-Session draws-AreInside

-- A hunter beside the wall, and a runner in a corner.
abbrev scene : Context
scene = record {
  grid = grid_view opened.grid;
  hunter = record { x = 1; y = 15 };
  runners = record { x = 48; y = 1; state = running } ∷ [];
}

scene-ArePenned : ArePenned opened.grid scene
scene-ArePenned = record {
  grid = refl;
  hunter = record { across = (omega arith, omega arith); down = (omega arith, omega arith) };
  runners = (record { across = (omega arith, omega arith); down = (omega arith, omega arith) }, tt);
}

opened-IsArena : IsArena opened.grid
unfolding toggle_host_modify
opened-IsArena = Session-IsArena opened-Session

-- The host has written a tick for the hunter, and no container has seen it.
abbrev called : System
called = record start {
  phase = sending tick;
  hunter = record fresh { byte = signal_code tick };
  sent = tick ∷ [];
}

called-Reach : Reach called
called-Reach = later begin (send tick refl (λ e. cc e))

Reach-Continues_example : (z : System) × Continues 6 called z × Answered called z
Reach-Continues_example =
    Reach-Continues called-Reach (λ e. cc e) (λ s before e. (λ f. cc (e, f), λ f. cc (e, f)))

Reach-KeepsUp_example :
    KeepsUp called.sent called.hunter.taken × KeepsUp called.sent called.runner.taken
Reach-KeepsUp_example = Reach-KeepsUp called-Reach

-- Both containers have handled the tick.
handled : (z : System) × Reach z × (z.phase ≡ ready)
handled =
    let (z, c, w) =
      Reach-Continues called-Reach (λ e. cc e) (λ s before e. (λ f. cc (e, f), λ f. cc (e, f))) in
    (z, w.reach, w.free)

Reach-ready_example :
    ((handled.0.hunter.pc ≡ waiting) × (handled.0.hunter.taken ≡ handled.0.sent))
    × ((handled.0.runner.pc ≡ waiting) × (handled.0.runner.taken ≡ handled.0.sent))
Reach-ready_example = Reach-ready handled.1 handled.2

-- Fifteen runners in a corner.
abbrev corner : Runner
corner = record { x = 48; y = 28; state = walking }

All-replicate : (P : Runner → Type 0) (n : ℕ) (r : Runner) → P r → All P (replicate n r)
All-replicate P zero r h = tt
All-replicate P (suc n) r h = (h, All-replicate P n r h)

tick-IsShown_example :
    Yields
      (λ o. IsShown (layout 0 o.0.hunter o.0.runners) 15)
      release
      (new_unowned opened.grid (drop 1 (layout 514 scene.hunter (replicate 15 corner)))
        >>= (λ ctx. Hunter.tick release ctx 7))
    × Yields
        (λ o. IsShown (layout 0 o.0.hunter o.0.runners) 15)
        release
        (new_unowned opened.grid (drop 1 (layout 514 scene.hunter (replicate 15 corner)))
          >>= (λ ctx. Runner.tick release ctx 7))
tick-IsShown_example =
    tick-IsShown release opened.grid scene.hunter (replicate 15 corner) 514 0 7 opened-IsArena
      scene-ArePenned.hunter
      (All-replicate (λ r. IsInside r.x r.y) 15 corner
        (record { across = (omega arith, omega arith); down = (omega arith, omega arith) }))
      (length-replicate 15 corner)

-- What the host reads of the hunter beside the wall and of the runners in the corner.
shown : IsShown (layout 0 scene.hunter (replicate 15 corner)) 15
shown =
    ArePenned-IsShown opened.grid (record scene { runners = replicate 15 corner }) 0
      (record {
        grid = refl;
        hunter = scene-ArePenned.hunter;
        runners =
            All-replicate (λ r. IsInside r.x r.y) 15 corner
              (record { across = (omega arith, omega arith); down = (omega arith, omega arith) });
      })
