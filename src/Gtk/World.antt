-- ===== src/Gtk/World.antt =====
-- The whole gtk program: the host's context (rust/gtk/src/bin/host.rs), the polling protocol, and the
-- two modules (rust/gtk/src/modules), which share the buffers. The containers call the export of a
-- module that has the name of the signal, one call is one step, and they answer when it returns.
-- The hunter's container has the grid mapped as `map_buffer` of rust/gtk/src/host_common.rs maps it, and
-- its `modify_grid` is a store through that mapping.
-- The host's handlers run on one thread, so none of them begins during a call of `send_signal`.
pub mod Placed
pub mod Taken
pub mod Kept
pub mod Drawn
pub mod Answers
pub mod Stuck
use wasm_shared_buffers.Base.{
  All, ℕ, ◌/◌, ◌≤◌, ◌≡◌, ◌≢◌, ◌⊎◌, List, [], ◌∷◌, Run, ok, some, length, replicate, false, true,
}
use wasm_shared_buffers.Int.{ℤ, Profile}
use wasm_shared_buffers.Gtk.State.{
  Signal, idle, init, tick, large_alloc, modify_grid, exit, walking, signal_code, signal_from,
}
use wasm_shared_buffers.Gtk.Actor.{Runner, Hunter, Context, n_runners}
use wasm_shared_buffers.Gtk.Hunter
use wasm_shared_buffers.Gtk.Hunter.Distance.{IsInGrid, RunnerIsInGrid}
use wasm_shared_buffers.Gtk.Runner
use wasm_shared_buffers.Gtk.Grid
use wasm_shared_buffers.Gtk.Grid.Init.{AreInside}
use wasm_shared_buffers.Gtk.Host.{HostContext, toggle_host_modify, modify_if_enabled}
use wasm_shared_buffers.Gtk.Protocol.{
  waiting, working, Party, Phase, ready, polling, sending, after, System, start,
}
use wasm_shared_buffers.Gtk.Buffers.{map_flags}
use wasm_shared_buffers.Gtk.Fault.{Pointers, Space, hunter_modify_grid}
use wasm_shared_buffers.Gtk.View.{grid_view}

-- The protocol, the host's context, the actors in the read-write buffer, RAND_VALUE of each module, and
-- the references and the pages of the hunter's container.
pub record World : Type 0 where
  pub system : System
  pub hc : HostContext
  pub hunter : Hunter
  pub runners : List Runner
  pub hunter_rand : ℕ
  pub runner_rand : ℕ
  pub pointers : Pointers
  pub space : Space

-- The context that a module has made of the buffers.
unfoldable pub context : World → Context
context w = record { grid = grid_view w.hc.grid; hunter = w.hunter; runners = w.runners }

-- What the hunter's module does to its actor and to RAND_VALUE. Its store to the grid on `modify_grid`
-- is the step `hunter_modifies`.
unfoldable pub hunter_call : Profile → Signal → ℤ → Context → ℕ → Run (Context × ℕ)
hunter_call p init seed ctx v = ok (Hunter.init ctx seed)
hunter_call p tick seed ctx v = Hunter.tick p ctx v
hunter_call p _ seed ctx v = ok (ctx, v)

unfoldable pub runner_call : Profile → Signal → ℤ → Context → ℕ → Run (Context × ℕ)
runner_call p init seed ctx v = ok (Runner.init ctx seed)
runner_call p tick seed ctx v = Runner.tick p ctx v
runner_call p _ seed ctx v = ok (ctx, v)

-- The buffers are zero at first: all actors are at the corner of the grid.
unfoldable pub zero_runner : Runner
zero_runner = record { x = 0; y = 0; state = walking }

unfoldable pub opened : List ℕ → Pointers → Space → World
opened grid pointers space = record {
  system = start;
  hc = record { grid = grid; enable_host_modify = false };
  hunter = record { x = 0; y = 0 };
  runners = replicate n_runners zero_runner;
  hunter_rand = 0;
  runner_rand = 0;
  pointers = pointers;
  space = space;
}

-- `grid[0][0] = 2`
abbrev pub with_first_cell : ℕ → List ℕ → List ℕ
with_first_cell v [] = []
with_first_cell v (c ∷ cells) = v ∷ cells

-- The host writes a signal for the hunter.
unfoldable pub begin_send : Signal → System → System
begin_send s y = record y {
  phase = sending s;
  hunter = record y.hunter { byte = signal_code s };
  sent = s ∷ y.sent;
}

-- A container takes a signal, and answers.
unfoldable pub taken_by : Signal → Party → Party
taken_by s a = record a { pc = working s; taken = s ∷ a.taken }

unfoldable pub answered : Party → Party
answered a = record a { byte = signal_code idle; pc = waiting }

-- While a module runs, the other one may move its actors: `seen` is what a call reads of them, any
-- positions on the grid.
pub data WorldStep (p : Profile) (w : World) : World → Type 0 where
  -- `HostContext::new`
  sends_init :
      w.system.phase ≡ ready
      → w.system.sent ≡ []
      → WorldStep p w (record w { system = begin_send init w.system })
  -- `on_tick`
  ticks :
      (draws : List (ℕ × ℕ)) (hc' : HostContext)
      → w.system.phase ≡ ready
      → w.system.sent ≢ []
      → AreInside draws
      → modify_if_enabled p draws w.hc ≡ ok hc'
      → WorldStep p w (record w { system = begin_send tick w.system; hc = hc' })
  -- The buttons of `on_open`.
  clicks : w.system.phase ≡ ready → WorldStep p w (record w { hc = toggle_host_modify w.hc })
  presses :
      (s : Signal)
      → w.system.phase ≡ ready
      → w.system.sent ≢ []
      → (s ≡ large_alloc) ⊎ (s ≡ modify_grid)
      → WorldStep p w (record w { system = begin_send s w.system })
  -- `Drop` of the host's context
  drops :
      w.system.phase ≡ ready
      → w.system.sent ≢ []
      → WorldStep p w (record w { system = begin_send exit w.system })
  sends_runner :
      (s : Signal)
      → w.system.phase ≡ sending s
      → WorldStep p w (record w {
        system = record w.system {
          phase = after s;
          runner = record w.system.runner { byte = signal_code s };
        };
      })
  returns :
      w.system.phase ≡ polling
      → w.system.hunter.byte ≡ signal_code idle
      → w.system.runner.byte ≡ signal_code idle
      → WorldStep p w (record w { system = record w.system { phase = ready } })
  hunter_takes :
      (s : Signal)
      → w.system.hunter.pc ≡ waiting
      → signal_from w.system.hunter.byte ≡ ok s
      → s ≢ idle
      → WorldStep p w
          (record w { system = record w.system { hunter = taken_by s w.system.hunter } })
  runner_takes :
      (s : Signal)
      → w.system.runner.pc ≡ waiting
      → signal_from w.system.runner.byte ≡ ok s
      → s ≢ idle
      → WorldStep p w
          (record w { system = record w.system { runner = taken_by s w.system.runner } })
  hunter_answers :
      (s : Signal) (seed : ℤ) (seen : List Runner) (ctx : Context) (v : ℕ)
      → w.system.hunter.pc ≡ working s
      → s ≢ modify_grid
      → All RunnerIsInGrid seen
      → hunter_call p s seed (record (context w) { runners = seen }) w.hunter_rand ≡ ok (ctx, v)
      → WorldStep p w (record w {
        system = record w.system { hunter = answered w.system.hunter };
        hunter = ctx.hunter;
        hunter_rand = v;
      })
  -- `modify_grid`, if the store does not fault
  hunter_modifies :
      (space' : Space)
      → w.system.hunter.pc ≡ working modify_grid
      → hunter_modify_grid w.pointers w.space ≡ ok space'
      → WorldStep p w (record w {
        system = record w.system { hunter = answered w.system.hunter };
        hc = record w.hc { grid = with_first_cell 2 w.hc.grid };
        space = space';
      })
  runner_answers :
      (s : Signal) (seed : ℤ) (seen : Hunter) (ctx : Context) (v : ℕ)
      → w.system.runner.pc ≡ working s
      → IsInGrid seen.x seen.y
      → runner_call p s seed (record (context w) { hunter = seen }) w.runner_rand ≡ ok (ctx, v)
      → WorldStep p w (record w {
        system = record w.system { runner = answered w.system.runner };
        runners = ctx.runners;
        runner_rand = v;
      })

-- From the creation of the buffers and `Grid::init` on. The page of the grid in the hunter's container is
-- read-only, as `map_buffer` has mapped it.
pub data Happens (p : Profile) : World → Type 0 where
  opens :
      (draws : List (ℕ × ℕ)) (shared_ro grid : List ℕ) (pointers : Pointers) (space : Space)
      → 1500 ≤ length shared_ro
      → AreInside draws
      → Grid.init draws shared_ro ≡ ok grid
      → space.page (pointers.grid / 4096) ≡ some (map_flags true)
      → Happens p (opened grid pointers space)
  then_ : {w w' : World} → Happens p w → WorldStep p w w' → Happens p w'
