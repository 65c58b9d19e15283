-- ===== src/Gtk/Tests.antt =====
-- Concrete runs of the gtk program, and the theorems at concrete values.
mod Buffers
mod Host
mod World
use wasm_shared_buffers.Base.{
  ◌≤◌, ◌==◌, ◌&&◌, if◌then◌else◌, ℕ, zero, suc, ◌^◌, ◌<◌, ◌≡◌, refl, ◌⊎◌, true, List, [], ◌∷◌, ◌++◌,
  get_elem?, some, arith, length, replicate, All, ok, panic, overflow, assertion, length-replicate,
}
use wasm_shared_buffers.Int.{
  ℤ, pos, negsuc, ◌+ℤ◌, ◌-ℤ◌, ◌*ℤ◌, as_i32, as_usize, debug, release, fit, saturating_add,
}
use wasm_shared_buffers.Gtk.State.{
  State, walking, running, dead, Signal, tick, state_from, state_code, state_from_lem, signal_from,
  signal_code, signal_from_lem,
}
use wasm_shared_buffers.Gtk.Draws.{Draws, tick-Draws}
use wasm_shared_buffers.Gtk.Outcome.{Yields}
use wasm_shared_buffers.Gtk.Actor.{
  Context, Runner, GridType, rand_usize, rand_step, step, move_by, is_off, is_blocked, target,
}
use wasm_shared_buffers.Gtk.Actor.Move.{Lands, move_by-Lands}
use wasm_shared_buffers.Gtk.Actor.Rand.{rand_step-step, rand_step_least}
use wasm_shared_buffers.Gtk.Actor.Within.{IsGrid}
use wasm_shared_buffers.Gtk.Hunter
use wasm_shared_buffers.Gtk.Hunter.Tick.{IsValid, Hunts, Chases, tick-Hunts, tick-Chases}
use wasm_shared_buffers.Gtk.Runner
use wasm_shared_buffers.Gtk.Runner.Tick.{Runs, tick-Runs, tick-IsValid, init-IsValid}
use wasm_shared_buffers.Gtk.Actors.{hunter_position, runner, layout, seen, runner-layout}
use wasm_shared_buffers.Gtk.Grid.{get, set, get-set}
use wasm_shared_buffers.Gtk.Signals.{
  Waits, Sends, wait_for_signal, send_signal, wait_for_signal-Waits, send_signal-Sends,
}

-- A grid without walls, a hunter, and three runners: near, far and dead.
abbrev open_grid : GridType
open_grid = replicate 30 (replicate 50 0)

abbrev three_runners : List Runner
three_runners =
    record { x = 12; y = 9; state = walking }
    ∷ record { x = 40; y = 20; state = running }
    ∷ record { x = 10; y = 10; state = dead }
    ∷ []

abbrev scene : Context
scene = record { grid = open_grid; hunter = record { x = 10; y = 10 }; runners = three_runners }

All-replicate : (P : List ℕ → Type 0) (n : ℕ) (a : List ℕ) → P a → All P (replicate n a)
All-replicate P zero a h = tt
All-replicate P (suc n) a h = (h, All-replicate P n a h)

open_grid-IsGrid : IsGrid open_grid
open_grid-IsGrid = record {
  rows = length-replicate 30 (replicate {A = ℕ} 50 0);
  columns =
      All-replicate (λ row. length row ≡ 50) 30 (replicate 50 0) (length-replicate {A = ℕ} 50 0);
}

scene-IsValid : IsValid scene
scene-IsValid = record {
  grid = open_grid-IsGrid;
  hunter = record { across = omega arith; down = omega arith };
  runners = (
    record { across = omega arith; down = omega arith },
    (
      record { across = omega arith; down = omega arith },
      (record { across = omega arith; down = omega arith }, tt),
    ),
  );
}

-- The hunter goes for the first runner.
hunter_moves :
    Hunter.tick debug scene 1 ≡ ok (record scene { hunter = record { x = 11; y = 9 } }, 1)
unfolding Hunter.tick Hunter.closest Hunter.visit Hunter.delta Hunter.dist_of Hunter.start
    Hunter.nearer move_by step fit ◌-ℤ◌ ◌*ℤ◌ ◌+ℤ◌ is_off target as_i32 as_usize saturating_add
    is_blocked
hunter_moves = refl

tick-Chases_example : Chases debug scene 1
tick-Chases_example = tick-Chases debug scene 1 scene-IsValid

tick-Runs_example : Yields (λ o. Runs release scene o.0) release (Runner.tick release scene 1)
tick-Runs_example = tick-Runs release scene 1 scene-IsValid

move_by-Lands_example :
    Yields
      (λ r. Lands open_grid 10 10 r.0)
      release
      (move_by release open_grid 10 10 (pos 3) (negsuc 1) 1)
move_by-Lands_example = move_by-Lands release open_grid 10 10 (pos 3) (negsuc 1) 1

-- The seed 2^31 - 137.
rand_step_least_example :
    (rand_step debug 2147483511 ≡ panic overflow)
    × (rand_step release 2147483511 ≡ ok (negsuc 2, 2 ^ 31))
unfolding rand_usize
rand_step_least_example = rand_step_least 2147483511 refl

-- Two idle rounds, then a tick.
abbrev late_tick : ℕ → ℕ
late_tick zero = 0
late_tick (suc zero) = 0
late_tick (suc (suc k)) = 2

wait_for_signal-Waits_example : Waits late_tick 0 300 (wait_for_signal late_tick)
wait_for_signal-Waits_example = wait_for_signal-Waits late_tick

send_signal-Sends_example :
    ((send_signal tick true (λ k. (late_tick k, 0))).0 ≡ (signal_code tick, signal_code tick))
    × Sends (λ k. (late_tick k, 0)) 0 300 (send_signal tick true (λ k. (late_tick k, 0))).1
send_signal-Sends_example = send_signal-Sends tick (λ k. (late_tick k, 0))

runner-layout_example :
    (hunter_position (layout 0 scene.hunter three_runners ++ (0 ∷ 7 ∷ []))
      ≡ ok (record { x = as_i32 10; y = as_i32 10 }))
    × (r : Runner) × (get_elem? three_runners 1 ≡ some r)
    × (runner (layout 0 scene.hunter three_runners ++ (0 ∷ 7 ∷ [])) 1 ≡ ok (seen r))
runner-layout_example = runner-layout 0 scene.hunter three_runners (0 ∷ 7 ∷ []) 1 (omega arith)

tick-Draws_example : Draws 2 1 (Hunter.tick debug scene 1) × Draws 12 1 (Runner.tick debug scene 1)
tick-Draws_example = tick-Draws scene 1 scene-IsValid
