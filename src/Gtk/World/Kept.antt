-- ===== src/Gtk/World/Kept.antt =====
-- The invariant of the whole gtk program: both modules have been initialised before they tick, and
-- from then on all actors are inside the wall.
use wasm_shared_buffers.Base.{
  ℕ, zero, suc, ◌≡◌, refl, ◌∙◌, ◌≢◌, List, [], ◌∷◌, arith, length, All, length-replicate, ok,
  replicate, panic, trap, true, some, ◌/◌, ◌⊎◌, inl, inr,
}
use wasm_shared_buffers.Int.{ℤ, Profile}
use mathlib.Core.Path.{subst}
use wasm_shared_buffers.Gtk.State.{
  Signal, idle, init, tick, large_alloc, modify_grid, exit, signal_code,
}
use wasm_shared_buffers.Gtk.Buffers.{map_flags}
use wasm_shared_buffers.Gtk.Fault.{hunter_modify_grid, store_word}
use wasm_shared_buffers.Gtk.Actor.{Runner, Hunter, Context, n_runners}
use wasm_shared_buffers.Gtk.Host.Arena.{IsArena, planned}
use wasm_shared_buffers.Gtk.Host.Pen.{
  IsInside, RunnerIsInside, IsInside-IsInGrid, All-IsInGrid, arena_grid,
}
use wasm_shared_buffers.Gtk.Grid.Init.{init-plan}
use wasm_shared_buffers.Gtk.Host.{HostContext, toggle_host_modify}
use wasm_shared_buffers.Gtk.Hunter.Distance.{IsInGrid, RunnerIsInGrid}
use wasm_shared_buffers.Gtk.Hunter.Tick.{IsValid}
use wasm_shared_buffers.Gtk.Protocol.{
  System, working, ready, Reach, begin, later, send, send_runner, host_returns, hunter_moves,
  runner_moves, take_signal, send_idle,
}
use wasm_shared_buffers.Gtk.Protocol.Order.{Reach-Inv}
use wasm_shared_buffers.Gtk.World.{
  World, context, WorldStep, sends_init, ticks, clicks, presses, drops, sends_runner, returns,
  hunter_takes, runner_takes, hunter_answers, hunter_modifies, runner_answers, Happens, opens,
  then_, zero_runner, opened, begin_send, taken_by, answered, hunter_call, runner_call,
}
use wasm_shared_buffers.Gtk.World.Placed.{
  hunter_call-IsInside, runner_call-ArePlaced, modify_if_enabled-IsArena,
}
use wasm_shared_buffers.Gtk.World.Taken.{
  Placed, not_called, placed, heard, heard_late, BeginsWithInit, Placed-taken_by, Placed-byte,
  settled,
}

pub record IsKept (w : World) : Type 0 where
  pub reach : Reach w.system
  pub first : BeginsWithInit w.system.sent
  pub arena : IsArena w.hc.grid
  pub count : length w.runners ≡ n_runners
  pub hunter_in : IsInGrid w.hunter.x w.hunter.y
  pub runners_in : All RunnerIsInGrid w.runners
  pub hunter : Placed w.system.hunter (IsInside w.hunter.x w.hunter.y)
  pub runner : Placed w.system.runner (All RunnerIsInside w.runners)
  pub protected : w.space.page (w.pointers.grid / 4096) ≡ some (map_flags true)

-- The store of the hunter's `modify_grid` faults.
pub hunter_modify_grid-IsKept :
    (w : World) → IsKept w → hunter_modify_grid w.pointers w.space ≡ panic trap
unfolding hunter_modify_grid store_word
hunter_modify_grid-IsKept w k = rw k.protected refl

pub hunter_sees-IsValid :
    (w : World) (seen : List Runner)
    → IsKept w
    → All RunnerIsInGrid seen
    → IsValid (record (context w) { runners = seen })
unfolding context
hunter_sees-IsValid w seen k on_grid = record {
  grid = arena_grid w.hc.grid k.arena;
  hunter = k.hunter_in;
  runners = on_grid;
}

pub runner_sees-IsValid :
    (w : World) (seen : Hunter)
    → IsKept w
    → IsInGrid seen.x seen.y
    → IsValid (record (context w) { hunter = seen })
unfolding context
runner_sees-IsValid w seen k on_grid = record {
  grid = arena_grid w.hc.grid k.arena;
  hunter = on_grid;
  runners = k.runners_in;
}

-- A later signal does not change which was the first.
BeginsWithInit-later : (s : Signal) (sent : List Signal) → sent ≢ [] → BeginsWithInit (s ∷ sent)
BeginsWithInit-later s sent more t e = let none : sent ≡ [] = cc e in absurd (more none)

-- A step of the protocol alone.
system-IsKept :
    (w : World) (y : System)
    → Reach y
    → BeginsWithInit y.sent
    → Placed y.hunter (IsInside w.hunter.x w.hunter.y)
    → Placed y.runner (All RunnerIsInside w.runners)
    → IsKept w
    → IsKept (record w { system = y })
system-IsKept w y r b h n k = record {
  reach = r;
  first = b;
  arena = k.arena;
  count = k.count;
  hunter_in = k.hunter_in;
  runners_in = k.runners_in;
  hunter = h;
  runner = n;
  protected = k.protected;
}

sent-IsKept :
    (w : World) (s : Signal)
    → w.system.phase ≡ ready
    → s ≢ idle
    → BeginsWithInit (s ∷ w.system.sent)
    → IsKept w
    → IsKept (record w { system = begin_send s w.system })
unfolding begin_send
sent-IsKept w s f n b k =
    system-IsKept w _ (later k.reach (send s f n)) b (Placed-byte (signal_code s) k.hunter) k.runner
      k

-- Another grid with a wall.
arena-IsKept :
    (w : World) (hc' : HostContext) → IsArena hc'.grid → IsKept w → IsKept (record w { hc = hc' })
arena-IsKept w hc' i k = record {
  reach = k.reach;
  first = k.first;
  arena = i;
  count = k.count;
  hunter_in = k.hunter_in;
  runners_in = k.runners_in;
  hunter = k.hunter;
  runner = k.runner;
  protected = k.protected;
}

nothing_sent :
    (s : Signal)
    → BeginsWithInit (s ∷ [])
    → (sent : List Signal) → sent ≡ []
    → BeginsWithInit (s ∷ sent)
nothing_sent s b sent e = rw e b

answer-IsKept :
    (p : Profile) (w : World) (s : Signal) (seed : ℤ) (seen : List Runner) (ctx : Context) (v : ℕ)
    → w.system.hunter.pc ≡ working s
    → s ≢ modify_grid
    → All RunnerIsInGrid seen
    → hunter_call p s seed (record (context w) { runners = seen }) w.hunter_rand ≡ ok (ctx, v)
    → IsKept w
    → IsKept (record w {
      system = record w.system { hunter = answered w.system.hunter };
      hunter = ctx.hunter;
      hunter_rand = v;
    })
unfolding answered context
answer-IsKept p w s seed seen ctx v at n on_grid run k =
    let inside =
      hunter_call-IsInside p s seed w.hc.grid (record (context w) { runners = seen }) w.hunter_rand
        (ctx, v) k.arena refl (hunter_sees-IsValid w seen k on_grid) (settled s at k.hunter) run in
    record {
      reach = later k.reach (hunter_moves (λ e. n (cc (at, e))) (send_idle s at));
      first = k.first;
      arena = k.arena;
      count = k.count;
      hunter_in = IsInside-IsInGrid inside;
      runners_in = k.runners_in;
      hunter = placed inside;
      runner = k.runner;
      protected = k.protected;
    }

runner_answer-IsKept :
    (p : Profile) (w : World) (s : Signal) (seed : ℤ) (seen : Hunter) (ctx : Context) (v : ℕ)
    → w.system.runner.pc ≡ working s
    → IsInGrid seen.x seen.y
    → runner_call p s seed (record (context w) { hunter = seen }) w.runner_rand ≡ ok (ctx, v)
    → IsKept w
    → IsKept (record w {
      system = record w.system { runner = answered w.system.runner };
      runners = ctx.runners;
      runner_rand = v;
    })
unfolding answered context
runner_answer-IsKept p w s seed seen ctx v at on_grid run k =
    let (inside, size) =
      runner_call-ArePlaced p s seed w.hc.grid (record (context w) { hunter = seen }) w.runner_rand
        (ctx, v) k.arena refl (runner_sees-IsValid w seen k on_grid) (settled s at k.runner) run in
    record {
      reach = later k.reach (runner_moves (send_idle s at));
      first = k.first;
      arena = k.arena;
      count = size ∙ k.count;
      hunter_in = k.hunter_in;
      runners_in = All-IsInGrid ctx.runners inside;
      hunter = k.hunter;
      runner = placed inside;
      protected = k.protected;
    }

-- The buttons send no `idle`.
button : (s : Signal) → (s ≡ large_alloc) ⊎ (s ≡ modify_grid) → s ≢ idle
button s (inl e) n = cc (e, n)
button s (inr e) n = cc (e, n)

pub WorldStep-IsKept : (p : Profile) {w w' : World} → WorldStep p w w' → IsKept w → IsKept w'
unfolding taken_by toggle_host_modify
WorldStep-IsKept p {w = w} (sends_init f none) k =
    sent-IsKept w init f (λ e. cc e) (nothing_sent init (λ s e. cc e) w.system.sent none) k
WorldStep-IsKept p {w = w} (ticks draws hc' f more all run) k =
    arena-IsKept (record w { system = begin_send tick w.system }) hc'
      (modify_if_enabled-IsArena p draws w.hc hc' k.arena all run)
      (sent-IsKept w tick f (λ e. cc e) (BeginsWithInit-later tick w.system.sent more) k)
WorldStep-IsKept p {w = w} (clicks f) k = arena-IsKept w (toggle_host_modify w.hc) k.arena k
WorldStep-IsKept p {w = w} (presses s f more b) k =
    sent-IsKept w s f (button s b) (BeginsWithInit-later s w.system.sent more) k
WorldStep-IsKept p {w = w} (drops f more) k =
    sent-IsKept w exit f (λ e. cc e) (BeginsWithInit-later exit w.system.sent more) k
WorldStep-IsKept p {w = w} (sends_runner s f) k =
    system-IsKept w _ (later k.reach (send_runner s f)) k.first k.hunter
      (Placed-byte (signal_code s) k.runner) k
WorldStep-IsKept p {w = w} (returns f h r) k =
    system-IsKept w _ (later k.reach (host_returns f h r)) k.first k.hunter k.runner k
WorldStep-IsKept p {w = w} (hunter_takes s at byte n) k =
    let last = heard w.system.phase w.system.sent s (Reach-Inv k.reach).hunter at byte n in
    system-IsKept w _ (later k.reach (hunter_moves (λ e. cc (at, e)) (take_signal s at byte n)))
      k.first (Placed-taken_by w.system.sent s k.first last at k.hunter) k.runner k
WorldStep-IsKept p {w = w} (runner_takes s at byte n) k =
    let last = heard_late w.system.phase w.system.sent s (Reach-Inv k.reach).runner at byte n in
    system-IsKept w _ (later k.reach (runner_moves (take_signal s at byte n))) k.first k.hunter
      (Placed-taken_by w.system.sent s k.first last at k.runner) k
WorldStep-IsKept p {w = w} (hunter_answers s seed seen ctx v at n on_grid run) k =
    answer-IsKept p w s seed seen ctx v at n on_grid run k
WorldStep-IsKept p {w = w} (hunter_modifies space' at run) k =
    let fault = hunter_modify_grid-IsKept w k in absurd (cc (run, fault))
WorldStep-IsKept p {w = w} (runner_answers s seed seen ctx v at on_grid run) k =
    runner_answer-IsKept p w s seed seen ctx v at on_grid run k

pub zeros-in : (n : ℕ) → All RunnerIsInGrid (replicate n zero_runner)
unfolding zero_runner
zeros-in zero = tt
zeros-in (suc n) = (record { across = omega arith; down = omega arith }, zeros-in n)

-- Every world that the program can reach is one where the protocol is in order, the grid has its
-- wall, all actors are on the grid, and inside the wall once their module was initialised.
pub Happens-IsKept : (p : Profile) {w : World} → Happens p w → IsKept w
unfolding opened
Happens-IsKept p (opens draws ro grid pointers space large all run page) =
    let (d, run', paints) = init-plan draws ro large all in
    let same : d ≡ grid = cc (run, run') in
    record {
      reach = begin;
      first = λ s e. absurd (cc e);
      arena = subst IsArena same (planned draws ro d large paints);
      count = length-replicate n_runners zero_runner;
      hunter_in = record { across = omega arith; down = omega arith };
      runners_in = zeros-in n_runners;
      hunter = not_called refl refl;
      runner = not_called refl refl;
      protected = page;
    }
Happens-IsKept p (then_ h s) = WorldStep-IsKept p s (Happens-IsKept p h)
