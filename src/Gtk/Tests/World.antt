-- ===== src/Gtk/Tests/World.antt =====
-- The start of the whole gtk program, up to the end of the first call of `send_signal`.
use wasm_shared_buffers.Base.{
  All, ℕ, ◌≤◌, ◌≡◌, refl, List, [], ◌∷◌, arith, length, length-replicate, replicate, ok, some, ◌==◌,
  inr,
}
use wasm_shared_buffers.Int.{pos, debug, release}
use wasm_shared_buffers.Gtk.State.{init, modify_grid, signal_code, signal_from}
use wasm_shared_buffers.Gtk.Actors.{layout}
use wasm_shared_buffers.Gtk.Draw.{Filled, background, on_draw}
use wasm_shared_buffers.Gtk.Draw.Window.{IsPicture, AreInWindow}
use wasm_shared_buffers.Gtk.Grid.Init.{AreInside, init-plan}
use wasm_shared_buffers.Gtk.Hunter
use wasm_shared_buffers.Gtk.Runner
use wasm_shared_buffers.Gtk.Hunter.Distance.{IsInGrid, RunnerIsInGrid}
use wasm_shared_buffers.Gtk.World.Kept.{zeros-in}
use wasm_shared_buffers.Gtk.Protocol.{polling, ready, after}
use wasm_shared_buffers.Gtk.World.{
  World, context, presses, sends_init, sends_runner, returns, hunter_takes, runner_takes,
  hunter_answers, runner_answers, Happens, opens, then_, opened, begin_send, taken_by, answered,
  hunter_call, runner_call,
}
use wasm_shared_buffers.Gtk.World.Answers.{Frees, Happens-Frees}
use wasm_shared_buffers.Gtk.World.Stuck.{IsStuck, Happens-IsStuck}
use wasm_shared_buffers.Gtk.Buffers.{map_flags}
use wasm_shared_buffers.Gtk.Fault.{Pointers, Space, create_context, skip_hunter}
use wasm_shared_buffers.Gtk.World.Drawn.{Happens-IsPicture}

abbrev one_block : List (ℕ × ℕ)
one_block = (3, 4) ∷ []

one_block-AreInside : AreInside one_block
one_block-AreInside = (((omega arith, omega arith), (omega arith, omega arith)), tt)

abbrev zeros : List ℕ
zeros = replicate 1500 0

large : 1500 ≤ length zeros
large = omega (arith, length-replicate {A = ℕ} 1500 0)

abbrev grid : List ℕ
grid = (init-plan one_block zeros large one_block-AreInside).0

-- The pages of the hunter's container: the grid at 65536, the actors at 73728.
abbrev pointers : Pointers
pointers = record { grid = 65536; hunter = 73728; runners = 73736 }

pointers_made : create_context 65536 73728 ≡ pointers
unfolding create_context skip_hunter
pointers_made = refl

abbrev space : Space
space = record { page = λ q. some (map_flags (q == 16)); word = λ a. 0 }

abbrev called : World
called = let w = opened grid pointers space in record w { system = begin_send init w.system }

abbrev hunter_busy : World
hunter_busy = record called {
  system = record called.system { hunter = taken_by init called.system.hunter };
}

abbrev hunter_done : World
hunter_done =
    let (ctx, v) = Hunter.init (context hunter_busy) (pos 5) in
    record hunter_busy {
      system = record hunter_busy.system { hunter = answered hunter_busy.system.hunter };
      hunter = ctx.hunter;
      hunter_rand = v;
    }

abbrev both_called : World
both_called = record hunter_done {
  system = record hunter_done.system {
    phase = polling;
    runner = record hunter_done.system.runner { byte = signal_code init };
  };
}

abbrev runner_busy : World
runner_busy = record both_called {
  system = record both_called.system { runner = taken_by init both_called.system.runner };
}

abbrev runner_done : World
runner_done =
    let (ctx, v) = Runner.init (context runner_busy) (pos 7) in
    record runner_busy {
      system = record runner_busy.system { runner = answered runner_busy.system.runner };
      runners = ctx.runners;
      runner_rand = v;
    }

abbrev begun : World
begun = record runner_done { system = record runner_done.system { phase = ready } }

corner-All : All RunnerIsInGrid hunter_busy.runners
unfolding opened begin_send taken_by
corner-All = zeros-in 15

middle-IsInGrid : IsInGrid runner_busy.hunter.x runner_busy.hunter.y
unfolding Hunter.init
middle-IsInGrid = record { across = omega arith; down = omega arith }

begun-Happens : Happens debug begun
unfolding opened begin_send taken_by answered signal_from signal_code hunter_call runner_call
    context Hunter.init Runner.init after
begun-Happens =
    let h₀ : Happens debug (opened grid pointers space) =
      opens one_block zeros grid pointers space large one_block-AreInside
        (init-plan one_block zeros large one_block-AreInside).1 refl in
    let h₁ : Happens debug called = then_ h₀ (sends_init refl refl) in
    let h₂ : Happens debug hunter_busy = then_ h₁ (hunter_takes init refl refl (λ e. cc e)) in
    let h₃ : Happens debug hunter_done = then_ h₂ (
      hunter_answers init (pos 5) hunter_busy.runners (Hunter.init (context hunter_busy) (pos 5)).0
        (Hunter.init (context hunter_busy) (pos 5)).1 refl (λ e. cc e) corner-All refl) in
    let h₄ : Happens debug both_called = then_ h₃ (sends_runner init refl) in
    let h₅ : Happens debug runner_busy = then_ h₄ (runner_takes init refl refl (λ e. cc e)) in
    let h₆ : Happens debug runner_done = then_ h₅ (
      runner_answers init (pos 7) runner_busy.hunter (Runner.init (context runner_busy) (pos 7)).0
        (Runner.init (context runner_busy) (pos 7)).1 refl middle-IsInGrid refl) in
    then_ h₆ (returns refl refl refl)

begun-sent : begun.system.sent ≡ init ∷ []
unfolding opened begin_send
begun-sent = refl

Happens-IsPicture_example :
    (fs : List Filled) × (on_draw
        (λ f. ok tt)
        (pos 1000)
        (pos 600)
        begun.hc.grid
        (layout 0 begun.hunter begun.runners)
      ≡ ok (background (pos 1000) (pos 600) ∷ fs))
    × IsPicture begun.hc.grid (layout 0 begun.hunter begun.runners) fs
    × AreInWindow fs
Happens-IsPicture_example =
    Happens-IsPicture debug (λ f. ok tt) (pos 1000) (pos 600) 0 (λ f. refl) begun-Happens refl
      (λ e. cc (e, begun-sent))

called-Happens : Happens release called
unfolding opened
called-Happens =
    then_
      (opens one_block zeros grid pointers space large one_block-AreInside
        (init-plan one_block zeros large one_block-AreInside).1 refl)
      (sends_init refl refl)

called-sent : called.system.sent ≡ init ∷ []
unfolding opened begin_send
called-sent = refl

Happens-Frees_example : (w : World) × Frees called w
Happens-Frees_example = Happens-Frees called-Happens (λ s before e n. cc (e, called-sent, n))

-- The button "Container modifies grid", after the start.
abbrev pressed : World
pressed = record begun { system = begin_send modify_grid begun.system }

pressed-Happens : Happens debug pressed
unfolding opened begin_send
pressed-Happens =
    then_ begun-Happens (presses modify_grid refl (λ e. cc (e, begun-sent)) (inr refl))

pressed-sent : pressed.system.sent ≡ modify_grid ∷ init ∷ []
unfolding opened begin_send
pressed-sent = refl

Happens-IsStuck_example : IsStuck pressed
Happens-IsStuck_example = Happens-IsStuck debug (init ∷ []) pressed-Happens pressed-sent
