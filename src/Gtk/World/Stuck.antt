-- ===== src/Gtk/World/Stuck.antt =====
-- The button "Container modifies grid" of rust/gtk/src/bin/host.rs: the hunter's container faults and
-- does not answer.
use wasm_shared_buffers.Base.{◌≡◌, sym, ap, ◌∙◌, ◌≢◌, List, ◌∷◌}
use wasm_shared_buffers.Int.{Profile}
use wasm_shared_buffers.Gtk.State.{Signal, idle, modify_grid, signal_code}
use wasm_shared_buffers.Gtk.Protocol.{Party, working, ready, polling, ended, after}
use wasm_shared_buffers.Gtk.Protocol.Order.{
  IsInStep, done, called, busy, Reach-Inv, code_inj, after-polling, sending_last,
}
use wasm_shared_buffers.Gtk.World.{
  World, WorldStep, sends_init, ticks, clicks, presses, drops, sends_runner, returns, hunter_takes,
  runner_takes, hunter_answers, hunter_modifies, runner_answers, Happens, opens, then_, begin_send,
  taken_by, answered, opened,
}
use wasm_shared_buffers.Gtk.World.Kept.{IsKept, Happens-IsKept, hunter_modify_grid-IsKept}

-- The host is in its call, and the hunter's byte is that of `modify_grid`.
pub record IsStuck (w : World) : Type 0 where
  pub waits : w.system.phase ≢ ready
  pub runs : w.system.phase ≢ ended
  pub byte : w.system.hunter.byte ≡ signal_code modify_grid

-- What a container works on stands in its byte.
works_on :
    {a : Party} (phase : _) (sent : List Signal) (s : Signal)
    → IsInStep phase sent a
    → a.pc ≡ working s
    → a.byte ≡ signal_code s
works_on phase sent s (done e p k) w = absurd (cc (w, p))
works_on phase sent s (called t l m e p k) w = absurd (cc (w, p))
works_on phase sent s (busy t l m e p k) w = let same : t ≡ s = cc (w, p) in e ∙ ap signal_code same

abbrev LastFaults : World → Type 0
LastFaults w = (before : List Signal) → w.system.sent ≡ modify_grid ∷ before → IsStuck w

WorldStep-LastFaults :
    (p : Profile) {w w' : World} → WorldStep p w w' → IsKept w → LastFaults w → LastFaults w'
unfolding begin_send taken_by answered
WorldStep-LastFaults p (sends_init f none) k h before e = absurd (cc e)
WorldStep-LastFaults p (ticks draws hc' f more all run) k h before e = absurd (cc e)
WorldStep-LastFaults p (clicks f) k h before e =
    let i = h before e in record { waits = i.waits; runs = i.runs; byte = i.byte }
WorldStep-LastFaults p (presses s f more b) k h before e =
    let same : s ≡ modify_grid = cc e in
    record { waits = λ q. cc q; runs = λ q. cc q; byte = ap signal_code same }
WorldStep-LastFaults p (drops f more) k h before e = absurd (cc e)
WorldStep-LastFaults p (sends_runner s f) k h before e =
    let i = h before e in
    let (_, last) = sending_last s (Reach-Inv k.reach) f in
    let waits_ : after s ≡ polling = after-polling s (λ q. cc (q, last, e)) in
    record { waits = λ q. cc (waits_, q); runs = λ q. cc (waits_, q); byte = i.byte }
WorldStep-LastFaults p (returns f a b) k h before e =
    let i = h before e in
    let same : idle ≡ modify_grid = code_inj idle modify_grid (sym a ∙ i.byte) in absurd (cc same)
WorldStep-LastFaults p (hunter_takes s at byte n) k h before e =
    let i = h before e in record { waits = i.waits; runs = i.runs; byte = i.byte }
WorldStep-LastFaults p (runner_takes s at byte n) k h before e =
    let i = h before e in record { waits = i.waits; runs = i.runs; byte = i.byte }
WorldStep-LastFaults p {w = w} (hunter_answers s seed seen ctx v at n on_grid run) k h before e =
    let i = h before e in
    let inv = Reach-Inv k.reach in
    let same : s ≡ modify_grid =
      code_inj s modify_grid
        (sym (works_on w.system.phase w.system.sent s inv.hunter at) ∙ i.byte) in
    absurd (n same)
WorldStep-LastFaults p {w = w} (hunter_modifies space' at run) k h before e =
    let fault = hunter_modify_grid-IsKept w k in absurd (cc (run, fault))
WorldStep-LastFaults p (runner_answers s seed seen ctx v at on_grid run) k h before e =
    let i = h before e in record { waits = i.waits; runs = i.runs; byte = i.byte }

Happens-LastFaults : (p : Profile) {w : World} → Happens p w → LastFaults w
unfolding opened
Happens-LastFaults p (opens draws ro grid pointers space large all run page) before e =
    absurd (cc e)
Happens-LastFaults p (then_ h s) before e =
    WorldStep-LastFaults p s (Happens-IsKept p h) (Happens-LastFaults p h) before e

-- In every world that the program reaches, in either build, with the grid's page mapped for the hunter's
-- container as `map_buffer` maps a read-only buffer: from the moment when the host sends
-- `modify_grid`, its call of `send_signal` has not returned, and the hunter's byte is still that signal.
pub Happens-IsStuck :
    (p : Profile) {w : World} (before : List Signal)
    → Happens p w
    → w.system.sent ≡ modify_grid ∷ before
    → IsStuck w
Happens-IsStuck p before h e = Happens-LastFaults p h before e
