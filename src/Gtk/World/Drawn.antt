-- ===== src/Gtk/World/Drawn.antt =====
-- What the host draws of the whole gtk program: `on_draw` of rust/gtk/src/bin/host.rs.
use wasm_shared_buffers.Base.{ℕ, ◌≡◌, refl, sym, ◌∙◌, ◌≢◌, List, [], ◌∷◌, Run, ok}
use wasm_shared_buffers.Int.{ℤ, Profile}
use wasm_shared_buffers.Gtk.Actor.{n_runners}
use wasm_shared_buffers.Gtk.Actors.{layout}
use wasm_shared_buffers.Gtk.Context.Shown.{IsShown-layout}
use wasm_shared_buffers.Gtk.Draw.{Filled, background, on_draw}
use wasm_shared_buffers.Gtk.Draw.Window.{IsPicture, AreInWindow, on_draw-IsPicture}
use wasm_shared_buffers.Gtk.Host.Pen.{ArePenned}
use wasm_shared_buffers.Gtk.Protocol.{waiting, Party, ready}
use wasm_shared_buffers.Gtk.Protocol.Order.{Reach-ready}
use wasm_shared_buffers.Gtk.World.{World, context, Happens}
use wasm_shared_buffers.Gtk.World.Kept.{Happens-IsKept}
use wasm_shared_buffers.Gtk.World.Taken.{Placed, not_called, first_call, placed}

-- A container that has answered all signals, at least one, has placed its actors.
all_answered :
    {a : Party} {P : Type 0} (sent : List _)
    → sent ≢ []
    → a.pc ≡ waiting
    → a.taken ≡ sent
    → Placed a P
    → P
all_answered sent more w k (not_called none p) = absurd (more (sym k ∙ none))
all_answered sent more w k (first_call p) = absurd (cc (w, p))
all_answered sent more w k (placed h) = h

ready-ArePenned :
    (p : Profile) {w : World}
    → Happens p w
    → w.system.phase ≡ ready
    → w.system.sent ≢ []
    → ArePenned w.hc.grid (context w)
unfolding context
ready-ArePenned p {w = w} h f more =
    let k = Happens-IsKept p h in
    let ((hp, hk), (rp, rk)) = Reach-ready k.reach f in
    record {
      grid = refl;
      hunter = all_answered w.system.sent more hp hk k.hunter;
      runners = all_answered w.system.sent more rp rk k.runner;
    }

-- In every world that the program reaches, in either build, after any clicks and ticks, and whatever
-- positions on the grid a module reads of the actors that the other one moves: whenever the host is
-- free after a first call of `send_signal`, `on_draw` succeeds if all calls of `fill` do. It paints
-- the background, and then the grid, the hunter and the 15 runners as they are in the buffers, all
-- inside the window.
pub Happens-IsPicture :
    (p : Profile) {w : World} (fill : Filled → Run (Unit {0})) (width height : ℤ) (sig : ℕ)
    → ((f : Filled) → fill f ≡ ok tt)
    → Happens p w
    → w.system.phase ≡ ready
    → w.system.sent ≢ []
    → (fs : List Filled) × (on_draw fill width height w.hc.grid (layout sig w.hunter w.runners)
        ≡ ok (background width height ∷ fs))
      × IsPicture w.hc.grid (layout sig w.hunter w.runners) fs
      × AreInWindow fs
unfolding context
Happens-IsPicture p {w = w} fill width height sig fills h f more =
    let k = Happens-IsKept p h in
    on_draw-IsPicture fill fills width height w.hc.grid (layout sig w.hunter w.runners)
      k.arena.binary.size
      (IsShown-layout w.hc.grid (context w) sig n_runners (ready-ArePenned p h f more) k.count)
