-- ===== src/Gtk/Host/Arena.antt =====
-- The grid that the host keeps, from `HostContext::new` on.
use wasm_shared_buffers.Base.{
  ℕ, ◌≤◌, ◌<◌, ◌≡◌, refl, sym, ◌∙◌, Bool, true, false, ◌&&◌, ◌||◌, List, [], ◌∷◌, arith, ◌==◌,
  if◌then◌else◌, length, Run, ok, panic, ◌>>=◌,
}
use wasm_shared_buffers.Int.{Profile}
use mathlib.Core.Path.{subst}
use wasm_shared_buffers.Gtk.State.{init, tick}
use wasm_shared_buffers.Gtk.Signals.{send_signal}
use wasm_shared_buffers.Gtk.Grid.Cells.{cell, Paints}
use wasm_shared_buffers.Gtk.Grid.Init.{AreInside, plan, drawn, init-plan}
use wasm_shared_buffers.Gtk.Grid.Modify.{IsBinary, turned, modify-turned}
use wasm_shared_buffers.Gtk.Host.{
  HostContext, host_new, toggle_host_modify, modify_if_enabled, on_tick,
}

abbrev pub on_rim : ℕ → ℕ → Bool
on_rim x y = (x == 0 || x == 49) || (y == 0 || y == 29)

-- A wall around the grid, and inside cells that are 0 or 1.
pub record IsArena (d : List ℕ) : Type 0 where
  pub binary : IsBinary d
  pub walled : (x y : ℕ) → x < 50 → y < 30 → on_rim x y ≡ true → cell d x y ≡ 1

pub planned :
    (draws : List (ℕ × ℕ)) (d d' : List ℕ)
    → 1500 ≤ length d
    → Paints d d' (λ x y old. plan draws x y)
    → IsArena d'
planned draws d d' h p = record {
  binary = record {
    size = omega (arith, p.size);
    bits = λ x y hx hy. rw (p.cells x y hx hy) (bit (on_rim x y) (drawn draws x y));
  };
  walled = λ x y hx hy e. p.cells x y hx hy ∙ rw e refl;
}
  where
    bit : (a b : Bool) → (if a then 1 else if b then 1 else 0) ≤ 1
    bit true b = omega arith
    bit false true = omega arith
    bit false false = omega arith

-- A drawn position is not on the rim.
turned-rim :
    (draws : List (ℕ × ℕ)) (x y old : ℕ)
    → AreInside draws
    → on_rim x y ≡ true
    → turned draws x y old ≡ old
turned-rim [] x y old all e = refl
turned-rim ((a, b) ∷ draws) x y old (((la, ha), (lb, hb)), all) e =
    let other : (a == x && b == y) ≡ false = ground arith in
    rw other (turned-rim draws x y old all e)

pub turned-IsArena :
    (draws : List (ℕ × ℕ)) (d d' : List ℕ)
    → IsArena d
    → AreInside draws
    → Paints d d' (turned draws)
    → IsBinary d'
    → IsArena d'
turned-IsArena draws d d' i all p b = record {
  binary = b;
  walled = λ x y hx hy e.
      p.cells x y hx hy ∙ turned-rim draws x y (cell d x y) all e ∙ i.walled x y hx hy e;
}

-- The context after a start, and after any number of clicks and ticks.
pub data Session (p : Profile) : HostContext → Type 0 where
  started :
      {hc : HostContext}
      → (draws : List (ℕ × ℕ)) (bytes : ℕ → ℕ × ℕ) (shared_ro : List ℕ) → 1500 ≤ length shared_ro
      → AreInside draws
      → host_new draws bytes shared_ro ≡ ok hc
      → Session p hc
  clicked : {hc : HostContext} → Session p hc → Session p (toggle_host_modify hc)
  ticked :
      {hc hc' : HostContext}
      → (draws : List (ℕ × ℕ)) (bytes : ℕ → ℕ × ℕ) → Session p hc
      → AreInside draws
      → on_tick p draws bytes hc ≡ ok hc'
      → Session p hc'

-- A call that ends well after a wait has the result that it had before the wait.
after_wait : {A : Type 0} (r : Run (Unit {0})) (a b : A) → (r >>= (λ u. ok a)) ≡ ok b → a ≡ b
after_wait (ok u) a b e = cc e
after_wait (panic c) a b e = absurd (cc e)

-- What a tick makes of a cell.
abbrev pub ticked_cell : Bool → List (ℕ × ℕ) → ℕ → ℕ → ℕ → ℕ
ticked_cell enabled draws x y old = if enabled then turned draws x y old else old

-- The grid after `on_tick`, whose end the answer decides.
pub record Kept (p : Profile) (draws : List (ℕ × ℕ)) (bytes : ℕ → ℕ × ℕ) (hc hc' : HostContext)
    : Type 0 where
  pub run : on_tick p draws bytes hc ≡ ((send_signal tick true bytes).1 >>= (λ u. ok hc'))
  pub paints : Paints hc.grid hc'.grid (ticked_cell hc.enable_host_modify draws)
  pub is_arena : IsArena hc'.grid
  pub flag : hc'.enable_host_modify ≡ hc.enable_host_modify

tick-Kept :
    (p : Profile) (draws : List (ℕ × ℕ)) (bytes : ℕ → ℕ × ℕ) (enabled : Bool) (d : List ℕ)
    → IsArena d
    → AreInside draws
    → (hc' : HostContext) × Kept p draws bytes
        (record { grid = d; enable_host_modify = enabled })
        hc'
unfolding on_tick modify_if_enabled
tick-Kept p draws bytes true d i all =
    let (d', e, paints, b) = modify-turned p draws d i.binary all in
    (
      record { grid = d'; enable_host_modify = true },
      record {
        run = rw e refl;
        paints = paints;
        is_arena = turned-IsArena draws d d' i all paints b;
        flag = refl;
      },
    )
tick-Kept p draws bytes false d i all = (
  record { grid = d; enable_host_modify = false },
  record {
    run = refl;
    paints = record { size = refl; cells = λ x y hx hy. refl };
    is_arena = i;
    flag = refl;
  },
)

new_kept :
    (draws : List (ℕ × ℕ)) (bytes : ℕ → ℕ × ℕ) (ro : List ℕ)
    → 1500 ≤ length ro
    → AreInside draws
    → (d : List ℕ) × IsArena d
      × (host_new draws bytes ro ≡ (
          (send_signal init true bytes).1
          >>= (λ u. ok (record { grid = d; enable_host_modify = false }))))
unfolding host_new
new_kept draws bytes ro h all =
    let (d, run, paints) = init-plan draws ro h all in (d, planned draws ro d h paints, rw run refl)

pub Session-IsArena : {p : Profile} {hc : HostContext} → Session p hc → IsArena hc.grid
unfolding toggle_host_modify
Session-IsArena (started draws bytes ro h all e) =
    let (d, i, run) = new_kept draws bytes ro h all in
    let same = after_wait (send_signal init true bytes).1 _ _ (sym run ∙ e) in
    subst (λ c. IsArena c.grid) same i
Session-IsArena (clicked s) = Session-IsArena s
Session-IsArena (ticked {hc = hc} draws bytes s all e) =
    let (c, k) = tick-Kept _ draws bytes hc.enable_host_modify hc.grid (Session-IsArena s) all in
    let same = after_wait (send_signal tick true bytes).1 _ _ (sym k.run ∙ e) in
    subst (λ c. IsArena c.grid) same k.is_arena

-- After a start with a buffer of at least 30 times 50 cells, and any clicks and ticks, whose draws
-- are inside the wall, `on_tick` never fails on the grid: it ends as its `send_signal` does. The
-- grid keeps its wall and its cells stay 0 or 1; the drawn cells are turned when the button has
-- enabled it, and no cell changes otherwise.
pub on_tick-IsArena :
    (p : Profile) (hc : HostContext) (draws : List (ℕ × ℕ)) (bytes : ℕ → ℕ × ℕ)
    → Session p hc
    → AreInside draws
    → (hc' : HostContext) × Kept p draws bytes hc hc'
on_tick-IsArena p hc draws bytes s all =
    tick-Kept p draws bytes hc.enable_host_modify hc.grid (Session-IsArena s) all
