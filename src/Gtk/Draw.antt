-- ===== src/Gtk/Draw.antt =====
-- What the host draws: `on_draw` of rust/gtk/src/bin/host.rs.
-- A coordinate is an integer: the code scales integers by 20 as `f64`s, which is exact. A colour is
-- in hundredths. `fill` is the outcome of `cr.fill().unwrap()`; the result is what was filled.
pub mod Window
use wasm_shared_buffers.Base.{
  ℕ, zero, suc, ◌+◌, ◌-◌, ◌*◌, ◌/◌, ◌%◌, ◌^◌, ◌≤◌, ◌<◌, ◌≡◌, refl, sym, ap, ◌∙◌, ◌≢◌, ◌↔◌, ◌⊎◌, inl,
  inr, Bool, true, false, not, ◌&&◌, ◌||◌, Option, none, some, List, [], ◌∷◌, ◌++◌, arith, ltb, leb,
  ◌==◌, if◌then◌else◌, le→leb, lt→ltb, ltb→lt, leb→le, ==_iff, Bool-cases, Option-cases, length,
  get_elem?, get_or, take, drop, replicate, All, Run, ok, panic, overflow, explicit, index,
  assertion, ◌>>=◌, ◌>>◌, check, assert, item, >>=-eq-ok, length-replicate, length-append,
}
use wasm_shared_buffers.Int.{
  ℤ, pos, negsuc, pos_part, neg_part, sub_ℕ, ◌+ℤ◌, ◌-ℤ◌, ◌*ℤ◌, ltb_ℤ, as_i32, as_usize, Profile,
  debug, release, overflows, wrap, fit, saturating_add, abs_i32, rem3, fit-ok, as_usize-as_i32,
  as_i32-low,
}
use wasm_shared_buffers.Gtk.State.{State, walking, running, dead}
use wasm_shared_buffers.Gtk.Actor.{n_runners}
use wasm_shared_buffers.Gtk.Actors.{Position, hunter_position, runner}
use wasm_shared_buffers.Gtk.Grid.{get, grid_w, grid_h}

pub data Shape : Type 0 where
  rectangle : (x y width height : ℤ) → Shape
  arc : (xc yc radius : ℤ) → Shape

pub record Colour : Type 0 where
  pub red : ℕ
  pub green : ℕ
  pub blue : ℕ

pub record Filled : Type 0 where
  pub colour : Colour
  pub shape : Shape

abbrev pub scale : ℤ
scale = pos 20

abbrev pub hscale : ℤ
hscale = pos 10

abbrev pub background : (width height : ℤ) → Filled
background width height = record {
  colour = record { red = 100; green = 100; blue = 95 };
  shape = rectangle (pos 0) (pos 0) width height;
}

-- The square of a cell of the grid.
unfoldable pub square : Colour → Position → Filled
square c q = record { colour = c; shape = rectangle (q.x *ℤ scale) (q.y *ℤ scale) scale scale }

abbrev pub block_colour : Colour
block_colour = record { red = 30; green = 30; blue = 30 }

abbrev pub hunter_colour : Colour
hunter_colour = record { red = 80; green = 50; blue = 90 }

abbrev pub block_at : ℕ → ℕ → Filled
block_at x y = square block_colour (record { x = pos x; y = pos y })

unfoldable pub state_colour : State → Colour
state_colour walking = record { red = 50; green = 80; blue = 90 }
state_colour running = record { red = 100; green = 80; blue = 50 }
state_colour dead = record { red = 100; green = 40; blue = 40 }

unfoldable pub disc : Position → State → Filled
disc q s = record {
  colour = state_colour s;
  shape = arc (q.x *ℤ scale +ℤ hscale) (q.y *ℤ scale +ℤ hscale) hscale;
}

module _ (fill : Filled → Run (Unit {0})) where
  unfoldable pub paint : Filled → Run (List Filled)
  paint f = do u ← fill f; ok (f ∷ [])

  unfoldable pub draw_cell : List ℕ → ℕ → ℕ → Run (List Filled)
  draw_cell grid x y = do v ← get grid x y; if v == 1 then paint (block_at x y) else ok []

  -- `n` columns from `x` on.
  unfoldable pub draw_row : (n x y : ℕ) → List ℕ → Run (List Filled)
  draw_row zero x y grid = ok []
  draw_row (suc n) x y grid = do
    fs ← draw_cell grid x y
    gs ← draw_row n (suc x) y grid
    ok (fs ++ gs)

  -- `n` rows from `y` on.
  unfoldable pub draw_rows : (n y : ℕ) → List ℕ → Run (List Filled)
  draw_rows zero y grid = ok []
  draw_rows (suc n) y grid = do
    fs ← draw_row grid_w 0 y grid
    gs ← draw_rows n (suc y) grid
    ok (fs ++ gs)

  -- `n` runners from the index `i` on.
  unfoldable pub draw_runners : (n i : ℕ) → List ℕ → Run (List Filled)
  draw_runners zero i data_ = ok []
  draw_runners (suc n) i data_ = do
    (q, s) ← runner data_ i
    fs ← paint (disc q s)
    gs ← draw_runners n (suc i) data_
    ok (fs ++ gs)

  unfoldable pub on_draw : (width height : ℤ) → (grid data_ : List ℕ) → Run (List Filled)
  on_draw width height grid data_ = do
    fs ← paint (background width height)
    gs ← draw_rows grid_h 0 grid
    q ← hunter_position data_
    hs ← paint (square hunter_colour q)
    ks ← draw_runners n_runners 0 data_
    ok (fs ++ (gs ++ (hs ++ ks)))
