-- ===== src/Gtk/Actor/Within.antt =====
-- An actor that `move_by` has moved is in the grid.
use wasm_shared_buffers.Int.{sub_ℕ, as_i32, as_usize, saturating_add, ◌+ℤ◌}
use wasm_shared_buffers.Base.{
  ℕ, zero, suc, ◌+◌, ◌-◌, ◌<◌, ◌≡◌, refl, Bool, true, false, ◌||◌, [], ◌∷◌, arith, ltb, leb,
  if◌then◌else◌, length, get_or, All,
}
use wasm_shared_buffers.Gtk.Actor.{GridType, is_off, target, step}
use wasm_shared_buffers.Gtk.Actor.Move.{Lands, stays, moves}
use wasm_shared_buffers.Gtk.Hunter.Distance.{IsInGrid}

-- 30 rows of 50 cells.
pub record IsGrid (grid : GridType) : Type 0 where
  pub rows : length grid ≡ 30
  pub columns : All (λ row. length row ≡ 50) grid

row_length :
    (grid : GridType) (y : ℕ)
    → All (λ row. length row ≡ 50) grid
    → y < length grid
    → length (get_or grid y []) ≡ 50
row_length [] y a h = absurd (omega arith)
row_length (row ∷ rows) zero (e, a) h = e
row_length (row ∷ rows) (suc y) (e, a) h = row_length rows y a (omega arith)

or-false : (a b : Bool) → (a || b) ≡ false → (a ≡ false) × (b ≡ false)
or-false true b e = absurd (cc e)
or-false false b e = (refl, e)

leb-false : (a b : ℕ) → leb a b ≡ false → b < a
leb-false a b e = ground arith

lt-leb : (a b : ℕ) → b < a → leb a b ≡ false
lt-leb a b e = ground arith

pub is_off-IsInGrid :
    (grid : GridType) (x y : ℕ) → IsGrid grid → is_off grid x y ≡ false → IsInGrid x y
unfolding is_off
is_off-IsInGrid grid x y g e =
    let (low, left) = or-false (leb (length grid) y) (leb (length (get_or grid y [])) x) e in
    let down = leb-false (length grid) y low in
    let across = leb-false (length (get_or grid y [])) x left in
    let wide = row_length grid y g.columns down in
    record { across = omega (arith, across, wide); down = omega (arith, down, g.rows) }

pub Lands-IsInGrid :
    {grid : GridType} {x y : ℕ} {to : ℕ × ℕ}
    → IsGrid grid
    → IsInGrid x y
    → Lands grid x y to
    → IsInGrid to.0 to.1
Lands-IsInGrid g i stays = i
Lands-IsInGrid {grid = grid} g i (moves {tx = tx} {ty = ty} e d) = is_off-IsInGrid grid tx ty g e

pub IsInGrid-is_off :
    (grid : GridType) (x y : ℕ) → IsGrid grid → IsInGrid x y → is_off grid x y ≡ false
unfolding is_off
IsInGrid-is_off grid x y g i =
    let down : y < length grid = omega (arith, g.rows, i.down) in
    let wide = row_length grid y g.columns down in
    rw (
      lt-leb (length grid) y down,
      lt-leb (length (get_or grid y [])) x (omega (arith, wide, i.across)),
    )

-- One step from `a` to `b`.
abbrev pub toward : ℕ → ℕ → ℕ
toward a b = if ltb a b then a + 1 else if ltb b a then a - 1 else a

pub target-step : (a b : ℕ) → a < 50 → b < 50 → target a (step (sub_ℕ b a)) ≡ toward a b
unfolding target step as_usize saturating_add as_i32 ◌+ℤ◌
target-step a b h k = ground arith
