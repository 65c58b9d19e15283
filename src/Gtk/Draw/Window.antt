-- ===== src/Gtk/Draw/Window.antt =====
-- The picture that `on_draw` makes.
use wasm_shared_buffers.Base.{
  ℕ, zero, suc, ◌+◌, ◌*◌, ◌≤◌, ◌<◌, ◌≡◌, refl, sym, ap, inl, inr, List, [], ◌∷◌, ◌++◌, arith, ◌==◌,
  if◌then◌else◌, Bool-cases, length, All, Run, ok,
}
use wasm_shared_buffers.Int.{ℤ, pos, ◌+ℤ◌, ◌*ℤ◌}
use wasm_shared_buffers.Gtk.State.{State}
use wasm_shared_buffers.Gtk.Actor.{n_runners}
use wasm_shared_buffers.Gtk.Actors.{Position, hunter_position, runner}
use wasm_shared_buffers.Gtk.Context.Shown.{IsShown, IsShownInside}
use wasm_shared_buffers.Gtk.Grid.Cells.{cell, get-cell}
use wasm_shared_buffers.Gtk.Draw.{
  Shape, rectangle, arc, Filled, background, square, block_at, block_colour, Colour, hunter_colour,
  disc, paint, draw_cell, draw_row, draw_rows, draw_runners, on_draw,
}

-- The positions of `n` columns of a row, and of `n` rows.
abbrev pub row_cells : (n x y : ℕ) → List (ℕ × ℕ)
row_cells zero x y = []
row_cells (suc n) x y = (x, y) ∷ row_cells n (suc x) y

abbrev pub grid_cells : (n y : ℕ) → List (ℕ × ℕ)
grid_cells zero y = []
grid_cells (suc n) y = row_cells 50 0 y ++ grid_cells n (suc y)

-- The blocks among the positions.
abbrev pub blocks_of : List ℕ → List (ℕ × ℕ) → List Filled
blocks_of d [] = []
blocks_of d ((x, y) ∷ cs) =
    if cell d x y == 1 then block_at x y ∷ blocks_of d cs else blocks_of d cs

-- The shape is in the window of 50 times 30 squares of 20 pixels.
pub data IsInWindow : Shape → Type 0 where
  in_rectangle :
      {x y w h : ℕ}
      → x + w ≤ 1000
      → y + h ≤ 600
      → IsInWindow (rectangle (pos x) (pos y) (pos w) (pos h))
  in_disc :
      {x y r : ℕ}
      → r ≤ x
      → x + r ≤ 1000
      → r ≤ y
      → y + r ≤ 600
      → IsInWindow (arc (pos x) (pos y) (pos r))

scaled : (n : ℕ) → pos n *ℤ pos 20 ≡ pos (n * 20)
unfolding ◌*ℤ◌
scaled n = ground arith

centred : (n : ℕ) → pos n *ℤ pos 20 +ℤ pos 10 ≡ pos (n * 20 + 10)
unfolding ◌+ℤ◌
centred n = rw (scaled n) (ground arith)

blocks_of-append :
    (d : List ℕ) (as_ bs : List (ℕ × ℕ))
    → blocks_of d (as_ ++ bs) ≡ blocks_of d as_ ++ blocks_of d bs
blocks_of-append d [] bs = refl
blocks_of-append d ((x, y) ∷ as_) bs = elim (Bool-cases (cell d x y == 1)) [
  | inl e ↦ rw e (ap (λ fs. block_at x y ∷ fs) (blocks_of-append d as_ bs))
  | inr e ↦ rw e (blocks_of-append d as_ bs)
]

module _ (fill : Filled → Run (Unit {0})) (fills : (f : Filled) → fill f ≡ ok tt) where
  paint_one : (f : Filled) → paint fill f ≡ ok (f ∷ [])
  unfolding paint
  paint_one f = rw (fills f) refl

  module _ (d : List ℕ) (large : 1500 ≤ length d) where
    draw_cell-blocks_of :
        (x y : ℕ) → x < 50 → y < 30 → draw_cell fill d x y ≡ ok (blocks_of d ((x, y) ∷ []))
    unfolding draw_cell
    draw_cell-blocks_of x y hx hy =
        rw (get-cell d x y large hx hy) (elim (Bool-cases (cell d x y == 1)) [
          | inl e ↦ rw e (paint_one (block_at x y))
          | inr e ↦ rw e refl
        ])

    draw_row-blocks_of :
        (n x y : ℕ)
        → x + n ≤ 50
        → y < 30
        → draw_row fill n x y d ≡ ok (blocks_of d (row_cells n x y))
    unfolding draw_row
    draw_row-blocks_of zero x y h hy = refl
    draw_row-blocks_of (suc n) x y h hy =
        rw
          (
            draw_cell-blocks_of x y (omega arith) hy,
            draw_row-blocks_of n (suc x) y (omega arith) hy,
          )
          (ap ok (sym (blocks_of-append d ((x, y) ∷ []) (row_cells n (suc x) y))))

    draw_rows-blocks_of :
        (n y : ℕ) → y + n ≤ 30 → draw_rows fill n y d ≡ ok (blocks_of d (grid_cells n y))
    unfolding draw_rows
    draw_rows-blocks_of zero y h = refl
    draw_rows-blocks_of (suc n) y h =
        rw
          (
            draw_row-blocks_of 50 0 y (omega arith) (omega arith),
            draw_rows-blocks_of n (suc y) (omega arith),
          )
          (ap ok (sym (blocks_of-append d (row_cells 50 0 y) (grid_cells n (suc y)))))

-- The discs of the runners from the index `i` on.
pub data Discs (data_ : List ℕ) : ℕ → List Filled → Type 0 where
  last : {i : ℕ} → Discs data_ i []
  next :
      {i : ℕ} {fs : List Filled} {q : Position} {s : State}
      → runner data_ i ≡ ok (q, s)
      → Discs data_ (suc i) fs
      → Discs data_ i (disc q s ∷ fs)

abbrev pub AreInWindow : List Filled → Type 0
AreInWindow = All (λ f. IsInWindow f.shape)

disc-IsInWindow : (q : Position) (s : State) → IsShownInside q → IsInWindow (disc q s).shape
unfolding disc
disc-IsInWindow q s (x, y, e, i) =
    rw (e, centred x, centred y)
      (in_disc (omega arith) (omega (arith, i.across.1)) (omega arith) (omega (arith, i.down.1)))

square-IsInWindow :
    (c : Colour) (x y : ℕ)
    → x < 50
    → y < 30
    → IsInWindow (square c (record { x = pos x; y = pos y })).shape
unfolding square
square-IsInWindow c x y hx hy = rw (scaled x, scaled y) (in_rectangle (omega arith) (omega arith))

AreInWindow-append :
    (fs gs : List Filled) → AreInWindow fs → AreInWindow gs → AreInWindow (fs ++ gs)
AreInWindow-append [] gs a b = b
AreInWindow-append (f ∷ fs) gs (i, a) b = (i, AreInWindow-append fs gs a b)

row-AreInWindow :
    (d : List ℕ) (n x y : ℕ) → x + n ≤ 50 → y < 30 → AreInWindow (blocks_of d (row_cells n x y))
row-AreInWindow d zero x y h hy = tt
row-AreInWindow d (suc n) x y h hy =
    let rest = row-AreInWindow d n (suc x) y (omega arith) hy in
    elim (Bool-cases (cell d x y == 1)) [
      | inl e ↦ rw e (square-IsInWindow block_colour x y (omega arith) hy, rest)
      | inr e ↦ rw e rest
    ]

grid-AreInWindow : (d : List ℕ) (n y : ℕ) → y + n ≤ 30 → AreInWindow (blocks_of d (grid_cells n y))
grid-AreInWindow d zero y h = tt
grid-AreInWindow d (suc n) y h = rw (blocks_of-append d (row_cells 50 0 y) (grid_cells n (suc y))) (
    AreInWindow-append (blocks_of d (row_cells 50 0 y)) (blocks_of d (grid_cells n (suc y)))
      (row-AreInWindow d 50 0 y (omega arith) (omega arith))
      (grid-AreInWindow d n (suc y) (omega arith)))

-- The picture of a grid and the actors: the blocks row by row, the hunter, and the runners.
pub record IsPicture (d data_ : List ℕ) (fs : List Filled) : Type 0 where
  pub hunter : Position
  pub discs : List Filled
  pub seen : hunter_position data_ ≡ ok hunter
  pub runners : Discs data_ 0 discs
  pub all : length discs ≡ n_runners
  pub order : fs ≡ blocks_of d (grid_cells 30 0) ++ (square hunter_colour hunter ∷ discs)

module _ (fill : Filled → Run (Unit {0})) (fills : (f : Filled) → fill f ≡ ok tt) where
  draw_runners-Discs :
      (data_ : List ℕ) (n i total : ℕ)
      → IsShown data_ total
      → i + n ≤ total
      → (fs : List Filled) × (draw_runners fill n i data_ ≡ ok fs)
        × Discs data_ i fs
        × (length fs ≡ n)
        × AreInWindow fs
  unfolding draw_runners
  draw_runners-Discs data_ zero i total shown h = ([], refl, last, refl, tt)
  draw_runners-Discs data_ (suc n) i total shown h =
      let (q, s, e, inside) = shown.runners i (omega arith) in
      let (fs, f, discs, size, all) =
        draw_runners-Discs data_ n (suc i) total shown (omega arith) in
      (
        disc q s ∷ fs,
        rw (e, paint_one fill fills (disc q s), f) refl,
        next e discs,
        ap suc size,
        (disc-IsInWindow q s inside, all),
      )

  hunter-IsInWindow : (q : Position) → IsShownInside q → IsInWindow (square hunter_colour q).shape
  hunter-IsInWindow q (x, y, e, i) =
      rw e
        (square-IsInWindow hunter_colour x y (omega (arith, i.across.1)) (omega (arith, i.down.1)))

  -- On a buffer of at least 30 times 50 cells and actors that the host reads inside the wall,
  -- `on_draw` succeeds when all calls of `fill` do. It fills the background first; then a square
  -- for each cell that is 1, row by row, then the hunter, and then one disc for each of the 15
  -- runners, in the colour of its state; and all of these are in the window of the grid.
  pub on_draw-IsPicture :
      (width height : ℤ) (d data_ : List ℕ)
      → 1500 ≤ length d
      → IsShown data_ n_runners
      → (fs : List Filled) × (on_draw fill width height d data_ ≡ ok (background width height ∷ fs))
        × IsPicture d data_ fs
        × AreInWindow fs
  unfolding on_draw
  on_draw-IsPicture width height d data_ large shown =
      let (q, e, inside) = shown.hunter in
      let (ks, f, discs, size, all) =
        draw_runners-Discs data_ n_runners 0 n_runners shown (omega arith) in
      let blocks = draw_rows-blocks_of fill fills d large 30 0 (omega arith) in
      (
        blocks_of d (grid_cells 30 0) ++ (square hunter_colour q ∷ ks),
        rw
            (
              paint_one fill fills (background width height),
              blocks,
              e,
              paint_one fill fills (square hunter_colour q),
              f,
            )
            refl,
        record { hunter = q; discs = ks; seen = e; runners = discs; all = size; order = refl },
        AreInWindow-append (blocks_of d (grid_cells 30 0)) (square hunter_colour q ∷ ks)
            (grid-AreInWindow d 30 0 (omega arith)) (hunter-IsInWindow q inside, all),
      )
