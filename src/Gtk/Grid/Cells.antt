-- ===== src/Gtk/Grid/Cells.antt =====
-- The cells of the grid after a `set`.
use wasm_shared_buffers.Base.{
  ℕ, ◌+◌, ◌*◌, ◌≤◌, ◌<◌, ◌≡◌, sym, ap, ◌∙◌, inl, inr, ◌&&◌, List, arith, ◌==◌, if◌then◌else◌,
  length, get_or, ok,
}
use wasm_shared_buffers.Gtk.Grid.{set, get, set_item-Writes, same_cell, item-get_or}

abbrev pub cell : List ℕ → ℕ → ℕ → ℕ
cell d x y = get_or d (y * 50 + x) 0

-- What a loop makes of the cells of the grid.
pub record Paints (d d' : List ℕ) (paint : ℕ → ℕ → ℕ → ℕ) : Type 0 where
  pub size : length d' ≡ length d
  pub cells : (x y : ℕ) → x < 50 → y < 30 → cell d' x y ≡ paint x y (cell d x y)

-- One cell gets a value.
abbrev pub dot : ℕ → ℕ → ℕ → ℕ → ℕ → ℕ → ℕ
dot x y v x' y' old = if x == x' && y == y' then v else old

pub set-Paints :
    (d : List ℕ) (x y v : ℕ)
    → 1500 ≤ length d
    → x < 50
    → y < 30
    → (d' : List ℕ) × (set d x y v ≡ ok d') × Paints d d' (dot x y v)
unfolding set
set-Paints d x y v h hx hy =
    let (d', e, s) = set_item-Writes d (y * 50 + x) v (omega arith) in
    (
      d',
      e,
      record {
        size = s.size;
        cells = λ x' y' hx' hy'. elim (same_cell x y x' y' hx hx') [
          | inl (i, t) ↦ rw (t, sym i) s.there
          | inr (n, t) ↦ rw t (s.elsewhere (y' * 50 + x') n)
        ];
      },
    )

pub get-cell :
    (d : List ℕ) (x y : ℕ) → 1500 ≤ length d → x < 50 → y < 30 → get d x y ≡ ok (cell d x y)
unfolding get
get-cell d x y h hx hy = item-get_or d (y * 50 + x) (omega arith)

-- One loop after another.
pub Paints-trans :
    (a b c : List ℕ) (f g k : ℕ → ℕ → ℕ → ℕ)
    → Paints a b f
    → Paints b c g
    → ((x y old : ℕ) → x < 50 → y < 30 → g x y (f x y old) ≡ k x y old)
    → Paints a c k
Paints-trans a b c f g k p q same = record {
  size = q.size ∙ p.size;
  cells =
      λ x y hx hy. q.cells x y hx hy ∙ ap (g x y) (p.cells x y hx hy) ∙ same x y (cell a x y) hx hy;
}
