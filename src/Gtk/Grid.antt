-- ===== src/Gtk/Grid.antt =====
-- The host's view of the read-only buffer: `Grid` of rust/gtk/src/bin/host.rs.
-- The buffer is the list of the bit patterns of its `i32`s. The random positions
-- that `init` and `modify` draw are arguments.
pub mod Cells
pub mod Init
pub mod Modify
use wasm_shared_buffers.Base.{
  ◌-◌, ℕ, zero, suc, ◌+◌, ◌*◌, ◌≤◌, ◌<◌, ◌≡◌, refl, sym, ap, ◌∙◌, ◌≢◌, ◌⊎◌, inl, inr, true, false,
  ◌&&◌, List, [], ◌∷◌, arith, ◌==◌, if◌then◌else◌, ==_iff, Bool-cases, length, get_or, Run, ok,
  panic, index, ◌>>=◌, item,
}
use wasm_shared_buffers.Int.{
  ℤ, pos, negsuc, pos_part, neg_part, sub_ℕ, ◌+ℤ◌, ◌-ℤ◌, ◌*ℤ◌, ltb_ℤ, as_i32, as_usize, Profile,
  debug, release, overflows, wrap, fit, saturating_add, abs_i32, rem3, fit-ok, as_usize-as_i32,
  as_i32-low,
}

abbrev pub grid_w : ℕ
grid_w = 50

unfoldable pub set_item : List ℕ → ℕ → ℕ → Run (List ℕ)
set_item [] i v = panic index
set_item (a ∷ d) zero v = ok (v ∷ d)
set_item (a ∷ d) (suc i) v = do d' ← set_item d i v; ok (a ∷ d')

-- `self.data[(y * GRID_W + x) as usize]`; the code calls it on positions in the grid.
unfoldable pub get : List ℕ → ℕ → ℕ → Run ℕ
get d x y = item d (y * grid_w + x)

unfoldable pub set : List ℕ → ℕ → ℕ → ℕ → Run (List ℕ)
set d x y v = set_item d (y * grid_w + x) v

abbrev pub grid_h : ℕ
grid_h = 30

-- The first loop of `init`: `n` columns from `x` on.
unfoldable pub top_and_bottom : (n x : ℕ) → List ℕ → Run (List ℕ)
top_and_bottom zero x d = ok d
top_and_bottom (suc n) x d = do
  d₁ ← set d x 0 1
  d₂ ← set d₁ x (grid_h - 1) 1
  top_and_bottom n (suc x) d₂

-- The loop over the inside of a row: `n` columns from `x` on.
unfoldable pub clear_row : (n x y : ℕ) → List ℕ → Run (List ℕ)
clear_row zero x y d = ok d
clear_row (suc n) x y d = do d₁ ← set d x y 0; clear_row n (suc x) y d₁

-- The second loop of `init`: `n` rows from `y` on.
unfoldable pub rows : (n y : ℕ) → List ℕ → Run (List ℕ)
rows zero y d = ok d
rows (suc n) y d = do
  d₁ ← set d 0 y 1
  d₂ ← set d₁ (grid_w - 1) y 1
  d₃ ← clear_row (grid_w - 2) 1 y d₂
  rows n (suc y) d₃

-- The third loop of `init`, over the positions that its rounds draw.
unfoldable pub blocks : List (ℕ × ℕ) → List ℕ → Run (List ℕ)
blocks [] d = ok d
blocks ((x, y) ∷ draws) d = do d₁ ← set d x y 1; blocks draws d₁

unfoldable pub init : List (ℕ × ℕ) → List ℕ → Run (List ℕ)
init draws d = do d₁ ← top_and_bottom grid_w 0 d; d₂ ← rows (grid_h - 2) 1 d₁; blocks draws d₂

-- `1 - v` on an `i32`.
unfoldable pub flip : Profile → ℕ → Run ℕ
flip p v = do i ← fit p (pos 1 -ℤ as_i32 v); ok (as_usize i)

-- The loop of `modify`, over the positions that its rounds draw.
unfoldable pub modify : Profile → List (ℕ × ℕ) → List ℕ → Run (List ℕ)
modify p [] d = ok d
modify p ((x, y) ∷ draws) d = do v ← get d x y; u ← flip p v; d₁ ← set d x y u; modify p draws d₁

-- A cell of a buffer after the value is set there; the others, and the size, are kept.
pub record Writes (d d' : List ℕ) (i v : ℕ) : Type 0 where
  pub size : length d' ≡ length d
  pub there : get_or d' i 0 ≡ v
  pub elsewhere : (j : ℕ) → i ≢ j → get_or d' j 0 ≡ get_or d j 0

pub set_item-Writes :
    (d : List ℕ) (i v : ℕ)
    → i < length d
    → (d' : List ℕ) × (set_item d i v ≡ ok d') × Writes d d' i v
unfolding set_item
set_item-Writes [] i v h = absurd (omega arith)
set_item-Writes (a ∷ d) zero v h =
    (v ∷ d, refl, record { size = refl; there = refl; elsewhere = away })
  where
    away : (j : ℕ) → 0 ≢ j → get_or (v ∷ d) j 0 ≡ get_or (a ∷ d) j 0
    away zero n = absurd (n refl)
    away (suc j) n = refl
set_item-Writes (a ∷ d) (suc i) v h =
    let (d', e, s) = set_item-Writes d i v (omega arith) in
    (
      a ∷ d',
      rw e,
      record { size = ap suc s.size; there = s.there; elsewhere = away d' s.elsewhere },
    )
  where
    away :
        (d' : List ℕ)
        → ((j : ℕ) → i ≢ j → get_or d' j 0 ≡ get_or d j 0)
        → (j : ℕ) → suc i ≢ j
        → get_or (a ∷ d') j 0 ≡ get_or (a ∷ d) j 0
    away d' f zero n = refl
    away d' f (suc j) n = f j (λ e. n (ap suc e))

-- Two positions of the grid are one cell only if they are equal.
pub same_cell :
    (x y x' y' : ℕ)
    → x < 50
    → x' < 50
    → ((y * 50 + x ≡ y' * 50 + x') × ((x == x' && y == y') ≡ true))
      ⊎ ((y * 50 + x ≢ y' * 50 + x') × ((x == x' && y == y') ≡ false))
same_cell x y x' y' h k = elim (Bool-cases (x == x')) [
  | inl e ↦
      let same = (==_iff x x').0 e in
      elim (Bool-cases (y == y')) [
        | inl f ↦ let level = (==_iff y y').0 f in inl (omega arith, rw (e, f))
        | inr f ↦ inr ((λ w. apart y y' f (omega arith)), rw (e, f))
      ]
  | inr e ↦ inr ((λ w. apart x x' e (omega arith)), rw e)
]
  where
    apart : (a b : ℕ) → (a == b) ≡ false → a ≡ b → ⊥
    apart a b e w = ground arith

pub item-get_or : (d : List ℕ) (i : ℕ) → i < length d → item d i ≡ ok (get_or d i 0)
item-get_or [] i h = absurd (omega arith)
item-get_or (a ∷ d) zero h = refl
item-get_or (a ∷ d) (suc i) h = item-get_or d i (omega arith)

-- On a buffer of at least 30 times 50 cells, `set` at a position of the grid succeeds and keeps the
-- size; `get` then reads the new value there, and what it read before at every other position.
pub get-set :
    (d : List ℕ) (x y v x' y' : ℕ)
    → 1500 ≤ length d
    → x < 50
    → y < 30
    → x' < 50
    → y' < 30
    → (d' : List ℕ) × (set d x y v ≡ ok d')
      × (length d' ≡ length d)
      × (get d' x' y' ≡ (if x == x' && y == y' then ok v else get d x' y'))
unfolding get set
get-set d x y v x' y' h hx hy hx' hy' =
    let (d', e, s) = set_item-Writes d (y * 50 + x) v (omega arith) in
    (
      d',
      e,
      s.size,
      item-get_or d' (y' * 50 + x') (omega (arith, s.size)) ∙ elim (same_cell x y x' y' hx hx') [
        | inl (i, t) ↦ rw (t, sym i) (ap ok s.there)
        | inr (n, t) ↦ rw t (
            ap ok (s.elsewhere (y' * 50 + x') n) ∙ sym (item-get_or d (y' * 50 + x') (omega arith)))
      ],
    )
