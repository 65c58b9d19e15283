-- ===== src/Gtk/Grid/Init.antt =====
-- `Grid::init` of rust/gtk/src/bin/host.rs draws a wall around the grid, and blocks inside.
use wasm_shared_buffers.Base.{
  ℕ, zero, suc, ◌+◌, ◌≤◌, ◌<◌, ◌≡◌, refl, Bool, true, false, ◌&&◌, ◌||◌, List, [], ◌∷◌, arith, ltb,
  leb, ◌==◌, if◌then◌else◌, length, All, ok,
}
use wasm_shared_buffers.Gtk.Grid.{top_and_bottom, clear_row, rows, blocks, init}
use wasm_shared_buffers.Gtk.Grid.Cells.{Paints, dot, set-Paints, Paints-trans}

-- The position is among the drawn ones.
abbrev pub drawn : List (ℕ × ℕ) → ℕ → ℕ → Bool
drawn [] x y = false
drawn ((a, b) ∷ draws) x y = (a == x && b == y) || drawn draws x y

abbrev pub AreInside : List (ℕ × ℕ) → Type 0
AreInside = All (λ p. ((1 ≤ p.0) × (p.0 ≤ 48)) × ((1 ≤ p.1) × (p.1 ≤ 28)))

abbrev within : ℕ → ℕ → ℕ → Bool
within a n x = leb a x && ltb x (a + n)

abbrev rim : ℕ → ℕ → ℕ → ℕ → ℕ → ℕ
rim n a x y old = if within a n x && (y == 0 || y == 29) then 1 else old

top_and_bottom-Paints :
    (n a : ℕ) (d : List ℕ)
    → 1500 ≤ length d
    → a + n ≤ 50
    → (d' : List ℕ) × (top_and_bottom n a d ≡ ok d') × Paints d d' (rim n a)
unfolding top_and_bottom
top_and_bottom-Paints zero a d h fit =
    (d, refl, record { size = refl; cells = λ x y hx hy. ground arith })
top_and_bottom-Paints (suc n) a d h fit =
    let (d₁, e₁, p₁) = set-Paints d a 0 1 h (omega arith) (omega arith) in
    let (d₂, e₂, p₂) = set-Paints d₁ a 29 1 (omega (arith, p₁.size)) (omega arith) (omega arith) in
    let (d₃, e₃, p₃) =
      top_and_bottom-Paints n (suc a) d₂ (omega (arith, p₁.size, p₂.size)) (omega arith) in
    (
      d₃,
      rw (e₁, e₂) e₃,
      Paints-trans d d₁ d₃ (dot a 0 1) (λ x y old. rim n (suc a) x y (dot a 29 1 x y old))
          (rim (suc n) a) p₁
          (Paints-trans d₁ d₂ d₃ (dot a 29 1) (rim n (suc a)) _ p₂ p₃ (λ x y old hx hy. refl))
          (λ x y old hx hy. ground arith),
    )

abbrev inside_row : ℕ → ℕ → ℕ → ℕ → ℕ → ℕ → ℕ
inside_row n a b x y old = if within a n x && y == b then 0 else old

clear_row-Paints :
    (n a b : ℕ) (d : List ℕ)
    → 1500 ≤ length d
    → a + n ≤ 50
    → b < 30
    → (d' : List ℕ) × (clear_row n a b d ≡ ok d') × Paints d d' (inside_row n a b)
unfolding clear_row
clear_row-Paints zero a b d h fit low =
    (d, refl, record { size = refl; cells = λ x y hx hy. ground arith })
clear_row-Paints (suc n) a b d h fit low =
    let (d₁, e₁, p₁) = set-Paints d a b 0 h (omega arith) low in
    let (d₂, e₂, p₂) = clear_row-Paints n (suc a) b d₁ (omega (arith, p₁.size)) (omega arith) low in
    (
      d₂,
      rw e₁ e₂,
      Paints-trans d d₁ d₂ (dot a b 0) (inside_row n (suc a) b) (inside_row (suc n) a b) p₁ p₂
          (λ x y old hx hy. ground arith),
    )

abbrev fresh_rows : ℕ → ℕ → ℕ → ℕ → ℕ → ℕ
fresh_rows n b x y old = if within b n y then (if x == 0 || x == 49 then 1 else 0) else old

-- One round of the second loop.
abbrev fresh_row : ℕ → ℕ → ℕ → ℕ → ℕ
fresh_row b x y old = if y == b then (if x == 0 || x == 49 then 1 else 0) else old

rows-Paints :
    (n b : ℕ) (d : List ℕ)
    → 1500 ≤ length d
    → b + n ≤ 30
    → (d' : List ℕ) × (rows n b d ≡ ok d') × Paints d d' (fresh_rows n b)
unfolding rows
rows-Paints zero b d h fit = (d, refl, record { size = refl; cells = λ x y hx hy. ground arith })
rows-Paints (suc n) b d h fit =
    let (d₁, e₁, p₁) = set-Paints d 0 b 1 h (omega arith) (omega arith) in
    let (d₂, e₂, p₂) = set-Paints d₁ 49 b 1 (omega (arith, p₁.size)) (omega arith) (omega arith) in
    let (d₃, e₃, p₃) =
      clear_row-Paints 48 1 b d₂ (omega (arith, p₁.size, p₂.size)) (omega arith) (omega arith) in
    let (d₄, e₄, p₄) =
      rows-Paints n (suc b) d₃ (omega (arith, p₁.size, p₂.size, p₃.size)) (omega arith) in
    let row =
      Paints-trans d d₂ d₃ (λ x y old. dot 49 b 1 x y (dot 0 b 1 x y old)) (inside_row 48 1 b)
        (fresh_row b)
        (Paints-trans d d₁ d₂ (dot 0 b 1) (dot 49 b 1) _ p₁ p₂ (λ x y old hx hy. refl)) p₃
        (λ x y old hx hy. ground arith) in
    (
      d₄,
      rw (e₁, e₂, e₃) e₄,
      Paints-trans d d₃ d₄ (fresh_row b) (fresh_rows n (suc b)) (fresh_rows (suc n) b) row p₄
          (λ x y old hx hy. ground arith),
    )

abbrev stones : List (ℕ × ℕ) → ℕ → ℕ → ℕ → ℕ
stones draws x y old = if drawn draws x y then 1 else old

blocks-Paints :
    (draws : List (ℕ × ℕ)) (d : List ℕ)
    → 1500 ≤ length d
    → AreInside draws
    → (d' : List ℕ) × (blocks draws d ≡ ok d') × Paints d d' (stones draws)
unfolding blocks
blocks-Paints [] d h all = (d, refl, record { size = refl; cells = λ x y hx hy. refl })
blocks-Paints ((a, b) ∷ draws) d h (((la, ha), (lb, hb)), all) =
    let (d₁, e₁, p₁) = set-Paints d a b 1 h (omega arith) (omega arith) in
    let (d₂, e₂, p₂) = blocks-Paints draws d₁ (omega (arith, p₁.size)) all in
    (
      d₂,
      rw e₁ e₂,
      Paints-trans d d₁ d₂ (dot a b 1) (stones draws) (stones ((a, b) ∷ draws)) p₁ p₂
          (λ x y old hx hy. one_stone (a == x && b == y) (drawn draws x y) old),
    )
  where
    one_stone :
        (here later : Bool) (old : ℕ)
        → (if later then 1 else (if here then 1 else old)) ≡ (if here || later then 1 else old)
    one_stone true true old = refl
    one_stone true false old = refl
    one_stone false true old = refl
    one_stone false false old = refl

-- A wall around the grid, blocks at the drawn positions, and free cells elsewhere.
abbrev pub plan : List (ℕ × ℕ) → ℕ → ℕ → ℕ
plan draws x y =
    if (x == 0 || x == 49) || (y == 0 || y == 29) then 1 else if drawn draws x y then 1 else 0

-- On a buffer of at least 30 times 50 cells, `init` succeeds, whatever the buffer held: the cells
-- on the border are walls, and inside those that were drawn are blocks and all others are free.
pub init-plan :
    (draws : List (ℕ × ℕ)) (d : List ℕ)
    → 1500 ≤ length d
    → AreInside draws
    → (d' : List ℕ) × (init draws d ≡ ok d') × Paints d d' (λ x y old. plan draws x y)
unfolding init
init-plan draws d h all =
    let (d₁, e₁, p₁) = top_and_bottom-Paints 50 0 d h (omega arith) in
    let (d₂, e₂, p₂) = rows-Paints 28 1 d₁ (omega (arith, p₁.size)) (omega arith) in
    let (d₃, e₃, p₃) = blocks-Paints draws d₂ (omega (arith, p₁.size, p₂.size)) all in
    (
      d₃,
      rw (e₁, e₂) e₃,
      Paints-trans d d₂ d₃ (λ x y old. fresh_rows 28 1 x y (rim 50 0 x y old)) (stones draws) _
          (Paints-trans d d₁ d₂ (rim 50 0) (fresh_rows 28 1) _ p₁ p₂ (λ x y old hx hy. refl)) p₃
          (λ x y old hx hy. built (drawn draws x y) x y old hx hy),
    )
  where
    built :
        (block : Bool) (x y old : ℕ)
        → x < 50
        → y < 30
        → (if block then 1 else fresh_rows 28 1 x y (rim 50 0 x y old))
          ≡ (if (x == 0 || x == 49) || (y == 0 || y == 29) then 1 else if block then 1 else 0)
    built true x y old hx hy = ground arith
    built false x y old hx hy = ground arith
