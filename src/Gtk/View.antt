-- ===== src/Gtk/View.antt =====
-- The modules' view of the grid that the host keeps: `Context::new_unowned` and `Context::update` of
-- rust/gtk/src/module_common.rs cast the read-only buffer to `GridType`.
use wasm_shared_buffers.Base.{
  ℕ, zero, suc, ◌+◌, ◌*◌, ◌≤◌, ◌<◌, ◌≡◌, refl, ap, ◌∙◌, List, [], ◌∷◌, arith, ◌==◌, length, get_or,
  take, drop, All, length-take, length-drop,
}
use wasm_shared_buffers.Gtk.Actor.{GridType, is_blocked}
use wasm_shared_buffers.Gtk.Actor.Within.{IsGrid}
use wasm_shared_buffers.Gtk.Grid.Cells.{cell}

-- `n` rows of 50 cells.
unfoldable pub rows_view : ℕ → List ℕ → GridType
rows_view zero d = []
rows_view (suc n) d = take 50 d ∷ rows_view n (drop 50 d)

unfoldable pub grid_view : List ℕ → GridType
grid_view d = rows_view 30 d

rows_view-rows : (n : ℕ) (d : List ℕ) → length (rows_view n d) ≡ n
unfolding rows_view
rows_view-rows zero d = refl
rows_view-rows (suc n) d = ap suc (rows_view-rows n (drop 50 d))

rows_view-columns :
    (n : ℕ) (d : List ℕ) → n * 50 ≤ length d → All (λ row. length row ≡ 50) (rows_view n d)
unfolding rows_view
rows_view-columns zero d h = tt
rows_view-columns (suc n) d h = (
  length-take 50 d (omega arith),
  rows_view-columns n (drop 50 d) (omega (arith, length-drop 50 d)),
)

pub grid_view-IsGrid : (d : List ℕ) → 1500 ≤ length d → IsGrid (grid_view d)
unfolding grid_view
grid_view-IsGrid d h = record { rows = rows_view-rows 30 d; columns = rows_view-columns 30 d h }

get_or-take : (n i : ℕ) (d : List ℕ) → i < n → get_or (take n d) i 0 ≡ get_or d i 0
get_or-take zero i d h = absurd (omega arith)
get_or-take (suc n) i [] h = refl
get_or-take (suc n) zero (x ∷ d) h = refl
get_or-take (suc n) (suc i) (x ∷ d) h = get_or-take n i d (omega arith)

get_or-drop : (n i : ℕ) (d : List ℕ) → get_or (drop n d) i 0 ≡ get_or d (n + i) 0
get_or-drop zero i d = let next : i ≡ 0 + i = omega arith in ap (λ j. get_or d j 0) next
get_or-drop (suc n) i [] = refl
get_or-drop (suc n) i (x ∷ d) =
    let next : suc (n + i) ≡ suc n + i = omega arith in
    get_or-drop n i d ∙ ap (λ j. get_or (x ∷ d) j 0) next

rows_view-cell :
    (n : ℕ) (d : List ℕ) (x y : ℕ)
    → x < 50
    → y < n
    → get_or (get_or (rows_view n d) y []) x 0 ≡ get_or d (y * 50 + x) 0
unfolding rows_view
rows_view-cell zero d x y h l = absurd (omega arith)
rows_view-cell (suc n) d x zero h l =
    let next : x ≡ 0 * 50 + x = omega arith in get_or-take 50 x d h ∙ ap (λ i. get_or d i 0) next
rows_view-cell (suc n) d x (suc y) h l =
    let next : 50 + (y * 50 + x) ≡ suc y * 50 + x = omega arith in
    rows_view-cell n (drop 50 d) x y h (omega arith)
    ∙ get_or-drop 50 (y * 50 + x) d
    ∙ ap (λ i. get_or d i 0) next

-- On a cell of the grid the modules see what the host reads there.
pub is_blocked-grid_view :
    (d : List ℕ) (x y : ℕ) → x < 50 → y < 30 → is_blocked (grid_view d) x y ≡ (cell d x y == 1)
unfolding is_blocked grid_view
is_blocked-grid_view d x y h l = ap (λ c. c == 1) (rows_view-cell 30 d x y h l)
