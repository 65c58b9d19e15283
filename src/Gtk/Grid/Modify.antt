-- ===== src/Gtk/Grid/Modify.antt =====
-- `Grid::modify` of rust/gtk/src/bin/host.rs turns blocks into free cells and free cells into blocks.
use wasm_shared_buffers.Base.{
  ℕ, ◌-◌, ◌≤◌, ◌<◌, ◌≡◌, refl, ◌∙◌, inl, inr, Bool, true, false, ◌&&◌, List, [], ◌∷◌, arith, ◌==◌,
  if◌then◌else◌, Bool-cases, length, ok,
}
use wasm_shared_buffers.Int.{◌-ℤ◌, as_i32, as_usize, Profile, fit}
use wasm_shared_buffers.Gtk.Grid.{flip, modify}
use wasm_shared_buffers.Gtk.Grid.Cells.{cell, Paints, dot, set-Paints, get-cell, Paints-trans}
use wasm_shared_buffers.Gtk.Grid.Init.{AreInside}

-- Every cell of the grid is free or not.
pub record IsBinary (d : List ℕ) : Type 0 where
  pub size : 1500 ≤ length d
  pub bits : (x y : ℕ) → x < 50 → y < 30 → cell d x y ≤ 1

flip-bit : (p : Profile) (v : ℕ) → v ≤ 1 → flip p v ≡ ok (1 - v)
unfolding flip fit as_i32 as_usize ◌-ℤ◌
flip-bit p v h = ground arith

abbrev turn : ℕ → ℕ → ℕ → ℕ → ℕ → ℕ
turn a b x y old = if a == x && b == y then 1 - old else old

same_position : (a b x y : ℕ) → (a == x && b == y) ≡ true → (a ≡ x) × (b ≡ y)
same_position a b x y e = ground arith

turn-Paints :
    (d d₁ : List ℕ) (a b : ℕ) → Paints d d₁ (dot a b (1 - cell d a b)) → Paints d d₁ (turn a b)
turn-Paints d d₁ a b p = record { size = p.size; cells = λ x y hx hy. p.cells x y hx hy ∙ at x y }
  where
    at : (x y : ℕ) → dot a b (1 - cell d a b) x y (cell d x y) ≡ turn a b x y (cell d x y)
    at x y = elim (Bool-cases (a == x && b == y)) [
      | inl e ↦ let (i, j) = same_position a b x y e in rw (e, i, j)
      | inr e ↦ rw e
    ]

bit : (c : Bool) (old : ℕ) → old ≤ 1 → (if c then 1 - old else old) ≤ 1
bit true old h = omega arith
bit false old h = h

turn-IsBinary : (d d₁ : List ℕ) (a b : ℕ) → IsBinary d → Paints d d₁ (turn a b) → IsBinary d₁
turn-IsBinary d d₁ a b i p = record {
  size = omega (arith, i.size, p.size);
  bits =
      λ x y hx hy. rw (p.cells x y hx hy) (bit (a == x && b == y) (cell d x y) (i.bits x y hx hy));
}

-- A cell after the drawn positions have been turned one after the other.
abbrev pub turned : List (ℕ × ℕ) → ℕ → ℕ → ℕ → ℕ
turned [] x y old = old
turned ((a, b) ∷ draws) x y old = turned draws x y (if a == x && b == y then 1 - old else old)

-- In either build, on a grid whose cells are 0 or 1, `modify` succeeds: a cell is turned once for
-- each time that it was drawn, so that the wall and the cells that were not drawn stay as they are,
-- and all cells are 0 or 1 again.
pub modify-turned :
    (p : Profile) (draws : List (ℕ × ℕ)) (d : List ℕ)
    → IsBinary d
    → AreInside draws
    → (d' : List ℕ) × (modify p draws d ≡ ok d') × Paints d d' (turned draws) × IsBinary d'
unfolding modify
modify-turned p [] d i all = (d, refl, record { size = refl; cells = λ x y hx hy. refl }, i)
modify-turned p ((a, b) ∷ draws) d i (((la, ha), (lb, hb)), all) =
    let (d₁, e₁, p₁) = set-Paints d a b (1 - cell d a b) i.size (omega arith) (omega arith) in
    let q = turn-Paints d d₁ a b p₁ in
    let (d₂, e₂, p₂, i₂) = modify-turned p draws d₁ (turn-IsBinary d d₁ a b i q) all in
    (
      d₂,
      rw
          (
            get-cell d a b i.size (omega arith) (omega arith),
            flip-bit p (cell d a b) (i.bits a b (omega arith) (omega arith)),
            e₁,
          )
          e₂,
      Paints-trans d d₁ d₂ (turn a b) (turned draws) (turned ((a, b) ∷ draws)) q p₂
          (λ x y old hx hy. refl),
      i₂,
    )
