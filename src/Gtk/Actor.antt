-- ===== src/Gtk/Actor.antt =====
-- What the two modules share: rust/gtk/src/module_common.rs.
-- The modules run on wasm32: a `usize` is a number below 2^32. RAND_VALUE is passed along: a
-- function that draws takes its value and returns the new one. A cell of the grid is the bit
-- pattern of its `i32`.
pub mod Move
pub mod Within
pub mod Rand
use wasm_shared_buffers.Base.{
  ℕ, zero, suc, ◌+◌, ◌-◌, ◌*◌, ◌/◌, ◌%◌, ◌^◌, ◌≤◌, ◌<◌, ◌≡◌, refl, sym, ap, ◌∙◌, ◌≢◌, ◌↔◌, ◌⊎◌, inl,
  inr, Bool, true, false, not, ◌&&◌, ◌||◌, Option, none, some, List, [], ◌∷◌, ◌++◌, arith, ltb, leb,
  ◌==◌, if◌then◌else◌, le→leb, lt→ltb, ltb→lt, leb→le, ==_iff, Bool-cases, Option-cases, length,
  get_elem?, get_or, take, drop, replicate, All, Run, ok, panic, overflow, explicit, index,
  assertion, ◌>>=◌, ◌>>◌, check, assert, item, >>=-eq-ok, length-replicate, length-append,
}
use wasm_shared_buffers.Word.{u32_mod}
use wasm_shared_buffers.Int.{
  ℤ, pos, negsuc, pos_part, neg_part, sub_ℕ, ◌+ℤ◌, ◌-ℤ◌, ◌*ℤ◌, ltb_ℤ, as_i32, as_usize, Profile,
  debug, release, overflows, wrap, fit, saturating_add, abs_i32, rem3, fit-ok, as_usize-as_i32,
  as_i32-low,
}
use wasm_shared_buffers.Gtk.State.{State}

abbrev pub grid_w : ℕ
grid_w = 50

abbrev pub grid_h : ℕ
grid_h = 30

abbrev pub n_runners : ℕ
n_runners = 15

-- `rand_usize`, whose result is the new RAND_VALUE.
unfoldable pub rand_usize : ℕ → ℕ
rand_usize rand_value = (rand_value + 137) % u32_mod * 7 % u32_mod

unfoldable pub rand : ℕ → ℤ
rand rand_value = as_i32 (rand_usize rand_value)

pub record Runner : Type 0 where
  pub x : ℕ
  pub y : ℕ
  pub state : State

pub record Hunter : Type 0 where
  pub x : ℕ
  pub y : ℕ

abbrev pub GridType : Type 0
GridType = List (List ℕ)

pub record Context : Type 0 where
  pub grid : GridType
  pub hunter : Hunter
  pub runners : List Runner

-- `rand().abs() % 3`, and the new RAND_VALUE.
unfoldable pub rand_rem3 : Profile → ℕ → Run (ℤ × ℕ)
rand_rem3 p v = do a ← abs_i32 p (rand v); ok (rem3 a, rand_usize v)

unfoldable pub rand_step : Profile → ℕ → Run (ℤ × ℕ)
rand_step p v = do (a, v₁) ← rand_rem3 p v; ok (a -ℤ pos 1, v₁)

unfoldable pub step : ℤ → ℤ
step (pos zero) = pos 0
step (pos (suc n)) = pos 1
step (negsuc n) = negsuc 0

-- `ty >= grid.len() || tx >= grid[ty].len()`
unfoldable pub is_off : GridType → ℕ → ℕ → Bool
is_off grid tx ty = leb (length grid) ty || leb (length (get_or grid ty [])) tx

-- `grid[ty][tx] == 1`, on a cell of the grid.
unfoldable pub is_blocked : GridType → ℕ → ℕ → Bool
is_blocked grid tx ty = get_or (get_or grid ty []) tx 0 == 1

-- `(x as i32).saturating_add(m) as usize`
unfoldable pub target : ℕ → ℤ → ℕ
target x m = as_usize (saturating_add (as_i32 x) m)

-- The second try of `move_by`: a random step.
unfoldable pub move_at_random : Profile → GridType → ℕ → ℕ → ℕ → Run ((ℕ × ℕ) × ℕ)
move_at_random p grid x y v = do
  (mx, v₁) ← rand_step p v
  (my, v₂) ← rand_step p v₁
  let tx = target x mx
  let ty = target y my
  ok (if is_off grid tx ty || is_blocked grid tx ty then (x, y) else (tx, ty), v₂)

unfoldable pub move_by : Profile → GridType → ℕ → ℕ → ℤ → ℤ → ℕ → Run ((ℕ × ℕ) × ℕ)
move_by p grid x y mx my v =
    let tx = target x (step mx) in
    let ty = target y (step my) in
    if is_off grid tx ty
    then ok ((x, y), v)
    else if is_blocked grid tx ty
    then move_at_random p grid x y v
    else ok ((tx, ty), v)
