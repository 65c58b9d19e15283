-- ===== src/Gtk/Runner.antt =====
-- The runners' module: rust/gtk/src/modules/runner.rs.
-- `init` and `tick` take RAND_VALUE and return the new one.
pub mod Moved
pub mod Tick
use wasm_shared_buffers.Base.{
  ℕ, zero, suc, ◌+◌, ◌-◌, ◌*◌, ◌/◌, ◌%◌, ◌^◌, ◌≤◌, ◌<◌, ◌≡◌, refl, sym, ap, ◌∙◌, ◌≢◌, ◌↔◌, ◌⊎◌, inl,
  inr, Bool, true, false, not, ◌&&◌, ◌||◌, Option, none, some, List, [], ◌∷◌, ◌++◌, arith, ltb, leb,
  ◌==◌, if◌then◌else◌, le→leb, lt→ltb, ltb→lt, leb→le, ==_iff, Bool-cases, Option-cases, length,
  get_elem?, get_or, take, drop, replicate, All, Run, ok, panic, overflow, explicit, index,
  assertion, ◌>>=◌, ◌>>◌, check, assert, item, >>=-eq-ok, length-replicate, length-append,
}
use wasm_shared_buffers.Int.{
  ℤ, pos, negsuc, pos_part, neg_part, sub_ℕ, ◌+ℤ◌, ◌-ℤ◌, ◌*ℤ◌, ltb_ℤ, as_i32, as_usize, Profile,
  debug, release, overflows, wrap, fit, saturating_add, abs_i32, rem3, fit-ok, as_usize-as_i32,
  as_i32-low,
}
use wasm_shared_buffers.Gtk.State.{State, walking, running, dead, is_dead}
use wasm_shared_buffers.Gtk.Actor.{
  GridType, Runner, Hunter, Context, grid_w, grid_h, rand_usize, rand_rem3, rand_step, move_by,
}
use wasm_shared_buffers.Gtk.Hunter.{delta, dist_of}

abbrev pub scare_dist : ℕ
scare_dist = 10

-- The loop of `init`.
unfoldable pub place : List Runner → ℕ → List Runner × ℕ
place [] v = ([], v)
place (r ∷ rs) v =
    let v₁ = rand_usize v in
    let v₂ = rand_usize v₁ in
    let (rs', v') = place rs v₂ in
    (record { x = 1 + v₁ % (grid_w - 2); y = 1 + v₂ % (grid_h - 2); state = walking } ∷ rs', v')

unfoldable pub init : Context → ℤ → Context × ℕ
init ctx rand_seed =
    let (rs, v) = place ctx.runners (as_usize rand_seed) in (record ctx { runners = rs }, v)

-- A random walk: the deltas and the new RAND_VALUE.
unfoldable pub walk : Profile → ℕ → Run ((ℤ × ℤ) × ℕ)
walk p v = do (mx, v₁) ← rand_step p v; (my, v₂) ← rand_step p v₁; ok ((mx, my), v₂)

-- The arms of the `match` on `rand().abs() % 3`; `none` for the arm that returns from `tick`.
unfoldable pub arm : Profile → ℤ → ℤ → ℤ → ℕ → Run (Option (ℤ × ℤ) × ℕ)
arm p (pos zero) dx dy v = do (my, v') ← rand_step p v; ok (some (dx, my), v')
arm p (pos (suc zero)) dx dy v = do (mx, v') ← rand_step p v; ok (some (mx, dy), v')
arm p (pos (suc (suc zero))) dx dy v = ok (some (dx, dy), v)
arm p _ dx dy v = ok (none, v)

unfoldable pub flee : Profile → ℤ → ℤ → ℕ → Run (Option (ℤ × ℤ) × ℕ)
flee p dx dy v = do (m, v₁) ← rand_rem3 p v; arm p m dx dy v₁

-- `move_by` on the position of `r`.
unfoldable pub move : Profile → GridType → Runner → ℤ → ℤ → ℕ → Run (Runner × ℕ)
move p grid r mx my v = do
  ((x, y), v') ← move_by p grid r.x r.y mx my v
  ok (record r { x = x; y = y }, v')

-- A runner after the `match`; `false` when it left `tick`.
unfoldable pub fled : Profile → GridType → Runner → Option (ℤ × ℤ) → ℕ → Run ((Runner × Bool) × ℕ)
fled p grid r none v = ok ((r, false), v)
fled p grid r (some (mx, my)) v = do (r', v') ← move p grid r mx my v; ok ((r', true), v')

-- The hunter is too far away.
unfoldable pub wander : Profile → GridType → Runner → ℕ → Run ((Runner × Bool) × ℕ)
wander p grid r v = do
  ((mx, my), v₁) ← walk p v
  (r', v₂) ← move p grid (record r { state = walking }) mx my v₁
  ok ((r', true), v₂)

unfoldable pub run_away : Profile → GridType → Runner → ℤ → ℤ → ℕ → Run ((Runner × Bool) × ℕ)
run_away p grid r dx dy v = do
  (m, v₁) ← flee p dx dy v
  fled p grid (record r { state = running }) m v₁

-- A living runner that the hunter has not reached; `true` when the loop goes on.
unfoldable pub escape : Profile → GridType → Runner → ℤ → ℤ → ℤ → ℕ → Run ((Runner × Bool) × ℕ)
escape p grid r dx dy dist v =
    if ltb_ℤ (pos (scare_dist * scare_dist)) dist
    then wander p grid r v
    else run_away p grid r dx dy v

unfoldable pub is_zero : ℤ → Bool
is_zero (pos zero) = true
is_zero _ = false

-- A living runner.
unfoldable pub react : Profile → GridType → Runner → ℤ → ℤ → ℕ → Run ((Runner × Bool) × ℕ)
react p grid r dx dy v =
    if is_zero dx && is_zero dy
    then ok ((record r { state = dead }, true), v)
    else do dist ← dist_of p dx dy; escape p grid r dx dy dist v

-- One round of the loop of `tick`; `true` when the loop goes on.
unfoldable pub tick_runner : Profile → GridType → Hunter → Runner → ℕ → Run ((Runner × Bool) × ℕ)
tick_runner p grid hunter r v =
    if is_dead r.state
    then ok ((r, true), v)
    else do dx ← delta p r.x hunter.x; dy ← delta p r.y hunter.y; react p grid r dx dy v

-- The runners after one round, with the result of the other rounds.
unfoldable pub go_on :
    Bool → Runner → List Runner → ℕ → Run (List Runner × ℕ) → Run (List Runner × ℕ)
go_on false r rs v rest = ok (r ∷ rs, v)
go_on true r rs v rest = do (rs', v') ← rest; ok (r ∷ rs', v')

-- The loop of `tick`.
unfoldable pub tick_runners : Profile → GridType → Hunter → List Runner → ℕ → Run (List Runner × ℕ)
tick_runners p grid hunter [] v = ok ([], v)
tick_runners p grid hunter (r ∷ rs) v = do
  ((r', goes_on), v') ← tick_runner p grid hunter r v
  go_on goes_on r' rs v' (tick_runners p grid hunter rs v')

unfoldable pub tick : Profile → Context → ℕ → Run (Context × ℕ)
tick p ctx v = do
  (rs, v') ← tick_runners p ctx.grid ctx.hunter ctx.runners v
  ok (record ctx { runners = rs }, v')
