-- ===== src/Gtk/Hunter.antt =====
-- The hunter's module: rust/gtk/src/modules/hunter.rs.
-- `init` and `tick` take RAND_VALUE and return the new one.
pub mod Distance
pub mod Closest
pub mod Tick
use wasm_shared_buffers.Base.{
  ℕ, zero, suc, ◌+◌, ◌-◌, ◌*◌, ◌/◌, ◌%◌, ◌^◌, ◌≤◌, ◌<◌, ◌≡◌, refl, sym, ap, ◌∙◌, ◌≢◌, ◌↔◌, ◌⊎◌, inl,
  inr, Bool, true, false, not, ◌&&◌, ◌||◌, Option, none, some, List, [], ◌∷◌, ◌++◌, arith, ltb, leb,
  ◌==◌, if◌then◌else◌, le→leb, lt→ltb, ltb→lt, leb→le, ==_iff, Bool-cases, Option-cases, length,
  get_elem?, get_or, take, drop, replicate, All, Run, ok, panic, overflow, explicit, index,
  assertion, ◌>>=◌, ◌>>◌, check, assert, item, >>=-eq-ok, length-replicate, length-append,
}
use wasm_shared_buffers.Int.{
  ℤ, pos, negsuc, pos_part, neg_part, sub_ℕ, ◌+ℤ◌, ◌-ℤ◌, ◌*ℤ◌, ltb_ℤ, as_i32, as_usize, Profile,
  debug, release, overflows, wrap, fit, saturating_add, abs_i32, rem3, fit-ok, as_usize-as_i32,
  as_i32-low,
}
use wasm_shared_buffers.Gtk.State.{is_dead}
use wasm_shared_buffers.Gtk.Actor.{GridType, Runner, Hunter, Context, grid_w, grid_h, move_by}

-- The seed becomes RAND_VALUE.
unfoldable pub init : Context → ℤ → Context × ℕ
init ctx rand_seed =
    (record ctx { hunter = record { x = grid_w / 2; y = grid_h / 2 } }, as_usize rand_seed)

-- `a as i32 - b as i32`
unfoldable pub delta : Profile → ℕ → ℕ → Run ℤ
delta p a b = fit p (as_i32 a -ℤ as_i32 b)

-- `dx * dx + dy * dy`
unfoldable pub dist_of : Profile → ℤ → ℤ → Run ℤ
dist_of p dx dy = do a ← fit p (dx *ℤ dx); b ← fit p (dy *ℤ dy); fit p (a +ℤ b)

-- min_dx, min_dy and min_dist.
pub record Nearest : Type 0 where
  pub min_dx : ℤ
  pub min_dy : ℤ
  pub min_dist : ℤ

unfoldable pub start : Nearest
start = record { min_dx = pos 0; min_dy = pos 0; min_dist = pos 99999 }

unfoldable pub nearer : Nearest → ℤ → ℤ → ℤ → Nearest
nearer n dx dy dist =
    if ltb_ℤ dist n.min_dist then record { min_dx = dx; min_dy = dy; min_dist = dist } else n

-- One round of the loop of `tick`.
unfoldable pub visit : Profile → Hunter → Runner → Nearest → Run Nearest
visit p hunter r n = if is_dead r.state then ok n else do
  dx ← delta p r.x hunter.x
  dy ← delta p r.y hunter.y
  dist ← dist_of p dx dy
  ok (nearer n dx dy dist)

unfoldable pub closest : Profile → Hunter → List Runner → Nearest → Run Nearest
closest p hunter [] n = ok n
closest p hunter (r ∷ rs) n = do n' ← visit p hunter r n; closest p hunter rs n'

unfoldable pub tick : Profile → Context → ℕ → Run (Context × ℕ)
tick p ctx v = do
  n ← closest p ctx.hunter ctx.runners start
  ((x, y), v') ← move_by p ctx.grid ctx.hunter.x ctx.hunter.y n.min_dx n.min_dy v
  ok (record ctx { hunter = record { x = x; y = y } }, v')
