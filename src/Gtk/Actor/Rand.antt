-- ===== src/Gtk/Actor/Rand.antt =====
-- The random steps of rust/gtk/src/module_common.rs.
use wasm_shared_buffers.Base.{
  ℕ, suc, ◌-◌, ◌%◌, ◌^◌, ◌≤◌, ◌<◌, ◌≡◌, ◌≢◌, inl, inr, false, arith, ltb, lt→ltb, Bool-cases, ok,
  panic, overflow,
}
use wasm_shared_buffers.Int.{ℤ, pos, negsuc, ◌-ℤ◌, as_i32, Profile, debug, release, abs_i32, rem3}
use wasm_shared_buffers.Word.{u32_mod}
use wasm_shared_buffers.Gtk.Actor.{rand_usize, rand, rand_rem3, rand_step, step}

pub rand-abs :
    (p : Profile) (n : ℕ) → n < u32_mod → n ≢ 2 ^ 31 → (a : ℕ) × (abs_i32 p (as_i32 n) ≡ ok (pos a))
unfolding abs_i32 as_i32
rand-abs p n h k = elim (Bool-cases (ltb n (2 ^ 31))) [
  | inl low ↦ (n, rw low)
  | inr high ↦
      let least = ltb-false n (2 ^ 31) high in
      (suc (u32_mod - 1 - n), rw (high, lt→ltb (u32_mod - 1 - n) (2 ^ 31 - 1) (omega arith)))
]
  where
    ltb-false : (a b : ℕ) → ltb a b ≡ false → b ≤ a
    ltb-false a b e = ground arith

unit_step : (a : ℕ) → step (pos (a % 3) -ℤ pos 1) ≡ pos (a % 3) -ℤ pos 1
unfolding step ◌-ℤ◌
unit_step a = ground arith

pub rand_usize-u32_mod : (v : ℕ) → rand_usize v < u32_mod
unfolding rand_usize
rand_usize-u32_mod v = omega arith

-- Unless the draw is the least `i32`, `rand_step` returns -1, 0 or 1 in either build (a number that
-- is its own unit step).
pub rand_step-step :
    (p : Profile) (v : ℕ)
    → rand_usize v ≢ 2 ^ 31
    → (m : ℤ) × (rand_step p v ≡ ok (m, rand_usize v)) × (step m ≡ m)
unfolding rand_step rand_rem3 rand rem3
rand_step-step p v h =
    let (a, e) = rand-abs p (rand_usize v) (rand_usize-u32_mod v) h in
    (pos (a % 3) -ℤ pos 1, rw e, unit_step a)

-- When the draw is the least `i32`, `rand_step` panics in a debug build and returns -3 in a release
-- build.
pub rand_step_least :
    (v : ℕ)
    → rand_usize v ≡ 2 ^ 31
    → (rand_step debug v ≡ panic overflow) × (rand_step release v ≡ ok (negsuc 2, 2 ^ 31))
unfolding rand_step rand_rem3 rand as_i32 abs_i32 rem3 ◌-ℤ◌
rand_step_least v e = (rw e, rw e)
