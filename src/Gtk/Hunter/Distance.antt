-- ===== src/Gtk/Hunter/Distance.antt =====
-- The distances that `tick` computes are exact while the actors are in the grid.
use wasm_shared_buffers.Base.{ℕ, zero, suc, ◌+◌, ◌-◌, ◌*◌, ◌^◌, ◌≤◌, ◌<◌, ◌≡◌, arith, ok}
use wasm_shared_buffers.Int.{
  ℤ, pos, negsuc, pos_part, neg_part, sub_ℕ, ◌+ℤ◌, ◌-ℤ◌, ◌*ℤ◌, Profile, fit, fit-ok, as_i32-low,
}
use wasm_shared_buffers.Gtk.Actor.{Runner, Hunter}
use wasm_shared_buffers.Gtk.Hunter.{delta, dist_of}
use Prim.Native.Nat.mul
use native.Mathlib.Nat.{add-zero, zero-add}

-- A position in the grid of 50 times 30 cells.
pub record IsInGrid (x y : ℕ) : Type 0 where
  pub across : x < 50
  pub down : y < 30

abbrev pub RunnerIsInGrid : Runner → Type 0
RunnerIsInGrid r = IsInGrid r.x r.y

abbrev pub gap : ℕ → ℕ → ℕ
gap a b = (a - b) + (b - a)

-- The square of the distance of a runner and the hunter.
abbrev pub sq_gap : Hunter → Runner → ℕ
sq_gap h r = gap r.x h.x * gap r.x h.x + gap r.y h.y * gap r.y h.y

abbrev mag : ℤ → ℕ
mag i = pos_part i + neg_part i

pos-pos_part : (a b : ℕ) → pos a -ℤ pos b ≡ sub_ℕ a b
unfolding ◌-ℤ◌
pos-pos_part a b = ground arith

fit-sub_ℕ : (p : Profile) (a b : ℕ) → a < 2 ^ 31 → b < 2 ^ 31 → fit p (sub_ℕ a b) ≡ ok (sub_ℕ a b)
fit-sub_ℕ p a b h k = fit-ok p (sub_ℕ a b) (ground arith) (ground arith)

pub delta_lem : (p : Profile) (a b : ℕ) → a < 50 → b < 50 → delta p a b ≡ ok (sub_ℕ a b)
unfolding delta
delta_lem p a b h k =
    rw (as_i32-low a (omega arith), as_i32-low b (omega arith), pos-pos_part a b)
      (fit-sub_ℕ p a b (omega arith) (omega arith))

mul_mono : (m n k : ℕ) → m ≤ n → m * k ≤ n * k
mul_mono zero n k h = rw (mul.zero k) (omega arith)
mul_mono (suc m) zero k h = absurd (omega arith)
mul_mono (suc m) (suc n) k h =
    rw (mul.suc m k, mul.suc n k) (omega (arith, mul_mono m n k (omega arith)))

square_bound : (n : ℕ) → n < 50 → n * n < 2500
square_bound n h = omega (arith, mul_mono n 49 n (omega arith))

sub_ℕ-eq : (a b c : ℕ) → a ≡ c → b ≡ 0 → sub_ℕ a b ≡ pos c
sub_ℕ-eq a b c h k = ground arith

square : (i : ℤ) → i *ℤ i ≡ pos (mag i * mag i)
unfolding ◌*ℤ◌
square (pos n) =
    sub_ℕ-eq (n * n + 0 * 0) (n * 0 + 0 * n) ((n + 0) * (n + 0)) (rw (add-zero n) (omega arith))
      (omega arith)
square (negsuc n) =
    sub_ℕ-eq (0 * 0 + suc n * suc n) (0 * suc n + suc n * 0) ((0 + suc n) * (0 + suc n))
      (rw (zero-add (suc n)) (omega arith)) (omega arith)

mag-sub_ℕ : (a b : ℕ) → mag (sub_ℕ a b) ≡ gap a b
mag-sub_ℕ a b = ground arith

pos+pos : (a b : ℕ) → pos a +ℤ pos b ≡ pos (a + b)
unfolding ◌+ℤ◌
pos+pos a b = ground arith

dist_lem :
    (p : Profile) (i j : ℤ)
    → mag i < 50
    → mag j < 50
    → dist_of p i j ≡ ok (pos (mag i * mag i + mag j * mag j))
unfolding dist_of
dist_lem p i j h k =
    let b = square_bound (mag i) h in
    let c = square_bound (mag j) k in
    rw
      (
        square i,
        square j,
        fit-ok p (pos (mag i * mag i)) (omega arith) (omega arith),
        fit-ok p (pos (mag j * mag j)) (omega arith) (omega arith),
        pos+pos (mag i * mag i) (mag j * mag j),
      )
      (fit-ok p (pos (mag i * mag i + mag j * mag j)) (omega arith) (omega arith))

module _ (p : Profile) (h : Hunter) (r : Runner) (a : IsInGrid h.x h.y) (b : RunnerIsInGrid r) where
  pub dist_of-sub_ℕ : dist_of p (sub_ℕ r.x h.x) (sub_ℕ r.y h.y) ≡ ok (pos (sq_gap h r))
  dist_of-sub_ℕ =
      let e = mag-sub_ℕ r.x h.x in
      let f = mag-sub_ℕ r.y h.y in
      let s =
        dist_lem p (sub_ℕ r.x h.x) (sub_ℕ r.y h.y) (omega (arith, a.across, b.across, e))
          (omega (arith, a.down, b.down, f)) in
      rw (e, f) at s

pub sq_gap_bound :
    (h : Hunter) (r : Runner) → IsInGrid h.x h.y → RunnerIsInGrid r → sq_gap h r < 5000
sq_gap_bound h r a b = omega (
  arith,
  square_bound (gap r.x h.x) (omega (arith, a.across, b.across)),
  square_bound (gap r.y h.y) (omega (arith, a.down, b.down)),
)
