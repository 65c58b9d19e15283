-- ===== src/Gtk/Draws.antt =====
-- What stops a debug build of rust/gtk/src/modules/hunter.rs and runner.rs: the draws of RAND_VALUE.
use wasm_shared_buffers.Base.{
  ℕ, zero, suc, ◌+◌, ◌*◌, ◌^◌, ◌≡◌, ◌≤◌, ◌<◌, length, inl, inr, Bool, true, false, ◌&&◌, ◌==◌,
  ==_iff, Option, none, some, List, [], ◌∷◌, arith, Bool-cases, All, Run, ok, panic, overflow,
  ◌>>=◌,
}
use wasm_shared_buffers.Int.{ℤ, pos, negsuc, sub_ℕ, ltb_ℤ, as_i32, abs_i32, debug}
use wasm_shared_buffers.Gtk.State.{is_dead, walking, running}
use wasm_shared_buffers.Gtk.Actor.{
  GridType, Runner, Hunter, Context, rand_usize, rand, rand_rem3, rand_step, step, is_off,
  is_blocked, target, move_at_random, move_by,
}
use wasm_shared_buffers.Gtk.Actor.Rand.{rand-abs, rand_usize-u32_mod}
use wasm_shared_buffers.Gtk.Hunter
use wasm_shared_buffers.Gtk.Hunter.Closest.{closest-Targets}
use wasm_shared_buffers.Gtk.Hunter.Distance.{
  IsInGrid, RunnerIsInGrid, sq_gap, delta_lem, dist_of-sub_ℕ,
}
use wasm_shared_buffers.Gtk.Hunter.Tick.{IsValid}
use wasm_shared_buffers.Gtk.Runner
use wasm_shared_buffers.Gtk.Runner.{
  scare_dist, walk, arm, flee, move, fled, wander, run_away, escape, is_zero, react, tick_runner,
  go_on, tick_runners,
}

-- The value of RAND_VALUE after `m` draws from `v` on.
pub data After (v : ℕ) : ℕ → ℕ → Type 0 where
  now : After v 0 v
  drawn : {m u : ℕ} → After v m u → After v (suc m) (rand_usize u)

-- How a run that begins at RAND_VALUE `v` ends in a debug build: it returns after at most `n` draws, or
-- it stops at an overflow when one of the first `n` draws is the least `i32`.
pub data Draws {ℓ} {A : Type ℓ} (n v : ℕ) : Run (A × ℕ) → Type ℓ where
  returns : {a : A} {m u : ℕ} → After v m u → m ≤ n → Draws n v (ok (a, u))
  least : {m u : ℕ} → After v m u → m < n → rand_usize u ≡ 2 ^ 31 → Draws n v (panic overflow)

After-trans :
    {u v w : ℕ} {m k : ℕ} → After u m v → After v k w → (n : ℕ) × (n ≡ m + k) × After u n w
After-trans {m = m} l now = (m, omega arith, l)
After-trans l (drawn h) = let (n, e, a) = After-trans l h in (suc n, omega arith, drawn a)

Draws-after {ℓ} :
    {A : Type ℓ} {v u : ℕ} {r : Run (A × ℕ)} (m k n : ℕ)
    → k + m ≤ n
    → After v m u
    → Draws k u r
    → Draws n v r
Draws-after m k n h l (returns a i) = let (s, e, b) = After-trans l a in returns b (omega arith)
Draws-after m k n h l (least a i hit) = let (s, e, b) = After-trans l a in least b (omega arith) hit

module _ {ℓ κ} {A : Type ℓ} {B : Type κ} where
  Draws-bind :
      {n v : ℕ} {r : Run (A × ℕ)} {f : A × ℕ → Run (B × ℕ)} (j k : ℕ)
      → j + k ≤ n
      → Draws j v r
      → ((x : A × ℕ) → Draws k x.1 (f x))
      → Draws n v (r >>= f)
  Draws-bind {n = n} j k h (returns {m = m} l i) g = Draws-after m k n (omega arith) l (g _)
  Draws-bind j k h (least l i e) g = least l (omega arith) e

rand_rem3-Draws : (v : ℕ) → Draws 1 v (rand_rem3 debug v)
unfolding rand_rem3 rand as_i32 abs_i32
rand_rem3-Draws v = elim (Bool-cases (rand_usize v == 2 ^ 31)) [
  | inl e ↦
      let hit : rand_usize v ≡ 2 ^ 31 = (==_iff (rand_usize v) (2 ^ 31)).0 e in
      rw hit (least now (omega arith) hit)
  | inr e ↦
      let (a, f) =
        rand-abs debug (rand_usize v) (rand_usize-u32_mod v)
          (λ hit. cc ((==_iff (rand_usize v) (2 ^ 31)).1 hit, e)) in
      rw f (returns (drawn now) (omega arith))
]

rand_step-Draws : (v : ℕ) → Draws 1 v (rand_step debug v)
unfolding rand_step
rand_step-Draws v =
    Draws-bind 1 0 (omega arith) (rand_rem3-Draws v) (λ a. returns now (omega arith))

move_at_random-Draws : (grid : GridType) (x y v : ℕ) → Draws 2 v (move_at_random debug grid x y v)
unfolding move_at_random
move_at_random-Draws grid x y v =
    Draws-bind 1 1 (omega arith) (rand_step-Draws v)
      (λ a. Draws-bind 1 0 (omega arith) (rand_step-Draws a.1) (λ b. returns now (omega arith)))

move_by-Draws :
    (grid : GridType) (x y : ℕ) (mx my : ℤ) (v : ℕ) → Draws 2 v (move_by debug grid x y mx my v)
unfolding move_by
move_by-Draws grid x y mx my v =
    elim (Bool-cases (is_off grid (target x (step mx)) (target y (step my)))) [
      | inl e ↦ rw e (returns now (omega arith))
      | inr e ↦ elim (Bool-cases (is_blocked grid (target x (step mx)) (target y (step my)))) [
        | inl d ↦ rw (e, d) (move_at_random-Draws grid x y v)
        | inr d ↦ rw (e, d) (returns now (omega arith))
      ]
    ]

hunter_tick-Draws : (ctx : Context) (v : ℕ) → IsValid ctx → Draws 2 v (Hunter.tick debug ctx v)
unfolding Hunter.tick
hunter_tick-Draws ctx v i =
    let (n, run, _) = closest-Targets debug ctx.hunter ctx.runners i.hunter i.runners in
    rw run (
      Draws-bind 2 0 (omega arith)
        (move_by-Draws ctx.grid ctx.hunter.x ctx.hunter.y n.min_dx n.min_dy v)
        (λ m. returns now (omega arith)))

walk-Draws : (v : ℕ) → Draws 2 v (walk debug v)
unfolding walk
walk-Draws v =
    Draws-bind 1 1 (omega arith) (rand_step-Draws v)
      (λ a. Draws-bind 1 0 (omega arith) (rand_step-Draws a.1) (λ b. returns now (omega arith)))

arm-Draws : (m dx dy : ℤ) (v : ℕ) → Draws 1 v (arm debug m dx dy v)
unfolding arm
arm-Draws (pos zero) dx dy v =
    Draws-bind 1 0 (omega arith) (rand_step-Draws v) (λ a. returns now (omega arith))
arm-Draws (pos (suc zero)) dx dy v =
    Draws-bind 1 0 (omega arith) (rand_step-Draws v) (λ a. returns now (omega arith))
arm-Draws (pos (suc (suc zero))) dx dy v = returns now (omega arith)
arm-Draws (pos (suc (suc (suc n)))) dx dy v = returns now (omega arith)
arm-Draws (negsuc n) dx dy v = returns now (omega arith)

flee-Draws : (dx dy : ℤ) (v : ℕ) → Draws 2 v (flee debug dx dy v)
unfolding flee
flee-Draws dx dy v = Draws-bind 1 1 (omega arith) (rand_rem3-Draws v) (λ a. arm-Draws a.0 dx dy a.1)

move-Draws :
    (grid : GridType) (r : Runner) (mx my : ℤ) (v : ℕ) → Draws 2 v (move debug grid r mx my v)
unfolding move
move-Draws grid r mx my v =
    Draws-bind 2 0 (omega arith) (move_by-Draws grid r.x r.y mx my v)
      (λ m. returns now (omega arith))

fled-Draws :
    (grid : GridType) (r : Runner) (m : Option (ℤ × ℤ)) (v : ℕ) → Draws 2 v (fled debug grid r m v)
unfolding fled
fled-Draws grid r none v = returns now (omega arith)
fled-Draws grid r (some (mx, my)) v =
    Draws-bind 2 0 (omega arith) (move-Draws grid r mx my v) (λ m. returns now (omega arith))

wander-Draws : (grid : GridType) (r : Runner) (v : ℕ) → Draws 4 v (wander debug grid r v)
unfolding wander
wander-Draws grid r v = Draws-bind 2 2 (omega arith) (walk-Draws v) (λ a.
    Draws-bind 2 0 (omega arith) (move-Draws grid (record r { state = walking }) a.0.0 a.0.1 a.1)
      (λ m. returns now (omega arith)))

run_away-Draws :
    (grid : GridType) (r : Runner) (dx dy : ℤ) (v : ℕ) → Draws 4 v (run_away debug grid r dx dy v)
unfolding run_away
run_away-Draws grid r dx dy v =
    Draws-bind 2 2 (omega arith) (flee-Draws dx dy v)
      (λ a. fled-Draws grid (record r { state = running }) a.0 a.1)

escape-Draws :
    (grid : GridType) (r : Runner) (dx dy dist : ℤ) (v : ℕ)
    → Draws 4 v (escape debug grid r dx dy dist v)
unfolding escape
escape-Draws grid r dx dy dist v = elim (Bool-cases (ltb_ℤ (pos (scare_dist * scare_dist)) dist)) [
  | inl e ↦ rw e (wander-Draws grid r v)
  | inr e ↦ rw e (run_away-Draws grid r dx dy v)
]

react-Draws :
    (grid : GridType) (h : Hunter) (r : Runner) (v : ℕ)
    → IsInGrid h.x h.y
    → RunnerIsInGrid r
    → Draws 4 v (react debug grid r (sub_ℕ r.x h.x) (sub_ℕ r.y h.y) v)
unfolding react
react-Draws grid h r v a b =
    elim (Bool-cases (is_zero (sub_ℕ r.x h.x) && is_zero (sub_ℕ r.y h.y))) [
      | inl e ↦ rw e (returns now (omega arith))
      | inr e ↦
          rw (e, dist_of-sub_ℕ debug h r a b)
            (escape-Draws grid r (sub_ℕ r.x h.x) (sub_ℕ r.y h.y) (pos (sq_gap h r)) v)
    ]

tick_runner-Draws :
    (grid : GridType) (h : Hunter) (r : Runner) (v : ℕ)
    → IsInGrid h.x h.y
    → RunnerIsInGrid r
    → Draws 4 v (tick_runner debug grid h r v)
unfolding tick_runner
tick_runner-Draws grid h r v a b = elim (Bool-cases (is_dead r.state)) [
  | inl e ↦ rw e (returns now (omega arith))
  | inr e ↦
      rw
        (
          e,
          delta_lem debug r.x h.x b.across a.across,
          delta_lem debug r.y h.y (omega (arith, b.down)) (omega (arith, a.down)),
        )
        (react-Draws grid h r v a b)
]

go_on-Draws :
    (n : ℕ) (goes_on : Bool) (r : Runner) (rs : List Runner) (v : ℕ) (rest : Run (List Runner × ℕ))
    → Draws n v rest
    → Draws n v (go_on goes_on r rs v rest)
unfolding go_on
go_on-Draws n false r rs v rest h = returns now (omega arith)
go_on-Draws n true r rs v rest h = Draws-bind n 0 (omega arith) h (λ a. returns now (omega arith))

tick_runners-Draws :
    (grid : GridType) (h : Hunter) (rs : List Runner) (v : ℕ)
    → IsInGrid h.x h.y
    → All RunnerIsInGrid rs
    → Draws (4 * length rs) v (tick_runners debug grid h rs v)
unfolding tick_runners
tick_runners-Draws grid h [] v a i = returns now (omega arith)
tick_runners-Draws grid h (r ∷ rs) v a (b, i) =
    Draws-bind 4 (4 * length rs) (omega arith) (tick_runner-Draws grid h r v a b) (λ o.
      go_on-Draws (4 * length rs) o.0.1 o.0.0 rs o.1 (tick_runners debug grid h rs o.1)
        (tick_runners-Draws grid h rs o.1 a i))

-- On a valid context, in a debug build: `tick` of the hunter draws RAND_VALUE at most twice, `tick` of
-- the runners at most four times for each runner, and they stop only if one of these draws is the
-- least `i32`: the differences and the squares never overflow.
pub tick-Draws :
    (ctx : Context) (v : ℕ)
    → IsValid ctx
    → Draws 2 v (Hunter.tick debug ctx v)
      × Draws (4 * length ctx.runners) v (Runner.tick debug ctx v)
unfolding Runner.tick
tick-Draws ctx v i = (
  hunter_tick-Draws ctx v i,
  Draws-bind (4 * length ctx.runners) 0 (omega arith)
      (tick_runners-Draws ctx.grid ctx.hunter ctx.runners v i.hunter i.runners)
      (λ a. returns now (omega arith)),
)
