-- ===== src/Gtk/Hunter/Closest.antt =====
-- The loop of `tick` of rust/gtk/src/modules/hunter.rs finds a nearest living runner.
use wasm_shared_buffers.Base.{
  ℕ, ◌≤◌, ◌<◌, ◌≡◌, refl, inl, inr, true, false, List, [], ◌∷◌, arith, ltb, if◌then◌else◌, ltb→lt,
  Bool-cases, All, ok,
}
use wasm_shared_buffers.Int.{pos, sub_ℕ, Profile}
use native.Mathlib.Nat.{add-zero, zero-add}
use wasm_shared_buffers.Gtk.State.{is_dead}
use wasm_shared_buffers.Gtk.Actor.{Runner, Hunter}
use wasm_shared_buffers.Gtk.Hunter.{Nearest, start, nearer, visit, closest}
use wasm_shared_buffers.Gtk.Hunter.Distance.{
  IsInGrid, RunnerIsInGrid, sq_gap, delta_lem, dist_of-sub_ℕ, sq_gap_bound,
}

pub data Mem {ℓ} {A : Type ℓ} (a : A) : List A → Type ℓ where
  here : {as' : List A} → Mem a (a ∷ as')
  there : {b : A} {as' : List A} → Mem a as' → Mem a (b ∷ as')

abbrev pub IsFar : Hunter → ℕ → Runner → Type 0
IsFar h d r = is_dead r.state ≡ false → d ≤ sq_gap h r

-- What a part of the loop makes of min_dx, min_dy and min_dist: it keeps them, and no living
-- runner is nearer than min_dist, or it aims at a nearest one, which is.
pub data Aims (h : Hunter) (n : Nearest) (d : ℕ) (rs : List Runner) : Nearest → Type 0 where
  kept : All (IsFar h d) rs → Aims h n d rs n
  aims :
      (r : Runner)
      → Mem r rs
      → is_dead r.state ≡ false
      → sq_gap h r < d
      → All (IsFar h (sq_gap h r)) rs
      → Aims h n d rs
          (record { min_dx = sub_ℕ r.x h.x; min_dy = sub_ℕ r.y h.y; min_dist = pos (sq_gap h r) })

ltb-false : (a b : ℕ) → ltb a b ≡ false → b ≤ a
ltb-false a b e = ground arith

-- The best so far of a round that aims at `r`.
abbrev pub aim : Hunter → Runner → Nearest
aim h r = record { min_dx = sub_ℕ r.x h.x; min_dy = sub_ℕ r.y h.y; min_dist = pos (sq_gap h r) }

visit-dead :
    (p : Profile) (h : Hunter) (r : Runner) (n : Nearest)
    → is_dead r.state ≡ true
    → visit p h r n ≡ ok n
unfolding visit
visit-dead p h r n e = rw e

visit-alive :
    (p : Profile) (h : Hunter) (r : Runner) (n : Nearest) (d : ℕ)
    → IsInGrid h.x h.y
    → RunnerIsInGrid r
    → n.min_dist ≡ pos d
    → is_dead r.state ≡ false
    → visit p h r n ≡ ok (if ltb (sq_gap h r) d then aim h r else n)
unfolding visit nearer
visit-alive p h r n d a b e alive = rw (
  alive,
  delta_lem p r.x h.x b.across a.across,
  delta_lem p r.y h.y (omega (arith, b.down)) (omega (arith, a.down)),
  dist_of-sub_ℕ p h r a b,
  e,
  add-zero (sq_gap h r),
  zero-add d,
)

module _ (h : Hunter) (r : Runner) {n : Nearest} {d : ℕ} {rs : List Runner} where
  Aims-far : {n' : Nearest} → IsFar h d r → Aims h n d rs n' → Aims h n d (r ∷ rs) n'
  Aims-far f (kept a) = kept (f, a)
  Aims-far f (aims s m alive k a) = aims s (there m) alive k (λ e. let g = f e in omega arith, a)

  Aims-near :
      {n' : Nearest}
      → is_dead r.state ≡ false
      → sq_gap h r < d
      → Aims h (aim h r) (sq_gap h r) rs n'
      → Aims h n d (r ∷ rs) n'
  Aims-near e l (kept a) = aims r here e l (λ _. omega arith, a)
  Aims-near e l (aims s m alive k a) = aims s (there m) alive (omega arith) (λ _. omega arith, a)

module _ (p : Profile) (h : Hunter) (a : IsInGrid h.x h.y) where
  closest-Aims :
      (rs : List Runner) (n : Nearest) (d : ℕ)
      → All RunnerIsInGrid rs
      → n.min_dist ≡ pos d
      → (n' : Nearest) × (closest p h rs n ≡ ok n') × Aims h n d rs n'
  unfolding closest
  closest-Aims [] n d i e = (n, refl, kept tt)
  closest-Aims (r ∷ rs) n d (b, i) e = elim (Bool-cases (is_dead r.state)) [
    | inl dead ↦
        let (n', run, so_far) = closest-Aims rs n d i e in
        (
          n',
          rw (visit-dead p h r n dead) run,
          Aims-far h r (λ alive. absurd (cc (dead, alive))) so_far,
        )
    | inr alive ↦ elim (Bool-cases (ltb (sq_gap h r) d)) [
      | inl near ↦
          let (n', run, so_far) = closest-Aims rs (aim h r) (sq_gap h r) i refl in
          (
            n',
            rw (visit-alive p h r n d a b e alive, near) run,
            Aims-near h r alive (ltb→lt (sq_gap h r) d near) so_far,
          )
      | inr far ↦
          let (n', run, so_far) = closest-Aims rs n d i e in
          (
            n',
            rw (visit-alive p h r n d a b e alive, far) run,
            Aims-far h r (λ _. ltb-false (sq_gap h r) d far) so_far,
          )
    ]
  ]

-- The target of the hunter.
pub data Targets (h : Hunter) (rs : List Runner) : Nearest → Type 0 where
  none_left : All (λ r. is_dead r.state ≡ true) rs → Targets h rs start
  nearest :
      (r : Runner)
      → Mem r rs
      → is_dead r.state ≡ false
      → All (IsFar h (sq_gap h r)) rs
      → Targets h rs (aim h r)

All-dead :
    (h : Hunter) (rs : List Runner)
    → IsInGrid h.x h.y
    → All RunnerIsInGrid rs
    → All (IsFar h 99999) rs
    → All (λ r. is_dead r.state ≡ true) rs
All-dead h [] a i f = tt
All-dead h (r ∷ rs) a (b, i) (f, fs) = (
  elim (Bool-cases (is_dead r.state)) [
    | inl dead ↦ dead
    | inr alive ↦ let k = f alive in absurd (omega (arith, sq_gap_bound h r a b))
  ],
  All-dead h rs a i fs,
)

Aims-Targets :
    (h : Hunter) (rs : List Runner) (n : Nearest)
    → IsInGrid h.x h.y
    → All RunnerIsInGrid rs
    → Aims h start 99999 rs n
    → Targets h rs n
Aims-Targets h rs n a i (kept f) = none_left (All-dead h rs a i f)
Aims-Targets h rs n a i (aims r m alive k f) = nearest r m alive f

-- While all actors are in the grid, in either build, `tick` heads for a nearest living runner, and
-- for no point when all are dead.
pub closest-Targets :
    (p : Profile) (h : Hunter) (rs : List Runner)
    → IsInGrid h.x h.y
    → All RunnerIsInGrid rs
    → (n : Nearest) × (closest p h rs start ≡ ok n) × Targets h rs n
unfolding start
closest-Targets p h rs a i =
    let (n, run, so_far) = closest-Aims p h a rs start 99999 i refl in
    (n, run, Aims-Targets h rs n a i so_far)
