-- ===== src/Gtk/Actors.antt =====
-- The host's view of the read-write buffer: `Actors` of rust/gtk/src/bin/host.rs.
-- The buffer is the list of the bit patterns of its `i32`s.
use wasm_shared_buffers.Base.{
  ℕ, zero, suc, ◌+◌, ◌*◌, ◌≡◌, ◌<◌, refl, ◌∙◌, ◌++◌, length, none, some, List, [], ◌∷◌, arith,
  get_elem?, Run, ok, panic, index, ◌>>=◌, item,
}
use wasm_shared_buffers.Int.{ℤ, pos, as_i32}
use wasm_shared_buffers.Gtk.State.{
  State, walking, running, dead, state_from, state_code, state_from-state_code,
}
use wasm_shared_buffers.Gtk.Actor.{Runner, Hunter}

pub record Position : Type 0 where
  pub x : ℤ
  pub y : ℤ

unfoldable pub hunter_position : List ℕ → Run Position
hunter_position data_ = do
  x ← item data_ 1
  y ← item data_ 2
  ok (record { x = as_i32 x; y = as_i32 y })

unfoldable pub runner_at : List ℕ → ℕ → Run (Position × State)
runner_at data_ i = do
  x ← item data_ i
  y ← item data_ (i + 1)
  s ← item data_ (i + 2)
  state ← state_from (as_i32 s)
  ok (record { x = as_i32 x; y = as_i32 y }, state)

unfoldable pub runner : List ℕ → ℕ → Run (Position × State)
runner data_ i = runner_at data_ (3 + 3 * i)

-- The structs of the modules in the order of the comment on `Actors`:
-- [sig, hx, hy, r0x, r0y, r0s, r1x, r1y, r1s, ...]. The host's slice has 192 words and goes on behind
-- those of the runners.
unfoldable pub runners_layout : List Runner → List ℕ
runners_layout [] = []
runners_layout (r ∷ rs) = r.x ∷ r.y ∷ state_code r.state ∷ runners_layout rs

unfoldable pub layout : ℕ → Hunter → List Runner → List ℕ
layout sig h rs = sig ∷ h.x ∷ h.y ∷ runners_layout rs

abbrev pub seen : Runner → Position × State
seen r = (record { x = as_i32 r.x; y = as_i32 r.y }, r.state)

-- What the host sees at a position of the runners: the runner there, or an index out of range.
abbrev pub look : List Runner → ℕ → Run (Position × State)
look rs i = elim (get_elem? rs i) [ some r ↦ ok (seen r) | none ↦ panic index ]

state_code-low : (s : State) → as_i32 (state_code s) ≡ pos (state_code s)
unfolding state_code as_i32
state_code-low walking = refl
state_code-low running = refl
state_code-low dead = refl

runner_at-here :
    (r : Runner) (d : List ℕ) → runner_at (r.x ∷ r.y ∷ state_code r.state ∷ d) 0 ≡ ok (seen r)
unfolding runner_at
runner_at-here r d = rw (state_code-low r.state, state_from-state_code r.state)

runner_at-there :
    (a b c : ℕ) (d : List ℕ) (i : ℕ) → runner_at (a ∷ b ∷ c ∷ d) (3 + i) ≡ runner_at d i
unfolding runner_at
runner_at-there a b c d i =
    let first : 3 + i ≡ suc (suc (suc i)) = omega arith in
    let second : suc (suc (suc i)) + 1 ≡ suc (suc (suc (i + 1))) = omega arith in
    let third : suc (suc (suc i)) + 2 ≡ suc (suc (suc (i + 2))) = omega arith in
    rw (first, second, third)

runner_at-nil : (i : ℕ) → runner_at [] i ≡ panic index
unfolding runner_at
runner_at-nil i = refl

runner_at-runners_layout :
    (rs : List Runner) (i : ℕ) → runner_at (runners_layout rs) (3 * i) ≡ look rs i
unfolding runners_layout
runner_at-runners_layout [] i = runner_at-nil (3 * i)
runner_at-runners_layout (r ∷ rs) zero = runner_at-here r (runners_layout rs)
runner_at-runners_layout (r ∷ rs) (suc i) =
    let next : 3 * suc i ≡ 3 + 3 * i = omega arith in
    rw next (
      runner_at-there r.x r.y (state_code r.state) (runners_layout rs) (3 * i)
      ∙ runner_at-runners_layout rs i)

pub layout-look :
    (sig : ℕ) (h : Hunter) (rs : List Runner) (i : ℕ)
    → (hunter_position (layout sig h rs) ≡ ok (record { x = as_i32 h.x; y = as_i32 h.y }))
      × (runner (layout sig h rs) i ≡ look rs i)
unfolding hunter_position runner layout
layout-look sig h rs i =
    (refl, runner_at-there sig h.x h.y (runners_layout rs) (3 * i) ∙ runner_at-runners_layout rs i)

runner_at-rest :
    (rs : List Runner) (rest : List ℕ) (i : ℕ)
    → i < length rs
    → runner_at (runners_layout rs ++ rest) (3 * i) ≡ look rs i
unfolding runners_layout
runner_at-rest [] rest i h = absurd (omega arith)
runner_at-rest (r ∷ rs) rest zero h = runner_at-here r (runners_layout rs ++ rest)
runner_at-rest (r ∷ rs) rest (suc i) h =
    let next : 3 * suc i ≡ 3 + 3 * i = omega arith in
    rw next (
      runner_at-there r.x r.y (state_code r.state) (runners_layout rs ++ rest) (3 * i)
      ∙ runner_at-rest rs rest i (omega arith))

get_elem?-in : (rs : List Runner) (i : ℕ) → i < length rs → (r : Runner) × (get_elem? rs i ≡ some r)
get_elem?-in [] i h = absurd (omega arith)
get_elem?-in (r ∷ rs) zero h = (r, refl)
get_elem?-in (r ∷ rs) (suc i) h = get_elem?-in rs i (omega arith)

-- In a buffer that holds the structs of the modules, and any words behind them, the host reads the
-- position of the hunter, and at each index below the number of the runners the position and the state
-- of that runner.
pub runner-layout :
    (sig : ℕ) (h : Hunter) (rs : List Runner) (rest : List ℕ) (i : ℕ)
    → i < length rs
    → (hunter_position (layout sig h rs ++ rest) ≡ ok (record { x = as_i32 h.x; y = as_i32 h.y }))
      × (r : Runner) × (get_elem? rs i ≡ some r)
      × (runner (layout sig h rs ++ rest) i ≡ ok (seen r))
unfolding hunter_position runner layout
runner-layout sig h rs rest i below =
    let (r, at) = get_elem?-in rs i below in
    (
      refl,
      r,
      at,
      runner_at-there sig h.x h.y (runners_layout rs ++ rest) (3 * i)
          ∙ runner_at-rest rs rest i below
          ∙ rw (look, at) refl,
    )
