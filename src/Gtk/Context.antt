-- ===== src/Gtk/Context.antt =====
-- The modules' context in the shared buffers: `Context::new_unowned` and `update` of
-- rust/gtk/src/module_common.rs. The read-write buffer is the list of the bit patterns of its words
-- from `rw_ptr` on, which is behind the signal bytes. The structs are laid out as the comment on
-- `Actors` of rust/gtk/src/bin/host.rs says; a `State` is the low byte of its word.
pub mod Shown
use wasm_shared_buffers.Base.{
  ℕ, zero, suc, ◌+◌, ◌-◌, ◌*◌, ◌/◌, ◌%◌, ◌^◌, ◌≤◌, ◌<◌, ◌≡◌, refl, sym, ap, ◌∙◌, ◌≢◌, ◌↔◌, ◌⊎◌, inl,
  inr, Bool, true, false, not, ◌&&◌, ◌||◌, Option, none, some, List, [], ◌∷◌, ◌++◌, arith, ltb, leb,
  ◌==◌, if◌then◌else◌, le→leb, lt→ltb, ltb→lt, leb→le, ==_iff, Bool-cases, Option-cases, length,
  get_elem?, get_or, take, drop, replicate, All, Run, ok, panic, overflow, explicit, index,
  assertion, ◌>>=◌, ◌>>◌, check, assert, item, >>=-eq-ok, length-replicate, length-append,
}
use wasm_shared_buffers.Int.{
  ℤ, pos, negsuc, pos_part, neg_part, sub_ℕ, ◌+ℤ◌, ◌-ℤ◌, ◌*ℤ◌, ltb_ℤ, as_i32, as_usize, Profile,
  debug, release, overflows, wrap, fit, saturating_add, abs_i32, rem3, fit-ok, as_usize-as_i32,
  as_i32-low,
}
use wasm_shared_buffers.Gtk.State.{
  State, walking, running, dead, state_code, state_from, state_from-state_code,
}
use wasm_shared_buffers.Gtk.Actor.{Context, Runner, Hunter, n_runners}
use wasm_shared_buffers.Gtk.Actors.{layout, runners_layout}
use wasm_shared_buffers.Gtk.View.{grid_view}

unfoldable pub hunter_view : List ℕ → Run Hunter
hunter_view rw_ptr = do x ← item rw_ptr 0; y ← item rw_ptr 1; ok (record { x = x; y = y })

-- `size_of::<Hunter>()` bytes are two words.
unfoldable pub skip_hunter : List ℕ → List ℕ
skip_hunter ptr = drop 2 ptr

-- A byte that is no state is undefined behaviour, and a panic here.
unfoldable pub runner_view : List ℕ → Run Runner
runner_view ptr = do
  x ← item ptr 0
  y ← item ptr 1
  s ← item ptr 2
  state ← state_from (pos (s % 256))
  ok (record { x = x; y = y; state = state })

-- `n` runners, three words each.
unfoldable pub runners_view : ℕ → List ℕ → Run (List Runner)
runners_view zero ptr = ok []
runners_view (suc n) ptr = do r ← runner_view ptr; rs ← runners_view n (drop 3 ptr); ok (r ∷ rs)

unfoldable pub new_unowned : List ℕ → List ℕ → Run Context
new_unowned ro_ptr rw_ptr = do
  hunter ← hunter_view rw_ptr
  runners ← runners_view n_runners (skip_hunter rw_ptr)
  ok (record { grid = grid_view ro_ptr; hunter = hunter; runners = runners })

-- All three references are set anew.
unfoldable pub update : Context → List ℕ → List ℕ → Run Context
update self ro_ptr rw_ptr = do
  hunter ← hunter_view rw_ptr
  runners ← runners_view n_runners (skip_hunter rw_ptr)
  ok (record self { grid = grid_view ro_ptr; hunter = hunter; runners = runners })

state_byte : (s : State) → state_code s % 256 ≡ state_code s
unfolding state_code
state_byte walking = refl
state_byte running = refl
state_byte dead = refl

runner_view-runners_layout :
    (r : Runner) (rs : List Runner) → runner_view (runners_layout (r ∷ rs)) ≡ ok r
unfolding runner_view runners_layout
runner_view-runners_layout r rs = rw (state_byte r.state, state_from-state_code r.state) refl

runners_view-runners_layout :
    (rs : List Runner) → runners_view (length rs) (runners_layout rs) ≡ ok rs
unfolding runners_view runners_layout
runners_view-runners_layout [] = refl
runners_view-runners_layout (r ∷ rs) =
    rw (runner_view-runners_layout r rs, runners_view-runners_layout rs) refl

-- On a buffer that holds a hunter and 15 runners in the documented layout, behind the word of the
-- signals, `new_unowned` refers to these, and to the grid in the read-only buffer; so does `update`,
-- whatever the context was.
pub new_unowned-layout :
    (self : Context) (ro : List ℕ) (sig : ℕ) (h : Hunter) (rs : List Runner)
    → length rs ≡ n_runners
    → (new_unowned ro (drop 1 (layout sig h rs))
        ≡ ok (record { grid = grid_view ro; hunter = h; runners = rs }))
      × (update self ro (drop 1 (layout sig h rs))
          ≡ ok (record { grid = grid_view ro; hunter = h; runners = rs }))
unfolding new_unowned update hunter_view skip_hunter layout
new_unowned-layout self ro sig h rs n = (
  rw (sym n, runners_view-runners_layout rs) refl,
  rw (sym n, runners_view-runners_layout rs) refl,
)
