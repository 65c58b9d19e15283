-- ===== src/Gtk/State.antt =====
-- `State` and `Signal` of the gtk program: rust/gtk/src/shared.rs and rust/gtk/src/host_common.rs.
use wasm_shared_buffers.Base.{
  ◌<◌, ℕ, zero, suc, ◌≡◌, refl, ◌⊎◌, inl, inr, Bool, true, false, ◌&&◌, List, [], ◌∷◌, arith, ltb,
  leb, Run, ok, panic, assertion, ◌>>◌, assert, item,
}
use wasm_shared_buffers.Int.{ℤ, pos, negsuc, pos_part, neg_part}

pub data State : Type 0 where
  walking running dead : State

abbrev pub is_dead : State → Bool
is_dead dead = true
is_dead _ = false

-- The number that a `State` is in the shared buffer.
unfoldable pub state_code : State → ℕ
state_code walking = 0
state_code running = 1
state_code dead = 2

-- The array that `State::from` indexes.
abbrev states : List State
states = walking ∷ running ∷ dead ∷ []

unfoldable pub state_from : ℤ → Run State
state_from value = do
  assert (leb (neg_part value) 0 && ltb (pos_part value) 3)
  item states (pos_part value)

pub data Signal : Type 0 where
  idle init tick large_alloc modify_grid exit : Signal

unfoldable pub signal_code : Signal → ℕ
signal_code idle = 0
signal_code init = 1
signal_code tick = 2
signal_code large_alloc = 3
signal_code modify_grid = 4
signal_code exit = 5

-- The array that `Signal::from` indexes.
abbrev signals : List Signal
signals = idle ∷ init ∷ tick ∷ large_alloc ∷ modify_grid ∷ exit ∷ []

unfoldable pub signal_from : ℕ → Run Signal
signal_from value = do assert (ltb value 6); item signals value

-- The number of a state is read back as the state; a number that `State::from` reads is the number
-- of what it reads; and it fails by the assertion only.
pub state_from_lem :
    (i : ℤ)
    → (state_from i ≡ panic assertion)
      ⊎ ((s : State) × (i ≡ pos (state_code s)) × (state_from i ≡ ok s))
unfolding state_from state_code
state_from_lem (negsuc n) = inl (ground arith)
state_from_lem (pos zero) = inr (walking, refl, refl)
state_from_lem (pos (suc zero)) = inr (running, refl, refl)
state_from_lem (pos (suc (suc zero))) = inr (dead, refl, refl)
state_from_lem (pos (suc (suc (suc n)))) = inl (ground arith)

pub state_from-state_code : (s : State) → state_from (pos (state_code s)) ≡ ok s
unfolding state_from state_code
state_from-state_code walking = refl
state_from-state_code running = refl
state_from-state_code dead = refl

pub signal_from_lem :
    (n : ℕ)
    → ((5 < n) × (signal_from n ≡ panic assertion))
      ⊎ ((s : Signal) × (n ≡ signal_code s) × (signal_from n ≡ ok s))
unfolding signal_from signal_code
signal_from_lem zero = inr (idle, refl, refl)
signal_from_lem (suc zero) = inr (init, refl, refl)
signal_from_lem (suc (suc zero)) = inr (tick, refl, refl)
signal_from_lem (suc (suc (suc zero))) = inr (large_alloc, refl, refl)
signal_from_lem (suc (suc (suc (suc zero)))) = inr (modify_grid, refl, refl)
signal_from_lem (suc (suc (suc (suc (suc zero))))) = inr (exit, refl, refl)
signal_from_lem (suc (suc (suc (suc (suc (suc n)))))) = inl (omega arith, ground arith)

pub signal_from-signal_code : (s : Signal) → signal_from (signal_code s) ≡ ok s
unfolding signal_from signal_code
signal_from-signal_code idle = refl
signal_from-signal_code init = refl
signal_from-signal_code tick = refl
signal_from-signal_code large_alloc = refl
signal_from-signal_code modify_grid = refl
signal_from-signal_code exit = refl
