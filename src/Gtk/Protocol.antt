-- ===== src/Gtk/Protocol.antt =====
-- The host and the two containers together: the polling protocol over the signal bytes of the
-- shared buffer, as the comment above `send_signal` of rust/gtk/src/bin/host.rs describes it, in the
-- steps of `send_signal` (there) and of `wait_for_signal` and `send_idle` (host_common.rs).
-- A container calls `wait_for_signal`, acts on what it returns, and calls `send_idle`; the host's
-- calls wait for the answers, but for the call with `Exit` when the host is dropped, which returns at
-- once and is the last one. A container that takes `Exit` may answer before it ends. The time limits are
-- not modelled.
pub mod Order
pub mod Progress
use wasm_shared_buffers.Base.{
  ℕ, zero, suc, ◌+◌, ◌-◌, ◌*◌, ◌/◌, ◌%◌, ◌^◌, ◌≤◌, ◌<◌, ◌≡◌, refl, sym, ap, ◌∙◌, ◌≢◌, ◌↔◌, ◌⊎◌, inl,
  inr, Bool, true, false, not, ◌&&◌, ◌||◌, Option, none, some, List, [], ◌∷◌, ◌++◌, arith, ltb, leb,
  ◌==◌, if◌then◌else◌, le→leb, lt→ltb, ltb→lt, leb→le, ==_iff, Bool-cases, Option-cases, length,
  get_elem?, get_or, take, drop, replicate, All, Run, ok, panic, overflow, explicit, index,
  assertion, ◌>>=◌, ◌>>◌, check, assert, item, >>=-eq-ok, length-replicate, length-append,
}
use wasm_shared_buffers.Gtk.State.{Signal, idle, modify_grid, exit, signal_from, signal_code}

-- What a container does next: poll, or act on a signal.
pub data Pc : Type 0 where
  waiting : Pc
  working : Signal → Pc

-- A container, its signal byte, and the signals that it has taken, the last one first.
pub record Party : Type 0 where
  pub byte : ℕ
  pub pc : Pc
  pub taken : List Signal

-- A container's step: a round of `wait_for_signal` that returns, or `send_idle`.
pub data Handles (a : Party) : Party → Type 0 where
  take_signal :
      (s : Signal)
      → a.pc ≡ waiting
      → signal_from a.byte ≡ ok s
      → s ≢ idle
      → Handles a (record a { pc = working s; taken = s ∷ a.taken })
  send_idle :
      (s : Signal)
      → a.pc ≡ working s
      → Handles a (record a { byte = signal_code idle; pc = waiting })

-- The host is free, polls for the answers, has ended, or has written the signal for the hunter only.
pub data Phase : Type 0 where
  ready polling ended : Phase
  sending : Signal → Phase

-- `wait_for_idle` is true but for `Exit`.
unfoldable pub after : Signal → Phase
after exit = ended
after _ = polling

pub record System : Type 0 where
  pub phase : Phase
  pub hunter : Party
  pub runner : Party
  pub sent : List Signal

pub data Step (y : System) : System → Type 0 where
  send :
      (s : Signal)
      → y.phase ≡ ready
      → s ≢ idle
      → Step y (record y {
        phase = sending s;
        hunter = record y.hunter { byte = signal_code s };
        sent = s ∷ y.sent;
      })
  send_runner :
      (s : Signal)
      → y.phase ≡ sending s
      → Step y (record y { phase = after s; runner = record y.runner { byte = signal_code s } })
  host_returns :
      y.phase ≡ polling
      → y.hunter.byte ≡ signal_code idle
      → y.runner.byte ≡ signal_code idle
      → Step y (record y { phase = ready })
  -- `ModifyGrid` crashes the container of the hunter, which does not answer it.
  hunter_moves :
      {a : Party}
      → y.hunter.pc ≢ working modify_grid
      → Handles y.hunter a
      → Step y (record y { hunter = a })
  runner_moves : {a : Party} → Handles y.runner a → Step y (record y { runner = a })

abbrev pub fresh : Party
fresh = record { byte = 0; pc = waiting; taken = [] }

-- The containers start to poll before the host sends the first signal.
abbrev pub start : System
start = record { phase = ready; hunter = fresh; runner = fresh; sent = [] }

pub data Reach : System → Type 0 where
  begin : Reach start
  later : {y z : System} → Reach y → Step y z → Reach z
