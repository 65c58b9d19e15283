-- ===== src/Gtk/Host.antt =====
-- The host's context and its timer: rust/gtk/src/bin/host.rs.
-- Of the context there are the grid and the flag; the draws of the random generator and what the
-- rounds of polling read are arguments.
pub mod Arena
pub mod Pen
use wasm_shared_buffers.Base.{
  ℕ, zero, suc, ◌+◌, ◌-◌, ◌*◌, ◌/◌, ◌%◌, ◌^◌, ◌≤◌, ◌<◌, ◌≡◌, refl, sym, ap, ◌∙◌, ◌≢◌, ◌↔◌, ◌⊎◌, inl,
  inr, Bool, true, false, not, ◌&&◌, ◌||◌, Option, none, some, List, [], ◌∷◌, ◌++◌, arith, ltb, leb,
  ◌==◌, if◌then◌else◌, le→leb, lt→ltb, ltb→lt, leb→le, ==_iff, Bool-cases, Option-cases, length,
  get_elem?, get_or, take, drop, replicate, All, Run, ok, panic, overflow, explicit, index,
  assertion, ◌>>=◌, ◌>>◌, check, assert, item, >>=-eq-ok, length-replicate, length-append,
}
use wasm_shared_buffers.Int.{
  ℤ, pos, negsuc, pos_part, neg_part, sub_ℕ, ◌+ℤ◌, ◌-ℤ◌, ◌*ℤ◌, ltb_ℤ, as_i32, as_usize, Profile,
  debug, release, overflows, wrap, fit, saturating_add, abs_i32, rem3, fit-ok, as_usize-as_i32,
  as_i32-low,
}
use wasm_shared_buffers.Gtk.State.{Signal, init, tick}
use wasm_shared_buffers.Gtk.Signals.{send_signal}
use wasm_shared_buffers.Gtk.Grid

pub record HostContext : Type 0 where
  pub grid : List ℕ
  pub enable_host_modify : Bool

-- From the mapped buffer on.
unfoldable pub host_new : List (ℕ × ℕ) → (ℕ → ℕ × ℕ) → List ℕ → Run HostContext
host_new draws bytes shared_ro = do
  grid ← Grid.init draws shared_ro
  answer ← (send_signal init true bytes).1
  ok (record { grid = grid; enable_host_modify = false })

unfoldable pub toggle_host_modify : HostContext → HostContext
toggle_host_modify hc = record hc { enable_host_modify = not hc.enable_host_modify }

unfoldable pub modify_if_enabled : Profile → List (ℕ × ℕ) → HostContext → Run HostContext
modify_if_enabled p draws hc =
    if hc.enable_host_modify
    then (do grid ← Grid.modify p draws hc.grid; ok (record hc { grid = grid }))
    else ok hc

unfoldable pub on_tick : Profile → List (ℕ × ℕ) → (ℕ → ℕ × ℕ) → HostContext → Run HostContext
on_tick p draws bytes hc = do
  hc₁ ← modify_if_enabled p draws hc
  answer ← (send_signal tick true bytes).1
  ok hc₁
