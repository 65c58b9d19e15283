-- ===== src/Gtk/World/Placed.antt =====
-- The calls of the modules put the actors inside the wall and keep them there.
use wasm_shared_buffers.Base.{
  ℕ, suc, ◌≡◌, refl, ap, ◌⊎◌, inl, inr, List, [], ◌∷◌, arith, Bool-cases, length, All, Run, ok,
}
use wasm_shared_buffers.Int.{ℤ, as_usize, Profile}
use mathlib.Core.Path.{subst}
use wasm_shared_buffers.Gtk.State.{Signal, init, tick}
use wasm_shared_buffers.Gtk.Outcome.{Yields, yields, overflowed}
use wasm_shared_buffers.Gtk.Actor.{Runner, Context, rand_usize}
use wasm_shared_buffers.Gtk.Actor.Move.{Lands}
use wasm_shared_buffers.Gtk.Context.Shown.{AllTicked-length}
use wasm_shared_buffers.Gtk.Grid.Init.{AreInside}
use wasm_shared_buffers.Gtk.Grid.Modify.{modify-turned}
use wasm_shared_buffers.Gtk.Host.{HostContext, modify_if_enabled}
use wasm_shared_buffers.Gtk.Host.Arena.{IsArena, turned-IsArena}
use wasm_shared_buffers.Gtk.Host.Pen.{
  IsInside, RunnerIsInside, Lands-IsInside, AllTicked-IsInside, place-RunnerIsInside,
}
use wasm_shared_buffers.Gtk.Hunter
use wasm_shared_buffers.Gtk.Hunter.Tick.{IsValid, tick-Hunts}
use wasm_shared_buffers.Gtk.Runner
use wasm_shared_buffers.Gtk.Runner.Tick.{AllTicked, tick-Runs}
use wasm_shared_buffers.Gtk.View.{grid_view}
use wasm_shared_buffers.Gtk.World.{hunter_call, runner_call}

-- What a call that has returned yields.
Yields-eq :
    {A : Type 0} {P : A → Type 0} {p : Profile} {r : Run A} (a : A) → Yields P p r → r ≡ ok a → P a
Yields-eq {P = P} a (yields {a = b} h) e = let same : b ≡ a = cc e in subst P same h
Yields-eq a overflowed e = absurd (cc e)

-- Before its call of `init` a module finds nothing; before any other call the actors are placed.
pub hunter_call-IsInside :
    (p : Profile) (s : Signal) (seed : ℤ) (d : List ℕ) (ctx : Context) (v : ℕ) (r : Context × ℕ)
    → IsArena d
    → ctx.grid ≡ grid_view d
    → IsValid ctx
    → (s ≡ init) ⊎ IsInside ctx.hunter.x ctx.hunter.y
    → hunter_call p s seed ctx v ≡ ok r
    → IsInside r.0.hunter.x r.0.hunter.y
unfolding hunter_call Hunter.init
hunter_call-IsInside p init seed d ctx v r i g valid before e =
    let same : Hunter.init ctx seed ≡ r = cc e in
    rw (← same) (record { across = (omega arith, omega arith); down = (omega arith, omega arith) })
hunter_call-IsInside p tick seed d ctx v r i g valid (inl never) e = absurd (cc never)
hunter_call-IsInside p tick seed d ctx v r i g valid (inr h) e =
    let moved = Yields-eq r (tick-Hunts p ctx v valid) e in
    Lands-IsInside d i h
      (subst (λ c. Lands c ctx.hunter.x ctx.hunter.y (r.0.hunter.x, r.0.hunter.y)) g moved.lands)
hunter_call-IsInside p s seed d ctx v r i g valid (inl never) e = absurd (cc never)
hunter_call-IsInside p s seed d ctx v r i g valid (inr h) e =
    let same : (ctx, v) ≡ r = cc e in subst (λ q. IsInside q.0.hunter.x q.0.hunter.y) same h

place-length : (rs : List Runner) (v : ℕ) → length (Runner.place rs v).0 ≡ length rs
unfolding Runner.place
place-length [] v = refl
place-length (r ∷ rs) v = ap suc (place-length rs (rand_usize (rand_usize v)))

-- All runners inside the wall, as many as before.
abbrev pub ArePlaced : List Runner → List Runner → Type 0
ArePlaced rs rs' = All RunnerIsInside rs' × (length rs' ≡ length rs)

pub runner_call-ArePlaced :
    (p : Profile) (s : Signal) (seed : ℤ) (d : List ℕ) (ctx : Context) (v : ℕ) (r : Context × ℕ)
    → IsArena d
    → ctx.grid ≡ grid_view d
    → IsValid ctx
    → (s ≡ init) ⊎ All RunnerIsInside ctx.runners
    → runner_call p s seed ctx v ≡ ok r
    → ArePlaced ctx.runners r.0.runners
unfolding runner_call Runner.init
runner_call-ArePlaced p init seed d ctx v r i g valid before e =
    let same : Runner.init ctx seed ≡ r = cc e in
    rw (← same)
      (place-RunnerIsInside ctx.runners (as_usize seed), place-length ctx.runners (as_usize seed))
runner_call-ArePlaced p tick seed d ctx v r i g valid (inl never) e = absurd (cc never)
runner_call-ArePlaced p tick seed d ctx v r i g valid (inr h) e =
    let ran = Yields-eq r (tick-Runs p ctx v valid) e in
    (
      AllTicked-IsInside d i
          (subst (λ c. AllTicked p c ctx.hunter ctx.runners r.0.runners) g ran.ticked) h,
      AllTicked-length ran.ticked,
    )
runner_call-ArePlaced p s seed d ctx v r i g valid (inl never) e = absurd (cc never)
runner_call-ArePlaced p s seed d ctx v r i g valid (inr h) e =
    let same : (ctx, v) ≡ r = cc e in subst (λ q. ArePlaced ctx.runners q.0.runners) same (h, refl)

-- The host turns cells inside the wall only.
pub modify_if_enabled-IsArena :
    (p : Profile) (draws : List (ℕ × ℕ)) (hc hc' : HostContext)
    → IsArena hc.grid
    → AreInside draws
    → modify_if_enabled p draws hc ≡ ok hc'
    → IsArena hc'.grid
unfolding modify_if_enabled
modify_if_enabled-IsArena p draws hc hc' i all e = elim (Bool-cases hc.enable_host_modify) [
  | inl on ↦
      let (d', run, paints, binary) = modify-turned p draws hc.grid i.binary all in
      let outcome : modify_if_enabled p draws hc ≡ ok (record hc { grid = d' }) =
        rw (on, run) refl in
      let same : record hc { grid = d' } ≡ hc' = cc (e, outcome) in
      subst (λ h. IsArena h.grid) same (turned-IsArena draws hc.grid d' i all paints binary)
  | inr off ↦
      let outcome : modify_if_enabled p draws hc ≡ ok hc = rw off refl in
      let same : hc ≡ hc' = cc (e, outcome) in subst (λ h. IsArena h.grid) same i
]
