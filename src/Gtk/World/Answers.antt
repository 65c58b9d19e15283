-- ===== src/Gtk/World/Answers.antt =====
-- In a release build the calls of `send_signal` in the whole gtk program come to their end: the
-- exports of the modules return.
use wasm_shared_buffers.Base.{◌≡◌, refl, sym, ap, ◌∙◌, ◌≢◌, ◌⊎◌, inl, inr, List, ◌∷◌, ok, ℕ}
use wasm_shared_buffers.Int.{pos, release}
use wasm_shared_buffers.Gtk.State.{
  Signal, idle, init, tick, modify_grid, exit, signal_from, signal_code, signal_from-signal_code,
}
use wasm_shared_buffers.Gtk.Outcome.{Yields-ok}
use wasm_shared_buffers.Gtk.Actor.{Context}
use wasm_shared_buffers.Gtk.Hunter.Tick.{IsValid, tick-Hunts}
use wasm_shared_buffers.Gtk.Runner.Tick.{tick-Runs}
use wasm_shared_buffers.Gtk.Protocol.{working, ready, polling, ended, sending}
use wasm_shared_buffers.Gtk.Protocol.Order.{
  done, called, busy, Reach-Inv, IsBehind-IsInStep, polls, Reach-WorksOnLast, IsHarmless,
  after-cases, Reach-ended,
}
use wasm_shared_buffers.Gtk.World.{
  World, context, hunter_call, runner_call, WorldStep, sends_runner, returns, hunter_takes,
  runner_takes, hunter_answers, runner_answers, taken_by, answered, Happens,
}
use wasm_shared_buffers.Gtk.World.Kept.{
  IsKept, Happens-IsKept, WorldStep-IsKept, hunter_sees-IsValid, runner_sees-IsValid,
}

-- Steps of the program, one after the other.
pub data Leads (w : World) : World → Type 0 where
  here : Leads w w
  on : {v w' : World} → Leads w v → WorldStep release v w' → Leads w w'

Leads-trans : {u v w : World} → Leads u v → Leads v w → Leads u w
Leads-trans l here = l
Leads-trans l (on m s) = on (Leads-trans l m) s

Leads-IsKept : {v w : World} → Leads v w → IsKept v → IsKept w
Leads-IsKept here k = k
Leads-IsKept (on l s) k = WorldStep-IsKept release s (Leads-IsKept l k)

hunter_call_ok :
    (s : Signal) (ctx : Context) (v : ℕ)
    → IsValid ctx
    → (r : Context × ℕ) × (hunter_call release s (pos 0) ctx v ≡ ok r)
unfolding hunter_call
hunter_call_ok tick ctx v i = let (r, e, _) = Yields-ok (tick-Hunts release ctx v i) refl in (r, e)
hunter_call_ok init ctx v i = (_, refl)
hunter_call_ok s ctx v i = (_, refl)

runner_call_ok :
    (s : Signal) (ctx : Context) (v : ℕ)
    → IsValid ctx
    → (r : Context × ℕ) × (runner_call release s (pos 0) ctx v ≡ ok r)
unfolding runner_call
runner_call_ok tick ctx v i = let (r, e, _) = Yields-ok (tick-Runs release ctx v i) refl in (r, e)
runner_call_ok init ctx v i = (_, refl)
runner_call_ok s ctx v i = (_, refl)

-- The hunter's container has answered, and the rest of the protocol is as it was.
record HunterDone (w w' : World) : Type 0 where
  leads : Leads w w'
  byte : w'.system.hunter.byte ≡ signal_code idle
  phase : w'.system.phase ≡ w.system.phase
  runner : w'.system.runner ≡ w.system.runner
  sent : w'.system.sent ≡ w.system.sent

hunter_works :
    (w : World) (s : Signal)
    → IsKept w
    → w.system.hunter.pc ≡ working s
    → s ≢ modify_grid
    → (w' : World) × HunterDone w w'
unfolding answered context
hunter_works w s k at n =
    let ((ctx, v), e) =
      hunter_call_ok s (context w) w.hunter_rand (hunter_sees-IsValid w w.runners k k.runners_in) in
    (
      _,
      record {
        leads = on here (hunter_answers s (pos 0) w.runners ctx v at n k.runners_in e);
        byte = refl;
        phase = refl;
        runner = refl;
        sent = refl;
      },
    )

hunter_done : (w : World) → IsKept w → IsHarmless w.system.sent → (w' : World) × HunterDone w w'
unfolding taken_by
hunter_done w k harmless = elim ((Reach-Inv k.reach).hunter) [
  | done e p q ↦ (w, record { leads = here; byte = e; phase = refl; runner = refl; sent = refl })
  | called s l m e p q ↦
      let take_ : WorldStep release w
          (record w { system = record w.system { hunter = taken_by s w.system.hunter } }) =
        hunter_takes s p (ap signal_from e ∙ signal_from-signal_code s) m in
      let (w', d) = hunter_works _ s (WorldStep-IsKept release take_ k) refl (harmless s _ q) in
      (
        w',
        record {
          leads = Leads-trans (on here take_) d.leads;
          byte = d.byte;
          phase = d.phase;
          runner = d.runner;
          sent = d.sent;
        },
      )
  | busy s l m e p q ↦
      let (before, last) = (Reach-WorksOnLast k.reach).0 s p in
      hunter_works w s k p (harmless s before (sym q ∙ last))
]

-- The same of the runners' container, while the host polls.
record RunnerDone (w w' : World) : Type 0 where
  leads : Leads w w'
  byte : w'.system.runner.byte ≡ signal_code idle
  phase : w'.system.phase ≡ w.system.phase
  hunter : w'.system.hunter ≡ w.system.hunter
  sent : w'.system.sent ≡ w.system.sent

runner_works :
    (w : World) (s : Signal)
    → IsKept w
    → w.system.runner.pc ≡ working s
    → (w' : World) × RunnerDone w w'
unfolding answered context
runner_works w s k at =
    let ((ctx, v), e) =
      runner_call_ok s (context w) w.runner_rand (runner_sees-IsValid w w.hunter k k.hunter_in) in
    (
      _,
      record {
        leads = on here (runner_answers s (pos 0) w.hunter ctx v at k.hunter_in e);
        byte = refl;
        phase = refl;
        hunter = refl;
        sent = refl;
      },
    )

runner_done : (w : World) → IsKept w → w.system.phase ≡ polling → (w' : World) × RunnerDone w w'
unfolding taken_by
runner_done w k f =
    let i =
      IsBehind-IsInStep w.system.sent w.system.phase (polls w.system.phase f)
        (Reach-Inv k.reach).runner in
    elim i [
      | done e p q ↦
          (w, record { leads = here; byte = e; phase = refl; hunter = refl; sent = refl })
      | called s l m e p q ↦
          let take_ : WorldStep release w
              (record w { system = record w.system { runner = taken_by s w.system.runner } }) =
            runner_takes s p (ap signal_from e ∙ signal_from-signal_code s) m in
          let (w', d) = runner_works _ s (WorldStep-IsKept release take_ k) refl in
          (
            w',
            record {
              leads = Leads-trans (on here take_) d.leads;
              byte = d.byte;
              phase = d.phase;
              hunter = d.hunter;
              sent = d.sent;
            },
          )
      | busy s l m e p q ↦ runner_works w s k p
    ]

-- The program gets from `w` to a world where the host has sent nothing more, and is free, or has ended
-- by `exit`.
pub record Frees (w w' : World) : Type 0 where
  pub leads : Leads w w'
  pub free :
      (w'.system.phase ≡ ready)
      ⊎ ((w'.system.phase ≡ ended) × (before : List Signal) × (w'.system.sent ≡ exit ∷ before))
  pub sent : w'.system.sent ≡ w.system.sent

polled :
    (w : World)
    → IsKept w
    → w.system.phase ≡ polling
    → IsHarmless w.system.sent
    → (w' : World) × Frees w w'
polled w k f harmless =
    let (u, h) = hunter_done w k harmless in
    let g = h.phase ∙ f in
    let (v, r) = runner_done u (Leads-IsKept h.leads k) g in
    (
      record v { system = record v.system { phase = ready } },
      record {
        leads =
            on (Leads-trans h.leads r.leads)
              (returns (r.phase ∙ g) (ap (λ a. a.byte) r.hunter ∙ h.byte) r.byte);
        free = inl refl;
        sent = r.sent ∙ h.sent;
      },
    )

-- From every world that a release build reaches, unless the last signal was `modify_grid`, steps of
-- the host and the containers lead to a world where the host's call of `send_signal` has returned,
-- and no other signal was sent. The host is then ready for a next call, unless the last signal was `exit`.
pub Happens-Frees :
    {w : World} → Happens release w → IsHarmless w.system.sent → (w' : World) × Frees w w'
Happens-Frees {w = w} h harmless =
    let k = Happens-IsKept release h in
    elim w.system.phase as (λ f. w.system.phase ≡ f → (w' : World) × Frees w w') [
      | ready ↦ λ f. (w, record { leads = here; free = inl f; sent = refl })
      | polling ↦ λ f. polled w k f harmless
      | ended ↦ λ f. (
        w,
        record {
          leads = here;
          free = (let (before, last) = Reach-ended k.reach f in inr (f, before, last));
          sent = refl;
        },
      )
      | sending s ↦ λ f.
          let step_ : WorldStep release w _ = sends_runner s f in
          let k' = WorldStep-IsKept release step_ k in
          elim (after-cases s) [
            | inl e ↦
                let (w', d) = polled _ k' e harmless in
                (
                  w',
                  record {
                    leads = Leads-trans (on here step_) d.leads;
                    free = d.free;
                    sent = d.sent;
                  },
                )
            | inr (e, _) ↦ (
              _,
              record {
                leads = on here step_;
                free = (let (before, last) = Reach-ended k'.reach e in inr (e, before, last));
                sent = refl;
              },
            )
          ]
    ]
      refl
