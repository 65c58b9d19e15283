-- ===== src/Gtk/Protocol/Progress.antt =====
-- The protocol never gets stuck: the containers can always finish what the host waits for.
use wasm_shared_buffers.Base.{ℕ, suc, ◌≡◌, refl, sym, ap, ◌≢◌, ◌∙◌, List, ◌∷◌}
use mathlib.Core.Path.{subst}
use wasm_shared_buffers.Gtk.State.{
  Signal, idle, modify_grid, exit, signal_from, signal_code, signal_from-signal_code,
}
use wasm_shared_buffers.Gtk.Protocol.{
  Pc, waiting, working, Party, Handles, take_signal, send_idle, Phase, ready, polling, ended,
  sending, send_runner, System, Step, later, host_returns, hunter_moves, runner_moves, Reach,
}
use wasm_shared_buffers.Gtk.Protocol.Order.{
  IsInStep, done, called, busy, Reach-Inv, IsBehind-IsInStep, polls, WorksOnLast, Reach-WorksOnLast,
  IsHarmless, IsAnswered, sending_last, Reach-ended, after-polling,
}

-- Steps of one container, at most two of them.
data Acts (a : Party) : Party → Type 0 where
  rest : Acts a a
  once : {b : Party} → a.pc ≢ working modify_grid → Handles a b → Acts a b
  twice :
      {b c : Party}
      → a.pc ≢ working modify_grid
      → Handles a b
      → b.pc ≢ working modify_grid
      → Handles b c
      → Acts a c

not_modify_grid :
    (pc : Pc) (s : Signal) → pc ≡ working s → s ≢ modify_grid → pc ≢ working modify_grid
not_modify_grid pc s e n f = n (cc (e, f))

not_yet : (pc : Pc) → pc ≡ waiting → pc ≢ working modify_grid
not_yet pc e f = cc (e, f)

-- A container answers a signal other than `modify_grid`: at most two steps of its own make it wait,
-- with the idle signal.
answers :
    (a : Party) (phase : Phase) (sent : List Signal)
    → IsInStep phase sent a
    → WorksOnLast a
    → IsHarmless sent
    → (b : Party) × Acts a b × (b.byte ≡ signal_code idle) × (b.taken ≡ sent)
answers a phase sent (done e p k) works harmless = (a, rest, e, k)
answers a phase sent (called s l m e p k) works harmless = (
  record { byte = signal_code idle; pc = waiting; taken = s ∷ a.taken },
  twice (not_yet a.pc p) (take_signal s p (ap signal_from e ∙ signal_from-signal_code s) m)
      (not_modify_grid (working s) s refl (harmless s a.taken k)) (send_idle s refl),
  refl,
  sym k,
)
answers a phase sent (busy s l m e p k) works harmless = (
  record { byte = signal_code idle; pc = waiting; taken = a.taken },
  once
      (let (before, last) = works s p in
        not_modify_grid a.pc s p (harmless s before (sym k ∙ last)))
      (send_idle s p),
  refl,
  k,
)

-- At most `n` steps, in which the host begins no call.
pub data Continues : ℕ → System → System → Type 0 where
  stop : {n : ℕ} {y : System} → Continues n y y
  hunter_first :
      {n : ℕ} {y z : System} {a : Party}
      → y.hunter.pc ≢ working modify_grid
      → Handles y.hunter a
      → Continues n (record y { hunter = a }) z
      → Continues (suc n) y z
  runner_first :
      {n : ℕ} {y z : System} {a : Party}
      → Handles y.runner a
      → Continues n (record y { runner = a }) z
      → Continues (suc n) y z
  host_writes :
      {n : ℕ} {y z : System} (s : Signal)
      → y.phase ≡ sending s
      → s ≢ exit
      → Continues n
          (record y { phase = polling; runner = record y.runner { byte = signal_code s } })
          z
      → Continues (suc n) y z
  host_first :
      {n : ℕ} {y z : System}
      → y.phase ≡ polling
      → y.hunter.byte ≡ signal_code idle
      → y.runner.byte ≡ signal_code idle
      → Continues n (record y { phase = ready }) z
      → Continues (suc n) y z

one_more : {n : ℕ} {y z : System} → Continues n y z → Continues (suc n) y z
one_more stop = stop
one_more (hunter_first n h c) = hunter_first n h (one_more c)
one_more (runner_first h c) = runner_first h (one_more c)
one_more (host_writes s f n c) = host_writes s f n (one_more c)
one_more (host_first f h r c) = host_first f h r (one_more c)

hunter_acts :
    {n : ℕ} {y z : System} {a : Party}
    → Acts y.hunter a
    → Continues n (record y { hunter = a }) z
    → Continues (suc (suc n)) y z
hunter_acts rest c = one_more (one_more c)
hunter_acts (once n h) c = one_more (hunter_first n h c)
hunter_acts (twice n h m k) c = hunter_first n h (hunter_first m k c)

runner_acts :
    {n : ℕ} {y z : System} {a : Party}
    → Acts y.runner a
    → Continues n (record y { runner = a }) z
    → Continues (suc (suc n)) y z
runner_acts rest c = one_more (one_more c)
runner_acts (once n h) c = one_more (runner_first h c)
runner_acts (twice n h m k) c = runner_first h (runner_first k c)

-- The steps are steps of the protocol.
Continues-Reach : {n : ℕ} {y z : System} → Continues n y z → Reach y → Reach z
Continues-Reach stop r = r
Continues-Reach (hunter_first n h c) r = Continues-Reach c (later r (hunter_moves n h))
Continues-Reach (runner_first h c) r = Continues-Reach c (later r (runner_moves h))
Continues-Reach (host_writes {y = y} s f n c) r = Continues-Reach c (
    later r (
      subst
        (λ g. Step y (record y { phase = g; runner = record y.runner { byte = signal_code s } }))
        (after-polling s n) (send_runner s f)))
Continues-Reach (host_first f h k c) r = Continues-Reach c (later r (host_returns f h k))

-- A state with a free host, in which both containers have taken the signals of `y`.
pub record Answered (y z : System) : Type 0 where
  pub reach : Reach z
  pub free : z.phase ≡ ready
  pub sent : z.sent ≡ y.sent
  pub hunter : z.hunter.taken ≡ y.sent
  pub runner : z.runner.taken ≡ y.sent

polling-Continues :
    {y : System}
    → Reach y
    → IsHarmless y.sent
    → y.phase ≡ polling
    → (z : System) × Continues 5 y z × Answered y z
polling-Continues {y = y} r harmless f =
    let i = Reach-Inv r in
    let (hunter_works, runner_works) = Reach-WorksOnLast r in
    let (a, ha, hz, hk) = answers y.hunter y.phase y.sent i.hunter hunter_works harmless in
    let (b, rb, rz, rk) =
      answers y.runner y.phase y.sent (IsBehind-IsInStep y.sent y.phase (polls y.phase f) i.runner)
        runner_works harmless in
    let run : Continues 5 y (record y { hunter = a; runner = b; phase = ready }) =
      hunter_acts ha (runner_acts rb (host_first f hz rz stop)) in
    (
      record y { hunter = a; runner = b; phase = ready },
      run,
      record { reach = Continues-Reach run r; free = refl; sent = refl; hunter = hk; runner = rk },
    )

sending-Continues :
    {y : System} (s : Signal)
    → Reach y
    → IsHarmless y.sent
    → y.phase ≡ sending s
    → s ≢ exit
    → (z : System) × Continues 6 y z × Answered y z
sending-Continues {y = y} s r harmless f n =
    let (z, c, w) =
      polling-Continues (Continues-Reach {n = 1} (host_writes s f n stop) r) harmless refl in
    (
      z,
      host_writes s f n c,
      record {
        reach = w.reach;
        free = w.free;
        sent = w.sent;
        hunter = w.hunter;
        runner = w.runner;
      },
    )

-- From every reachable state in which the host is in a call of `send_signal`, if the last signal is
-- neither `ModifyGrid` nor `Exit`: at most six steps, in which it begins no other call, lead
-- to the return of the call, with both containers having taken all signals.
pub Reach-Continues :
    {y : System}
    → Reach y
    → y.phase ≢ ready
    → IsAnswered y.sent
    → (z : System) × Continues 6 y z × Answered y z
Reach-Continues {y = y} r n answered =
    let harmless : IsHarmless y.sent = λ s before e. (answered s before e).0 in
    elim y.phase as (λ f. y.phase ≡ f → (z : System) × Continues 6 y z × Answered y z) [
      | ready ↦ λ f. absurd (n f)
      | polling ↦ λ f. let (z, c, w) = polling-Continues r harmless f in (z, one_more c, w)
      | ended ↦ λ f. let (before, q) = Reach-ended r f in absurd ((answered exit before q).1 refl)
      | sending s ↦ λ f.
          let (before, q) = sending_last s (Reach-Inv r) f in
          sending-Continues s r harmless f (answered s before q).1
    ]
      refl
