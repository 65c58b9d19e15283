-- ===== src/Gtk/Protocol/Order.antt =====
-- Each container takes every signal once, in the order in which the host sends them.
use wasm_shared_buffers.Base.{◌≡◌, refl, sym, ap, ◌∙◌, ◌≢◌, ◌⊎◌, inl, inr, List, ◌∷◌, ok}
use wasm_shared_buffers.Gtk.State.{
  Signal, idle, init, tick, large_alloc, modify_grid, exit, signal_from, signal_code,
  signal_from-signal_code,
}
use wasm_shared_buffers.Gtk.Protocol.{
  waiting, working, Party, Handles, take_signal, send_idle, Phase, ready, polling, ended, sending,
  after, System, Step, send, send_runner, host_returns, hunter_moves, runner_moves, Reach, begin,
  later,
}

-- Where a container is: done with all signals, called by the last one, or busy with it.
pub data IsInStep (phase : Phase) (sent : List Signal) (a : Party) : Type 0 where
  done : a.byte ≡ signal_code idle → a.pc ≡ waiting → a.taken ≡ sent → IsInStep phase sent a
  called :
      (s : Signal)
      → phase ≢ ready
      → s ≢ idle
      → a.byte ≡ signal_code s
      → a.pc ≡ waiting
      → sent ≡ s ∷ a.taken
      → IsInStep phase sent a
  busy :
      (s : Signal)
      → phase ≢ ready
      → s ≢ idle
      → a.byte ≡ signal_code s
      → a.pc ≡ working s
      → a.taken ≡ sent
      → IsInStep phase sent a

-- The runners' container lags behind while the host has written one byte only.
pub data IsBehind (phase : Phase) (sent : List Signal) (a : Party) : Type 0 where
  level : ((s : Signal) → phase ≢ sending s) → IsInStep phase sent a → IsBehind phase sent a
  behind :
      (s : Signal) (before : List Signal)
      → phase ≡ sending s
      → s ≢ idle
      → sent ≡ s ∷ before
      → a.byte ≡ signal_code idle
      → a.pc ≡ waiting
      → a.taken ≡ before
      → IsBehind phase sent a

pub record Inv (y : System) : Type 0 where
  pub hunter : IsInStep y.phase y.sent y.hunter
  pub runner : IsBehind y.phase y.sent y.runner

pub read_back :
    (a : Party) (s t : Signal) → a.byte ≡ signal_code s → signal_from a.byte ≡ ok t → s ≡ t
read_back a s t e h =
    let same : ok s ≡ ok t = sym (signal_from-signal_code s) ∙ sym (ap signal_from e) ∙ h in cc same

pub code_inj : (s t : Signal) → signal_code s ≡ signal_code t → s ≡ t
code_inj s t e =
    let same : ok s ≡ ok t =
      sym (signal_from-signal_code s) ∙ ap signal_from e ∙ signal_from-signal_code t in
    cc same

Handles-IsInStep :
    {a b : Party} (phase : Phase) (sent : List Signal)
    → Handles a b
    → IsInStep phase sent a
    → IsInStep phase sent b
Handles-IsInStep {a = a} phase sent (take_signal t w r n) (done e p k) =
    absurd (n (sym (read_back a idle t e r)))
Handles-IsInStep {a = a} phase sent (take_signal t w r n) (called s l m e p k) =
    let same = read_back a s t e r in
    busy t l n (e ∙ ap signal_code same) refl (ap (λ u. u ∷ a.taken) (sym same) ∙ sym k)
Handles-IsInStep phase sent (take_signal t w r n) (busy s l m e p k) = absurd (cc (w, p))
Handles-IsInStep phase sent (send_idle t w) (done e p k) = absurd (cc (w, p))
Handles-IsInStep phase sent (send_idle t w) (called s l m e p k) = absurd (cc (w, p))
Handles-IsInStep phase sent (send_idle t w) (busy s l m e p k) = done refl refl k

-- The host sends only when both containers are done.
pub all_done :
    {a : Party} (sent : List Signal) (phase : Phase)
    → phase ≡ ready
    → IsInStep phase sent a
    → (a.byte ≡ signal_code idle) × (a.pc ≡ waiting) × (a.taken ≡ sent)
all_done sent phase f (done e p k) = (e, p, k)
all_done sent phase f (called s l m e p k) = absurd (l f)
all_done sent phase f (busy s l m e p k) = absurd (l f)

idle_done :
    {a : Party} (sent : List Signal) (phase : Phase)
    → a.byte ≡ signal_code idle
    → IsInStep phase sent a
    → IsInStep ready sent a
idle_done sent phase z (done e p k) = done e p k
idle_done {a = a} sent phase z (called s l m e p k) = absurd (m (code_inj s idle (sym e ∙ z)))
idle_done {a = a} sent phase z (busy s l m e p k) = absurd (m (code_inj s idle (sym e ∙ z)))

-- A container that has been left alone waits.
no_move : {a b : Party} → a.byte ≡ signal_code idle → a.pc ≡ waiting → Handles a b → ⊥
no_move {a = a} e p (take_signal t w r n) = n (sym (read_back a idle t e r))
no_move e p (send_idle t w) = cc (w, p)

pub IsBehind-IsInStep :
    {a : Party} (sent : List Signal) (phase : Phase)
    → ((s : Signal) → phase ≢ sending s)
    → IsBehind phase sent a
    → IsInStep phase sent a
IsBehind-IsInStep sent phase n (level l i) = i
IsBehind-IsInStep sent phase n (behind s before f m q e p k) = absurd (n s f)

not_sending : (phase : Phase) → phase ≡ ready → (s : Signal) → phase ≢ sending s
not_sending phase f s g = cc (f, g)

pub polls : (phase : Phase) → phase ≡ polling → (s : Signal) → phase ≢ sending s
polls phase f s g = cc (f, g)

-- Both bytes are written: the host waits for the answers, or has ended.
pub after-cases : (s : Signal) → (after s ≡ polling) ⊎ ((after s ≡ ended) × (s ≡ exit))
unfolding after
after-cases idle = inl refl
after-cases init = inl refl
after-cases tick = inl refl
after-cases large_alloc = inl refl
after-cases modify_grid = inl refl
after-cases exit = inr (refl, refl)

after_not_ready : (s : Signal) → after s ≢ ready
after_not_ready s e = elim (after-cases s) [ inl f ↦ cc (e, f) | inr (f, _) ↦ cc (e, f) ]

after_not_sending : (s t : Signal) → after s ≢ sending t
after_not_sending s t e = elim (after-cases s) [ inl f ↦ cc (e, f) | inr (f, _) ↦ cc (e, f) ]

pub after-polling : (s : Signal) → s ≢ exit → after s ≡ polling
after-polling s n = elim (after-cases s) [ inl f ↦ f | inr (_, e) ↦ absurd (n e) ]

IsInStep-after :
    {a : Party} (phase : Phase) (sent : List Signal) (t : Signal)
    → IsInStep phase sent a
    → IsInStep (after t) sent a
IsInStep-after phase sent t (done e p k) = done e p k
IsInStep-after phase sent t (called s l m e p k) = called s (after_not_ready t) m e p k
IsInStep-after phase sent t (busy s l m e p k) = busy s (after_not_ready t) m e p k

send_runner-IsBehind :
    {a : Party} (s : Signal) (phase : Phase) (sent : List Signal)
    → phase ≡ sending s
    → IsBehind phase sent a
    → IsBehind (after s) sent (record a { byte = signal_code s })
send_runner-IsBehind s phase sent f (level l i) = absurd (l s f)
send_runner-IsBehind s phase sent f (behind t before g m q e p k) =
    let same : t ≡ s = cc (f, g) in
    level (after_not_sending s) (
      called s (after_not_ready s) (λ w. m (same ∙ w)) refl p
        (q ∙ ap (λ u. u ∷ before) same ∙ ap (λ l. s ∷ l) (sym k)))

Handles-IsBehind :
    {a b : Party} (phase : Phase) (sent : List Signal)
    → Handles a b
    → IsBehind phase sent a
    → IsBehind phase sent b
Handles-IsBehind phase sent h (level l i) = level l (Handles-IsInStep phase sent h i)
Handles-IsBehind phase sent h (behind t before g m q e p k) = absurd (no_move e p h)

Step-Inv : {y z : System} → Step y z → Inv y → Inv z
Step-Inv {y = y} (send s f n) i =
    let (he, hw, hk) = all_done y.sent y.phase f i.hunter in
    let (re, rp, rk) =
      all_done y.sent y.phase f
        (IsBehind-IsInStep y.sent y.phase (not_sending y.phase f) i.runner) in
    record {
      hunter = called s (λ w. cc w) n refl hw (ap (λ l. s ∷ l) (sym hk));
      runner = behind s y.sent refl n refl re rp rk;
    }
Step-Inv {y = y} (send_runner s f) i = record {
  hunter = IsInStep-after y.phase y.sent s i.hunter;
  runner = send_runner-IsBehind s y.phase y.sent f i.runner;
}
Step-Inv {y = y} (host_returns f h r) i = record {
  hunter = idle_done y.sent y.phase h i.hunter;
  runner =
      level (λ s w. cc w)
        (idle_done y.sent y.phase r (IsBehind-IsInStep y.sent y.phase (polls y.phase f) i.runner));
}
Step-Inv {y = y} (hunter_moves n m) i = record {
  hunter = Handles-IsInStep y.phase y.sent m i.hunter;
  runner = i.runner;
}
Step-Inv {y = y} (runner_moves m) i = record {
  hunter = i.hunter;
  runner = Handles-IsBehind y.phase y.sent m i.runner;
}

zero_idle : 0 ≡ signal_code idle
unfolding signal_code
zero_idle = refl

pub Reach-Inv : {y : System} → Reach y → Inv y
Reach-Inv begin = record {
  hunter = done zero_idle refl refl;
  runner = level (λ s w. cc w) (done zero_idle refl refl);
}
Reach-Inv (later r s) = Step-Inv s (Reach-Inv r)

-- A container works on the signal that it has taken last.
abbrev pub WorksOnLast : Party → Type 0
WorksOnLast a = (s : Signal) → a.pc ≡ working s → (before : List Signal) × (a.taken ≡ s ∷ before)

Handles-WorksOnLast : {a b : Party} → Handles a b → WorksOnLast b
Handles-WorksOnLast {a = a} (take_signal t w r n) s e =
    let same : t ≡ s = cc e in (a.taken, ap (λ u. u ∷ a.taken) same)
Handles-WorksOnLast (send_idle t w) s e = absurd (cc e)

pub Reach-WorksOnLast : {y : System} → Reach y → WorksOnLast y.hunter × WorksOnLast y.runner
Reach-WorksOnLast begin = (λ s e. absurd (cc e), λ s e. absurd (cc e))
Reach-WorksOnLast (later r (send s f n)) = let (h, k) = Reach-WorksOnLast r in (h, k)
Reach-WorksOnLast (later r (send_runner s f)) = let (h, k) = Reach-WorksOnLast r in (h, k)
Reach-WorksOnLast (later r (host_returns f a b)) = Reach-WorksOnLast r
Reach-WorksOnLast (later r (hunter_moves n m)) = (Handles-WorksOnLast m, (Reach-WorksOnLast r).1)
Reach-WorksOnLast (later r (runner_moves m)) = ((Reach-WorksOnLast r).0, Handles-WorksOnLast m)

-- The signal whose byte the host has not yet written for the runners is the last one.
pub sending_last :
    {y : System} (s : Signal)
    → Inv y
    → y.phase ≡ sending s
    → (before : List Signal) × (y.sent ≡ s ∷ before)
sending_last {y = y} s i f = elim i.runner [
  | level l _ ↦ absurd (l s f)
  | behind t before g m q e p k ↦
      let same : t ≡ s = cc (f, g) in (before, q ∙ ap (λ u. u ∷ before) same)
]

-- The host ends by `Exit` only.
pub Reach-ended :
    {y : System} → Reach y → y.phase ≡ ended → (before : List Signal) × (y.sent ≡ exit ∷ before)
Reach-ended begin f = absurd (cc f)
Reach-ended (later r (send s g n)) f = absurd (cc f)
Reach-ended (later {y = x} r (send_runner s g)) f = elim (after-cases s) [
  | inl e ↦ absurd (cc (e, f))
  | inr (_, e) ↦
      let (before, q) = sending_last s (Reach-Inv r) g in (before, q ∙ ap (λ u. u ∷ before) e)
]
Reach-ended (later r (host_returns g a b)) f = absurd (cc f)
Reach-ended (later r (hunter_moves n m)) f = Reach-ended r f
Reach-ended (later r (runner_moves m)) f = Reach-ended r f

-- The last signal that was sent is not `modify_grid`.
abbrev pub IsHarmless : List Signal → Type 0
IsHarmless sent = (s : Signal) (before : List Signal) → sent ≡ s ∷ before → s ≢ modify_grid

-- The last signal that was sent is neither `modify_grid` nor `exit`.
abbrev pub IsAnswered : List Signal → Type 0
IsAnswered sent =
    (s : Signal) (before : List Signal) → sent ≡ s ∷ before → (s ≢ modify_grid) × (s ≢ exit)

-- A container has taken all signals that were sent, or all but the last one.
abbrev pub KeepsUp : List Signal → List Signal → Type 0
KeepsUp sent taken = (taken ≡ sent) ⊎ ((s : Signal) × (sent ≡ s ∷ taken))

IsInStep-KeepsUp :
    {a : Party} (phase : Phase) (sent : List Signal) → IsInStep phase sent a → KeepsUp sent a.taken
IsInStep-KeepsUp phase sent (done e p k) = inl k
IsInStep-KeepsUp phase sent (called s l m e p k) = inr (s, k)
IsInStep-KeepsUp phase sent (busy s l m e p k) = inl k

IsBehind-KeepsUp :
    {a : Party} (phase : Phase) (sent : List Signal) → IsBehind phase sent a → KeepsUp sent a.taken
IsBehind-KeepsUp phase sent (level l i) = IsInStep-KeepsUp phase sent i
IsBehind-KeepsUp phase sent (behind s before f m q e p k) = inr (s, q ∙ ap (λ l. s ∷ l) (sym k))

-- In every reachable state both containers have taken exactly the signals that were sent, in order
-- and once each, except that the last one may still be ahead of a container.
pub Reach-KeepsUp :
    {y : System} → Reach y → KeepsUp y.sent y.hunter.taken × KeepsUp y.sent y.runner.taken
Reach-KeepsUp {y = y} r =
    let i = Reach-Inv r in
    (IsInStep-KeepsUp y.phase y.sent i.hunter, IsBehind-KeepsUp y.phase y.sent i.runner)

-- In every reachable state in which the host is ready for a call of `send_signal`, which it is at the
-- start and again after every call but that with `Exit`, both containers have taken all signals, have
-- answered, and wait for the next one.
pub Reach-ready :
    {y : System}
    → Reach y
    → y.phase ≡ ready
    → ((y.hunter.pc ≡ waiting) × (y.hunter.taken ≡ y.sent))
      × ((y.runner.pc ≡ waiting) × (y.runner.taken ≡ y.sent))
Reach-ready {y = y} r f =
    let i = Reach-Inv r in
    let (_, hp, hk) = all_done y.sent y.phase f i.hunter in
    let (_, rp, rk) =
      all_done y.sent y.phase f
        (IsBehind-IsInStep y.sent y.phase (not_sending y.phase f) i.runner) in
    ((hp, hk), (rp, rk))
