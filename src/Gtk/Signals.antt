-- ===== src/Gtk/Signals.antt =====
-- The polling of the host and the containers: `wait_for_signal` of rust/gtk/src/host_common.rs and
-- `send_signal` of rust/gtk/src/bin/host.rs. What the other processes have written when a round of
-- polling reads a signal byte is a function of the round.
use wasm_shared_buffers.Base.{
  ℕ, zero, suc, ◌+◌, ◌≤◌, ◌<◌, ◌≡◌, refl, sym, ap, ◌∙◌, ◌≢◌, ◌⊎◌, inl, inr, Bool, true, false, ◌&&◌,
  arith, ◌==◌, if◌then◌else◌, ==_iff, Bool-cases, Run, ok, panic, explicit, assertion, ◌>>=◌,
}
use mathlib.Core.Path.{subst}
use wasm_shared_buffers.Gtk.State.{
  Signal, idle, init, tick, large_alloc, modify_grid, exit, signal_from, signal_code,
  signal_from_lem,
}

abbrev pub signal_reps : ℕ
signal_reps = 300

-- The test of a signal that a round has read, and the rounds after it.
unfoldable pub unless_idle : Signal → Run Signal → Run Signal
unless_idle idle later = later
unless_idle s later = ok s

-- `n` rounds, the first of them with number `k`.
unfoldable pub poll : (ℕ → ℕ) → ℕ → ℕ → Run Signal
poll bytes zero k = panic explicit
poll bytes (suc n) k = do s ← signal_from (bytes k); unless_idle s (poll bytes n (suc k))

unfoldable pub wait_for_signal : (ℕ → ℕ) → Run Signal
wait_for_signal bytes = poll bytes signal_reps 0

-- `n` rounds of `send_signal`, each of which reads the two bytes.
unfoldable pub poll_idle : (ℕ → ℕ × ℕ) → ℕ → ℕ → Run (Unit {0})
poll_idle bytes zero k = panic explicit
poll_idle bytes (suc n) k =
    let later = poll_idle bytes n (suc k) in
    if (bytes k).0 == signal_code idle && (bytes k).1 == signal_code idle then ok tt else later

-- The two bytes that the host writes, and how the call ends.
unfoldable pub send_signal : Signal → Bool → (ℕ → ℕ × ℕ) → (ℕ × ℕ) × Run (Unit {0})
send_signal s wait_for_idle bytes =
    ((signal_code s, signal_code s), if wait_for_idle then poll_idle bytes signal_reps 0 else ok tt)

-- All rounds from `k` on, `n` of them, read zero.
abbrev pub AreIdle : (ℕ → ℕ) → ℕ → ℕ → Type 0
AreIdle bytes k n = (j : ℕ) → k ≤ j → j < k + n → bytes j ≡ 0

-- How `n` rounds from `k` on end: with the first signal that is not zero, in the panic of the
-- `assert!` at a byte that is no signal, or in that of the time limit.
pub data Waits (bytes : ℕ → ℕ) (k n : ℕ) : Run Signal → Type 0 where
  received :
      {s : Signal}
      → (m : ℕ) → m < n
      → AreIdle bytes k m
      → bytes (k + m) ≢ 0
      → bytes (k + m) ≡ signal_code s
      → Waits bytes k n (ok s)
  invalid :
      (m : ℕ) → m < n → AreIdle bytes k m → 5 < bytes (k + m) → Waits bytes k n (panic assertion)
  timed_out : AreIdle bytes k n → Waits bytes k n (panic explicit)

AreIdle-suc :
    (bytes : ℕ → ℕ) (k n : ℕ) → bytes k ≡ 0 → AreIdle bytes (suc k) n → AreIdle bytes k (suc n)
AreIdle-suc bytes k n e a j h l = elim (Bool-cases (k == j)) [
  | inl here ↦ let same = (==_iff k j).0 here in cc
  | inr later ↦ a j (ground arith) (omega arith)
]

Waits-suc :
    (bytes : ℕ → ℕ) (k n : ℕ) {r : Run Signal}
    → bytes k ≡ 0
    → Waits bytes (suc k) n r
    → Waits bytes k (suc n) r
Waits-suc bytes k n e (received m l a z c) =
    let at : suc k + m ≡ k + suc m = omega arith in
    received (suc m) (omega arith) (AreIdle-suc bytes k m e a) (λ w. z (ap bytes at ∙ w))
      (sym (ap bytes at) ∙ c)
Waits-suc bytes k n e (invalid m l a z) =
    let at : suc k + m ≡ k + suc m = omega arith in
    invalid (suc m) (omega arith) (AreIdle-suc bytes k m e a) (rw (sym (ap bytes at)) z)
Waits-suc bytes k n e (timed_out a) = timed_out (AreIdle-suc bytes k n e a)

first_received :
    (bytes : ℕ → ℕ) (k n : ℕ) (s : Signal)
    → bytes k ≢ 0
    → bytes k ≡ signal_code s
    → Waits bytes k (suc n) (ok s)
first_received bytes k n s z c =
    let at : k ≡ k + 0 = omega arith in
    received 0 (omega arith) (λ j h l. absurd (omega arith)) (λ w. z (ap bytes at ∙ w))
      (sym (ap bytes at) ∙ c)

unless_idle-Waits :
    (bytes : ℕ → ℕ) (k n : ℕ) (s : Signal) {r : Run Signal}
    → bytes k ≡ signal_code s
    → Waits bytes (suc k) n r
    → Waits bytes k (suc n) (unless_idle s r)
unfolding unless_idle signal_code
unless_idle-Waits bytes k n idle c w = Waits-suc bytes k n c w
unless_idle-Waits bytes k n init c w = first_received bytes k n init (λ z. omega arith) c
unless_idle-Waits bytes k n tick c w = first_received bytes k n tick (λ z. omega arith) c
unless_idle-Waits bytes k n large_alloc c w =
    first_received bytes k n large_alloc (λ z. omega arith) c
unless_idle-Waits bytes k n modify_grid c w =
    first_received bytes k n modify_grid (λ z. omega arith) c
unless_idle-Waits bytes k n exit c w = first_received bytes k n exit (λ z. omega arith) c

poll-Waits : (bytes : ℕ → ℕ) (n k : ℕ) → Waits bytes k n (poll bytes n k)
unfolding poll
poll-Waits bytes zero k = timed_out (λ j h l. absurd (omega arith))
poll-Waits bytes (suc n) k = elim (signal_from_lem (bytes k)) [
  | inl (h, e) ↦ rw e (
      let at : k ≡ k + 0 = omega arith in
      invalid 0 (omega arith) (λ j h l. absurd (omega arith)) (rw (sym (ap bytes at)) h))
  | inr (s, c, e) ↦ rw e (unless_idle-Waits bytes k n s c (poll-Waits bytes n (suc k)))
]

-- `wait_for_signal` returns the first signal that is not idle within 300 rounds; it fails when a
-- byte before that is no signal, or when all rounds read idle.
pub wait_for_signal-Waits : (bytes : ℕ → ℕ) → Waits bytes 0 300 (wait_for_signal bytes)
unfolding wait_for_signal
wait_for_signal-Waits bytes = poll-Waits bytes 300 0

-- How `send_signal` ends when it waits: in the first round in which both bytes are zero, or in a
-- panic when there is none.
pub data Sends (bytes : ℕ → ℕ × ℕ) (k n : ℕ) : Run (Unit {0}) → Type 0 where
  answered :
      (j : ℕ) → k ≤ j → j < k + n → (bytes j).0 ≡ 0 → (bytes j).1 ≡ 0 → Sends bytes k n (ok tt)
  no_answer :
      ((j : ℕ) → k ≤ j → j < k + n → ((bytes j).0 ≢ 0) ⊎ ((bytes j).1 ≢ 0))
      → Sends bytes k n (panic explicit)

Sends-suc :
    (bytes : ℕ → ℕ × ℕ) (k n : ℕ) {r : Run (Unit {0})}
    → ((bytes k).0 ≢ 0) ⊎ ((bytes k).1 ≢ 0)
    → Sends bytes (suc k) n r
    → Sends bytes k (suc n) r
Sends-suc bytes k n e (answered j h l x y) = answered j (omega arith) (omega arith) x y
Sends-suc bytes k n e (no_answer a) = no_answer (λ j h l. elim (Bool-cases (k == j)) [
  | inl here ↦
      let same = (==_iff k j).0 here in subst (λ i. ((bytes i).0 ≢ 0) ⊎ ((bytes i).1 ≢ 0)) same e
  | inr later ↦ a j (ground arith) (omega arith)
])

both_idle :
    (a b : ℕ)
    → ((a ≡ 0) × (b ≡ 0) × ((a == 0 && b == 0) ≡ true))
      ⊎ (((a ≢ 0) ⊎ (b ≢ 0)) × ((a == 0 && b == 0) ≡ false))
both_idle zero zero = inl (refl, refl, refl)
both_idle (suc a) b = inr (inl (λ e. omega arith), ground arith)
both_idle zero (suc b) = inr (inr (λ e. omega arith), ground arith)

poll_idle-Sends : (bytes : ℕ → ℕ × ℕ) (n k : ℕ) → Sends bytes k n (poll_idle bytes n k)
unfolding poll_idle signal_code
poll_idle-Sends bytes zero k = no_answer (λ j h l. absurd (omega arith))
poll_idle-Sends bytes (suc n) k = elim (both_idle (bytes k).0 (bytes k).1) [
  | inl (x, y, e) ↦ rw e (answered k (omega arith) (omega arith) x y)
  | inr (d, e) ↦ rw e (Sends-suc bytes k n d (poll_idle-Sends bytes n (suc k)))
]

-- `send_signal` writes the signal for both containers. With `wait_for_idle` it returns when, in one
-- of 300 rounds, both have answered with idle, and panics otherwise.
pub send_signal-Sends :
    (s : Signal) (bytes : ℕ → ℕ × ℕ)
    → ((send_signal s true bytes).0 ≡ (signal_code s, signal_code s))
      × Sends bytes 0 300 (send_signal s true bytes).1
unfolding send_signal
send_signal-Sends s bytes = (refl, poll_idle-Sends bytes 300 0)
