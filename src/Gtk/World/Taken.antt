-- ===== src/Gtk/World/Taken.antt =====
-- What a container takes in the whole gtk program, and whether its actors are placed.
use wasm_shared_buffers.Base.{ℕ, ◌≡◌, sym, ap, ◌∙◌, ◌≢◌, ◌⊎◌, inl, inr, List, [], ◌∷◌, ok}
use wasm_shared_buffers.Gtk.State.{Signal, idle, init, signal_from}
use wasm_shared_buffers.Gtk.Protocol.{waiting, working, Party, Phase}
use wasm_shared_buffers.Gtk.Protocol.Order.{
  IsInStep, done, called, busy, IsBehind, level, behind, read_back,
}
use wasm_shared_buffers.Gtk.World.{taken_by}

-- A container that was not called, or is in its first call, or whose actors are placed.
pub data Placed (a : Party) (P : Type 0) : Type 0 where
  not_called : a.taken ≡ [] → a.pc ≡ waiting → Placed a P
  first_call : a.pc ≡ working init → Placed a P
  placed : P → Placed a P

-- A signal that a container can take is the last one that was sent.
pub heard :
    {a : Party} (phase : Phase) (sent : List Signal) (s : Signal)
    → IsInStep phase sent a
    → a.pc ≡ waiting
    → signal_from a.byte ≡ ok s
    → s ≢ idle
    → sent ≡ s ∷ a.taken
heard {a = a} phase sent s (done e p k) w r n = absurd (n (sym (read_back a idle s e r)))
heard {a = a} phase sent s (called t l m e p k) w r n =
    k ∙ ap (λ u. u ∷ a.taken) (read_back a t s e r)
heard phase sent s (busy t l m e p k) w r n = absurd (cc (w, p))

pub heard_late :
    {a : Party} (phase : Phase) (sent : List Signal) (s : Signal)
    → IsBehind phase sent a
    → a.pc ≡ waiting
    → signal_from a.byte ≡ ok s
    → s ≢ idle
    → sent ≡ s ∷ a.taken
heard_late phase sent s (level l i) w r n = heard phase sent s i w r n
heard_late {a = a} phase sent s (behind t before g m q e p k) w r n =
    absurd (n (sym (read_back a idle s e r)))

-- The first signal is `init`.
abbrev pub BeginsWithInit : List Signal → Type 0
BeginsWithInit sent = (s : Signal) → sent ≡ s ∷ [] → s ≡ init

pub Placed-taken_by :
    {a : Party} {P : Type 0} (sent : List Signal) (s : Signal)
    → BeginsWithInit sent
    → sent ≡ s ∷ a.taken
    → a.pc ≡ waiting
    → Placed a P
    → Placed (taken_by s a) P
unfolding taken_by
Placed-taken_by sent s b last w (not_called k p) =
    first_call (ap working (b s (last ∙ ap (λ l. s ∷ l) k)))
Placed-taken_by sent s b last w (first_call p) = absurd (cc (w, p))
Placed-taken_by sent s b last w (placed h) = placed h

pub Placed-byte : {a : Party} {P : Type 0} (b : ℕ) → Placed a P → Placed (record a { byte = b }) P
Placed-byte b (not_called k p) = not_called k p
Placed-byte b (first_call p) = first_call p
Placed-byte b (placed h) = placed h

pub settled : {a : Party} {P : Type 0} (s : Signal) → a.pc ≡ working s → Placed a P → (s ≡ init) ⊎ P
settled s w (not_called k p) = absurd (cc (w, p))
settled s w (first_call p) = inl (cc (w, p))
settled s w (placed h) = inr h
