-- ===== src/Memory.antt =====
-- A linear memory of bytes: the wasm instance's memory, as the module's loads and stores and the
-- host's `get_into` and `set_value` see it. An access out of range traps.
use wasm_shared_buffers.Base.{
  ℕ, zero, suc, ◌+◌, ◌≤◌, ◌≡◌, ◌⊎◌, refl, ap, ◌∙◌, List, [], ◌∷◌, ◌++◌, Run, ok, panic, trap,
  unwrap, leb, le→leb, if◌then◌else◌, length, take, drop, drop-drop, length-append, take-append,
  arith,
}

abbrev pub Memory : Type 0
Memory = List ℕ

unfoldable pub load : Memory → ℕ → ℕ → Run (List ℕ)
load mem p n = if leb (p + n) (length mem) then ok (take n (drop p mem)) else panic trap

unfoldable pub overlay : Memory → ℕ → List ℕ → Memory
overlay [] p bs = []
overlay (x ∷ m) zero [] = x ∷ m
overlay (x ∷ m) zero (b ∷ bs) = b ∷ overlay m zero bs
overlay (x ∷ m) (suc p) bs = x ∷ overlay m p bs

unfoldable pub store : Memory → ℕ → List ℕ → Run Memory
store mem p bs = if leb (p + length bs) (length mem) then ok (overlay mem p bs) else panic trap

-- The host's `get_into` and `set_value`, unwrapped: out of range they panic on the host.
unfoldable pub get_into : Memory → ℕ → ℕ → Run (List ℕ)
get_into mem p n = if leb (p + n) (length mem) then ok (take n (drop p mem)) else panic unwrap

unfoldable pub set_value : Memory → ℕ → List ℕ → Run Memory
set_value mem p bs =
    if leb (p + length bs) (length mem) then ok (overlay mem p bs) else panic unwrap

-- The memory holds the bytes `bs` at address `p`.
pub record Holds (mem : Memory) (p : ℕ) (bs : List ℕ) : Type 0 where
  pub fits : p + length bs ≤ length mem
  pub reads : take (length bs) (drop p mem) ≡ bs

pub load-Holds :
    (mem : Memory) (p n : ℕ) (bs : List ℕ) → Holds mem p bs → n ≡ length bs → load mem p n ≡ ok bs
unfolding load
load-Holds mem p n bs h e = rw (e, le→leb _ _ h.fits) (ap ok h.reads)

pub get_into-Holds :
    (mem : Memory) (p n : ℕ) (bs : List ℕ)
    → Holds mem p bs
    → n ≡ length bs
    → get_into mem p n ≡ ok bs
unfolding get_into
get_into-Holds mem p n bs h e = rw (e, le→leb _ _ h.fits) (ap ok h.reads)

pub Holds-append :
    (mem : Memory) (p q : ℕ) (xs ys : List ℕ)
    → Holds mem p (xs ++ ys)
    → q ≡ p + length xs
    → Holds mem p xs × Holds mem q ys
Holds-append mem p q xs ys h e =
    let (a, b) = take-append xs ys (drop p mem) h.reads in
    let n = length-append xs ys in
    (
      record { fits = omega (arith, h.fits); reads = a },
      record { fits = omega (arith, h.fits); reads = rw (e, ← drop-drop p (length xs) mem) b },
    )

pub length-overlay : (m : Memory) (p : ℕ) (bs : List ℕ) → length (overlay m p bs) ≡ length m
unfolding overlay
length-overlay [] p bs = refl
length-overlay (x ∷ m) zero [] = refl
length-overlay (x ∷ m) zero (b ∷ bs) = ap suc (length-overlay m zero bs)
length-overlay (x ∷ m) (suc p) bs = ap suc (length-overlay m p bs)

take-overlay :
    (m : Memory) (p : ℕ) (bs : List ℕ)
    → p + length bs ≤ length m
    → take (length bs) (drop p (overlay m p bs)) ≡ bs
unfolding overlay
take-overlay [] p [] h = refl
take-overlay [] p (b ∷ bs) h = absurd (omega arith)
take-overlay (x ∷ m) zero [] h = refl
take-overlay (x ∷ m) zero (b ∷ bs) h = ap (λ t. b ∷ t) (take-overlay m zero bs (omega arith))
take-overlay (x ∷ m) (suc p) bs h = take-overlay m p bs (omega arith)

take-overlay_apart :
    (m : Memory) (p q n : ℕ) (bs : List ℕ)
    → (q + n ≤ p) ⊎ (p + length bs ≤ q)
    → take n (drop q (overlay m p bs)) ≡ take n (drop q m)
unfolding overlay
take-overlay_apart [] p q n bs h = refl
take-overlay_apart (x ∷ m) zero (suc q) n [] h = refl
take-overlay_apart (x ∷ m) zero (suc q) n (b ∷ bs) h =
    take-overlay_apart m zero q n bs (omega arith)
take-overlay_apart (x ∷ m) (suc p) (suc q) n bs h = take-overlay_apart m p q n bs (omega arith)
take-overlay_apart (x ∷ m) p zero zero bs h = refl
take-overlay_apart (x ∷ m) zero zero (suc n) [] h = refl
take-overlay_apart (x ∷ m) zero zero (suc n) (b ∷ bs) h = absurd (omega arith)
take-overlay_apart (x ∷ m) (suc p) zero (suc n) bs h =
    ap (λ t. x ∷ t) (take-overlay_apart m p zero n bs (omega arith))

-- A store in range succeeds, and keeps what lies apart from it.
module _ (mem : Memory) (p : ℕ) (bs : List ℕ) (fits : p + length bs ≤ length mem) where
  pub store-eq-ok : store mem p bs ≡ ok (overlay mem p bs)
  unfolding store
  store-eq-ok = rw (le→leb _ _ fits)

  pub set_value-eq-ok : set_value mem p bs ≡ ok (overlay mem p bs)
  unfolding set_value
  set_value-eq-ok = rw (le→leb _ _ fits)

  pub overlay-Holds : Holds (overlay mem p bs) p bs
  overlay-Holds = record {
    fits = omega (arith, length-overlay mem p bs);
    reads = take-overlay mem p bs fits;
  }

pub overlay-Holds_apart :
    (mem : Memory) (p q : ℕ) (bs cs : List ℕ)
    → (q + length cs ≤ p) ⊎ (p + length bs ≤ q)
    → Holds mem q cs
    → Holds (overlay mem p bs) q cs
overlay-Holds_apart mem p q bs cs apart h = record {
  fits = omega (arith, h.fits, length-overlay mem p bs);
  reads = take-overlay_apart mem p q (length cs) bs apart ∙ h.reads;
}

take-length : (bs : List ℕ) → take (length bs) bs ≡ bs
take-length [] = refl
take-length (b ∷ bs) = ap (λ t. b ∷ t) (take-length bs)

-- A memory holds all its bytes.
pub Holds-self : (bs : Memory) → Holds bs 0 bs
Holds-self bs = record { fits = omega arith; reads = take-length bs }
