-- ===== src/Profile/Synced.antt =====
-- The containers of profile/src-rust never fail their assertion.
use wasm_shared_buffers.Base.{
  ℕ, zero, suc, ◌+◌, ◌-◌, ◌^◌, ◌≤◌, ◌<◌, ◌≡◌, refl, ap, ◌∙◌, ◌⊎◌, inl, inr, Bool, true, false, ◌&&◌,
  List, [], ◌∷◌, ◌++◌, arith, ltb, leb, ltb→lt, ==_iff, Bool-cases, length, replicate, All, Run, ok,
  panic, ◌>>=◌, ◌>>◌, assert, length-append,
}
use wasm_shared_buffers.Int.{
  ℤ, pos, negsuc, pos_part, neg_part, ◌+ℤ◌, Profile, release, wrap, fit, fit-ok,
}
use mathlib.Core.Path.{fun_ext}
use wasm_shared_buffers.Profile.{
  module_tick, eq_ℤ, wasmer_step, wasmi_step, count_value, Container, start, grow, tick_all, round,
  run,
}

-- In a debug build a count must stay below 2^31 to be counted on.
abbrev pub CanCount : Profile → ℕ → Type 0
CanCount p n = (n < 2 ^ 31) ⊎ (p ≡ release)

CanCount-le : (p : Profile) (m n : ℕ) → m ≤ n → CanCount p n → CanCount p m
CanCount-le p m n l (inl h) = inl (omega arith)
CanCount-le p m n l (inr e) = inr e

-- A count after at most `n` rounds.
abbrev IsCount : Profile → ℕ → ℤ → Type 0
IsCount p n i = ((k : ℕ) × (i ≡ pos k) × (k ≤ n)) ⊎ (p ≡ release)

fit-release : (i : ℤ) → (j : ℤ) × (fit release i ≡ ok j)
unfolding fit
fit-release i = elim (Bool-cases (leb (pos_part i) (2 ^ 31 - 1) && leb (neg_part i) (2 ^ 31))) [
  | inl e ↦ (i, rw e)
  | inr e ↦ (wrap i, rw e)
]

count_up : (k : ℕ) → pos k +ℤ pos 1 ≡ pos (suc k)
unfolding ◌+ℤ◌
count_up k = ground arith

fit-IsCount :
    (p : Profile) (n : ℕ) (i : ℤ)
    → CanCount p (suc n)
    → IsCount p n i
    → (j : ℤ) × (fit p (i +ℤ pos 1) ≡ ok j) × IsCount p (suc n) j
fit-IsCount p n i (inr e) c = let (j, f) = fit-release (i +ℤ pos 1) in (j, rw e f, inr e)
fit-IsCount p n i (inl h) (inr e) = let (j, f) = fit-release (i +ℤ pos 1) in (j, rw e f, inr e)
fit-IsCount p n i (inl h) (inl (k, e, l)) = (
  pos (suc k),
  rw (e, count_up k) (fit-ok p (pos (suc k)) (omega arith) (omega arith)),
  inl (suc k, refl, omega arith),
)

eq_ℤ_refl : (i : ℤ) → eq_ℤ i i ≡ true
unfolding eq_ℤ
eq_ℤ_refl (pos n) = (==_iff n n).1 refl
eq_ℤ_refl (negsuc n) = (==_iff n n).1 refl

-- What a container does with an instance and its count, which are equal.
abbrev pub CountsBoth : Profile → (ℤ → ℤ → Run (ℤ × ℤ)) → Type 0
CountsBoth p step = (i j : ℤ) → fit p (i +ℤ pos 1) ≡ ok j → step i i ≡ ok (j, j)

pub wasmer_step-CountsBoth : (p : Profile) → CountsBoth p (wasmer_step p)
unfolding wasmer_step module_tick
wasmer_step-CountsBoth p i j e = rw (e, eq_ℤ_refl j)

-- In the `n`th round: every instance has its own count, of `b` at most, and the other counts are
-- zero. There are as many instances as rounds, up to a hundred.
pub record IsSynced (p : Profile) (b n : ℕ) (s : Container) : Type 0 where
  pub spare : ℕ
  pub counts : s.counter ≡ s.instance_ ++ replicate spare (pos 0)
  pub width : length s.instance_ + spare ≡ 100
  pub number : length s.instance_ ≡ s.wi
  pub grown : ((s.wi ≡ n) × (n ≤ 100)) ⊎ ((s.wi ≡ 100) × (100 ≤ n))
  pub small : All (IsCount p b) s.instance_

All-snoc : (P : ℤ → Type 0) (is : List ℤ) (i : ℤ) → All P is → P i → All P (is ++ (i ∷ []))
All-snoc P [] i all h = (h, tt)
All-snoc P (x ∷ is) i (g, all) h = (g, All-snoc P is i all h)

snoc-append : (is : List ℤ) (i : ℤ) (zs : List ℤ) → is ++ (i ∷ zs) ≡ (is ++ (i ∷ [])) ++ zs
snoc-append [] i zs = refl
snoc-append (x ∷ is) i zs = ap (λ t. x ∷ t) (snoc-append is i zs)

grown :
    (p : Profile) (n : ℕ) (s : Container)
    → s.wi < 100
    → IsSynced p n n s
    → IsSynced p n (suc n) (record s { instance_ = s.instance_ ++ (pos 0 ∷ []); wi = s.wi + 1 })
grown p n s h y = more y.spare (omega (arith, y.width, y.number)) y.counts
  where
    more :
        (spare : ℕ)
        → length s.instance_ + spare ≡ 100
        → s.counter ≡ s.instance_ ++ replicate spare (pos 0)
        → IsSynced p n (suc n) (record s { instance_ = s.instance_ ++ (pos 0 ∷ []); wi = s.wi + 1 })
    more zero w c = absurd (omega (arith, y.number))
    more (suc k) w c =
        let size = length-append s.instance_ (pos 0 ∷ []) in
        record {
          spare = k;
          counts = c ∙ snoc-append s.instance_ (pos 0) (replicate k (pos 0));
          width = omega (arith, size);
          number = omega (arith, size, y.number);
          grown = inl (ground (arith, y.grown), ground (arith, y.grown));
          small = All-snoc (IsCount p n) s.instance_ (pos 0) y.small (inl (0, refl, omega arith));
        }

grow-IsSynced :
    (p : Profile) (n : ℕ) (s : Container) → IsSynced p n n s → IsSynced p n (suc n) (grow s)
unfolding grow
grow-IsSynced p n s y = elim (Bool-cases (ltb s.wi 100)) [
  | inl low ↦ rw low (grown p n s (ltb→lt s.wi 100 low) y)
  | inr full ↦ rw full (record {
    spare = y.spare;
    counts = y.counts;
    width = y.width;
    number = y.number;
    grown = ground (arith, y.grown);
    small = y.small;
  })
]

start-IsSynced : (p : Profile) → IsSynced p 0 0 start
unfolding start
start-IsSynced p = record {
  spare = 100;
  counts = refl;
  width = refl;
  number = refl;
  grown = inl (refl, omega arith);
  small = tt;
}

module _ (p : Profile) (step : ℤ → ℤ → Run (ℤ × ℤ)) (counts : CountsBoth p step) where
  tick_all-synced :
      (n m : ℕ) (is zs : List ℤ)
      → CanCount p (suc n)
      → length is ≡ m
      → All (IsCount p n) is
      → (js : List ℤ) × (tick_all step m is (is ++ zs) ≡ ok (js, js ++ zs))
        × (length js ≡ m)
        × All (IsCount p (suc n)) js
  unfolding tick_all
  tick_all-synced n zero [] zs h e all = ([], refl, refl, tt)
  tick_all-synced n zero (i ∷ is) zs h e all = absurd (omega arith)
  tick_all-synced n (suc m) [] zs h e all = absurd (omega arith)
  tick_all-synced n (suc m) (i ∷ is) zs h e (c, all) =
      let (j, f, d) = fit-IsCount p n i h c in
      let (js, run, size, all') = tick_all-synced n m is zs h (omega arith) all in
      (j ∷ js, rw (counts i j f, run), ap suc size, (d, all'))

  round-IsSynced :
      (n : ℕ) (s : Container)
      → CanCount p (suc n)
      → IsSynced p n n s
      → (s' : Container) × (round step s ≡ ok s') × IsSynced p (suc n) (suc n) s'
  unfolding round
  round-IsSynced n s h y =
      let s₁ = grow s in
      let g = grow-IsSynced p n s y in
      let zs = replicate g.spare (pos 0) in
      let (js, run, size, all) = tick_all-synced n s₁.wi s₁.instance_ zs h g.number g.small in
      (
        record s₁ { instance_ = js; counter = js ++ zs },
        rw (g.counts, run),
        record {
          spare = g.spare;
          counts = refl;
          width = omega (arith, g.width, size, g.number);
          number = size;
          grown = g.grown;
          small = all;
        },
      )

  rounds-IsSynced :
      (k n : ℕ) (s : Container)
      → CanCount p (k + n)
      → IsSynced p n n s
      → (s' : Container) × (run step k s ≡ ok s') × IsSynced p (k + n) (k + n) s'
  unfolding run
  rounds-IsSynced zero n s h y = let same : 0 + n ≡ n = omega arith in (s, refl, rw same y)
  rounds-IsSynced (suc k) n s h y =
      let shift : suc k + n ≡ k + suc n = omega arith in
      let h' = CanCount-le p (suc n) (suc k + n) (omega arith) h in
      let (s₁, e₁, y₁) = round-IsSynced n s h' y in
      let (s₂, e₂, y₂) =
        rounds-IsSynced k (suc n) s₁ (CanCount-le p (k + suc n) (suc k + n) (omega arith) h) y₁ in
      (s₂, rw e₁ e₂, rw shift y₂)

  run-IsSynced :
      (n : ℕ) → CanCount p n → (s : Container) × (run step n start ≡ ok s) × IsSynced p n n s
  run-IsSynced n h =
      let same : n + 0 ≡ n = omega arith in
      let (s, e, y) = rounds-IsSynced n 0 start (rw same h) (start-IsSynced p) in
      (s, e, rw same at y)

abbrev both : ℤ → ℤ → Run (ℤ × ℤ)
both i c = ok (i, c)

counted :
    (i' : ℤ) (r : Run ℤ)
    → (r >>= λ c'. assert (eq_ℤ i' c') >> both i' c')
      ≡ ((r >>= λ c'. assert (eq_ℤ i' c') >> ok c') >>= λ c'. both i' c')
counted i' (panic why) = refl
counted i' (ok c') = asserted (eq_ℤ i' c')
  where
    asserted : (b : Bool) → (assert b >> both i' c') ≡ ((assert b >> ok c') >>= λ c'. both i' c')
    asserted true = refl
    asserted false = refl

steps_same : (p : Profile) (i c : ℤ) → wasmer_step p i c ≡ wasmi_step p i c
unfolding wasmer_step wasmi_step count_value
steps_same p i c = ticked (module_tick p i)
  where
    ticked :
        (r : Run ℤ)
        → (r >>= λ i'. fit p (c +ℤ pos 1) >>= λ c'. assert (eq_ℤ i' c') >> both i' c') ≡ (
            r >>= λ i'.
            (fit p (c +ℤ pos 1) >>= λ c'. assert (eq_ℤ i' c') >> ok c') >>= λ c'. both i' c')
    ticked (panic why) = refl
    ticked (ok i') = counted i' (fit p (c +ℤ pos 1))

-- The first `n` rounds of both containers succeed, in a release build always and in a debug build
-- below 2^31 rounds, and reach the same state: no assertion fails, there are as many instances as
-- rounds, up to a hundred, and every count is that of its instance.
pub containers-IsSynced :
    (p : Profile) (n : ℕ)
    → CanCount p n
    → (s : Container) × (run (wasmer_step p) n start ≡ ok s)
      × (run (wasmi_step p) n start ≡ ok s)
      × IsSynced p n n s
containers-IsSynced p n h =
    let (s, e, y) = run-IsSynced p (wasmer_step p) (wasmer_step-CountsBoth p) n h in
    let same = fun_ext (λ i. fun_ext (λ c. steps_same p i c)) in (s, e, rw (← same) e, y)
