-- ===== src/Int.antt =====
-- Signed integers over the native numbers, and the `i32` of Rust with its wrap-around.
-- In a debug build an arithmetic overflow panics, in a release build it wraps; `Profile` is the
-- build (MODE in run.sh).
use wasm_shared_buffers.Base.{
  ℕ, suc, ◌+◌, ◌-◌, ◌*◌, ◌%◌, ◌^◌, ◌≤◌, ◌<◌, ◌≡◌, Bool, ◌&&◌, arith, ltb, leb, if◌then◌else◌,
  le→leb, lt→ltb, Run, ok, panic, overflow,
}
use wasm_shared_buffers.Word.{u32_mod}

-- `negsuc n` is -(n + 1).
pub data ℤ : Type 0 where
  pos negsuc : ℕ → ℤ

abbrev pub pos_part : ℤ → ℕ
pos_part (pos n) = n
pos_part (negsuc n) = 0

abbrev pub neg_part : ℤ → ℕ
neg_part (negsuc n) = suc n
neg_part (pos n) = 0

-- The difference of two numbers.
abbrev pub sub_ℕ : ℕ → ℕ → ℤ
sub_ℕ m n = if ltb m n then negsuc (n - m - 1) else pos (m - n)

infixl 65 ◌+ℤ◌
unfoldable pub ◌+ℤ◌ : ℤ → ℤ → ℤ
i +ℤ j = sub_ℕ (pos_part i + pos_part j) (neg_part i + neg_part j)

infixl 65 ◌-ℤ◌
unfoldable pub ◌-ℤ◌ : ℤ → ℤ → ℤ
i -ℤ j = sub_ℕ (pos_part i + neg_part j) (neg_part i + pos_part j)

infixl 70 ◌*ℤ◌
unfoldable pub ◌*ℤ◌ : ℤ → ℤ → ℤ
i *ℤ j =
    sub_ℕ (pos_part i * pos_part j + neg_part i * neg_part j)
      (pos_part i * neg_part j + neg_part i * pos_part j)

abbrev pub ltb_ℤ : ℤ → ℤ → Bool
ltb_ℤ i j = ltb (pos_part i + neg_part j) (neg_part i + pos_part j)

-- `n as i32` for a word of 32 bits.
unfoldable pub as_i32 : ℕ → ℤ
as_i32 n = if ltb n (2 ^ 31) then pos n else negsuc (u32_mod - 1 - n)

-- `i as usize` for an `i32`, on a target of 32 bits.
unfoldable pub as_usize : ℤ → ℕ
as_usize (pos n) = n
as_usize (negsuc n) = u32_mod - 1 - n

pub data Profile : Type 0 where
  debug release : Profile

-- What an overflow gives: `wrapped` is the value that a release build goes on with.
abbrev pub overflows {ℓ} : {A : Type ℓ} → Profile → A → Run A
overflows debug wrapped = panic overflow
overflows release wrapped = ok wrapped

unfoldable pub wrap : ℤ → ℤ
unfolding as_i32
wrap (pos n) = as_i32 (n % u32_mod)
wrap (negsuc n) = as_i32 (u32_mod - 1 - n % u32_mod)

-- An exact result as an `i32`.
unfoldable pub fit : Profile → ℤ → Run ℤ
unfolding wrap
fit p i =
    if leb (pos_part i) (2 ^ 31 - 1) && leb (neg_part i) (2 ^ 31)
    then ok i
    else overflows p (wrap i)

unfoldable pub saturating_add : ℤ → ℤ → ℤ
unfolding ◌+ℤ◌
saturating_add i j =
    let s = i +ℤ j in
    if leb (2 ^ 31) (pos_part s)
    then pos (2 ^ 31 - 1)
    else if leb (2 ^ 31) (neg_part s)
    then negsuc (2 ^ 31 - 1)
    else s

-- `i32::abs`: the least `i32` has no opposite.
unfoldable pub abs_i32 : Profile → ℤ → Run ℤ
abs_i32 p (pos n) = ok (pos n)
abs_i32 p (negsuc n) = if ltb n (2 ^ 31 - 1) then ok (pos (suc n)) else overflows p (negsuc n)

-- `i % 3`, with the sign of `i`.
unfoldable pub rem3 : ℤ → ℤ
rem3 (pos n) = pos (n % 3)
rem3 (negsuc n) = sub_ℕ 0 (suc n % 3)

-- An exact result in the range of `i32` is the result in either build.
pub fit-ok : (p : Profile) (i : ℤ) → pos_part i < 2 ^ 31 → neg_part i ≤ 2 ^ 31 → fit p i ≡ ok i
unfolding fit
fit-ok p i h k = rw (le→leb (pos_part i) (2 ^ 31 - 1) (omega arith), le→leb (neg_part i) (2 ^ 31) k)

pub as_usize-as_i32 : (n : ℕ) → n < u32_mod → as_usize (as_i32 n) ≡ n
unfolding as_usize as_i32
as_usize-as_i32 n h = ground arith

pub as_i32-low : (n : ℕ) → n < 2 ^ 31 → as_i32 n ≡ pos n
unfolding as_i32
as_i32-low n h = rw (lt→ltb n (2 ^ 31) h)
