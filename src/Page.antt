-- ===== src/Page.antt =====
-- Page alignment: `page_align` of rust/lookup/src/main.rs, on a 64-bit `usize`.
use Prim.Native.Nat.{bit_and, digits, bit_and-bitwise, min}
use wasm_shared_buffers.Base.{
  ℕ, zero, suc, ◌+◌, ◌-◌, ◌*◌, ◌/◌, ◌%◌, ◌^◌, ◌≡◌, ◌≤◌, ◌<◌, refl, sym, ◌∙◌, arith,
}

abbrev pub page_size : ℕ
page_size = 4096

abbrev pub u64_mod : ℕ
u64_mod = 2 ^ 64

-- `((ptr - 1) & !(PAGE_SIZE - 1)) + PAGE_SIZE`
unfoldable pub page_align : ℕ → ℕ
page_align ptr =
    (bit_and ((ptr + u64_mod - 1) % u64_mod) (u64_mod - 1 - (page_size - 1)) + page_size) % u64_mod

-- A mask with `k` ones above `j` zeros, the numbers that it covers, and what it keeps of one.
mask : ℕ → ℕ → ℕ
mask zero zero = 0
mask zero (suc k) = mask zero k * 2 + 1
mask (suc j) k = mask j k * 2

cover : ℕ → ℕ → ℕ
cover zero zero = 1
cover zero (suc k) = cover zero k * 2
cover (suc j) k = cover j k * 2

floor : ℕ → ℕ → ℕ
floor zero x = x
floor (suc j) x = floor j (x / 2) * 2

abbrev conj : ℕ → ℕ → ℕ → ℕ
conj = digits (λ _. 0) min

conj-zero : (n b : ℕ) → conj n 0 b ≡ 0
conj-zero zero b = refl
conj-zero (suc n) b = refl

floor-zero : (j : ℕ) → floor j 0 ≡ 0
unfolding floor
floor-zero zero = refl
floor-zero (suc j) = omega (arith, floor-zero j)

mask_one : (k : ℕ) → (mask zero (suc k) / 2 ≡ mask zero k) × (mask zero (suc k) % 2 ≡ 1)
unfolding mask
mask_one k = (omega arith, omega arith)

mask_zero : (j k : ℕ) → (mask (suc j) k / 2 ≡ mask j k) × (mask (suc j) k % 2 ≡ 0)
unfolding mask
mask_zero j k = (omega arith, omega arith)

-- The conjunction with the mask keeps the digits above the zeros.
conj-mask : (j k n x : ℕ) → x ≤ n → x < cover j k → conj n x (mask j k) ≡ floor j x
unfolding cover floor
conj-mask j k n zero h c = conj-zero n (mask j k) ∙ sym (floor-zero j)
conj-mask j k zero (suc x) h c = absurd (omega arith)
conj-mask zero zero (suc n) (suc x) h c = absurd (omega arith)
conj-mask zero (suc k) (suc n) (suc x) h c =
    let (half, odd) = mask_one k in
    rw (half, odd, conj-mask zero k n (suc x / 2) (omega arith) (omega arith)) (omega arith)
conj-mask (suc j) k (suc n) (suc x) h c =
    let (half, even) = mask_zero j k in
    rw (half, even, conj-mask j k n (suc x / 2) (omega arith) (omega arith)) (omega arith)

page_mask : (x : ℕ) → x < u64_mod → bit_and x (u64_mod - 1 - (page_size - 1)) ≡ floor 12 x
unfolding mask cover
page_mask x h = bit_and-bitwise x _ ∙ conj-mask 12 52 x x (omega arith) h

floor-page : (x : ℕ) → floor 12 x ≡ x / page_size * page_size
unfolding floor
floor-page x = omega arith

-- From a positive address, below the last page, `page_align` goes to the next page boundary, and
-- stays if the address is one.
pub page_align_lem :
    (ptr : ℕ)
    → 0 < ptr
    → ptr + page_size < u64_mod
    → (page_align ptr % page_size ≡ 0) × (ptr ≤ page_align ptr) × (page_align ptr < ptr + page_size)
unfolding page_align
page_align_lem ptr pos small =
    let e : (ptr + u64_mod - 1) % u64_mod ≡ ptr - 1 = omega arith in
    rw (e, page_mask (ptr - 1) (omega arith), floor-page (ptr - 1))
      (omega arith, omega arith, omega arith)

-- Whatever the address is, `page_align` gives a page boundary.
pub page_align-boundary : (ptr : ℕ) → page_align ptr % page_size ≡ 0
unfolding page_align
page_align-boundary ptr =
    rw (page_mask ((ptr + u64_mod - 1) % u64_mod) (omega arith), floor-page _) (omega arith)
