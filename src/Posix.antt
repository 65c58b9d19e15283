-- ===== src/Posix.antt =====
-- The calls of libc that rust/lookup and rust/gtk make, and names with a zero byte at their end.
-- The calls are a parameter of the model that acts on a state of the operating system; an address
-- is a number.
pub mod Pages
pub mod Tests
use wasm_shared_buffers.Base.{
  ℕ, zero, suc, ◌<◌, ◌≡◌, refl, Bool, true, false, List, [], ◌∷◌, arith, All, Run, ok, panic,
  unwrap, ◌>>=◌,
}
use wasm_shared_buffers.Int.{ℤ, pos, negsuc}

-- The constants of libc that the code joins by `|`.
pub data Flag : Type 0 where
  o_creat o_trunc o_rdwr o_rdonly s_irusr s_iwusr prot_read prot_write map_fixed map_shared : Flag

abbrev pub Bytes : Type 0
Bytes = List ℕ

pub record Libc (W : Type 0) : Type 0 where
  pub shm_open : Bytes → List Flag → List Flag → W → ℤ × W
  pub ftruncate : ℤ → ℕ → W → ℤ × W
  pub mmap : ℕ → ℕ → List Flag → List Flag → ℤ → W → ℕ × W
  pub close : ℤ → W → ℤ × W
  pub munmap : ℕ → ℕ → W → ℤ × W
  pub shm_unlink : Bytes → W → ℤ × W

-- `CString::new(name).unwrap()` fails on a zero byte.
unfoldable pub cstring : Bytes → Run Bytes
cstring [] = ok []
cstring (zero ∷ bs) = panic unwrap
cstring (suc b ∷ bs) = do cs ← cstring bs; ok (suc b ∷ cs)

-- `libc::f(...) == -1`
abbrev pub minus_one : ℤ → Bool
minus_one (negsuc zero) = true
minus_one _ = false

abbrev pub AreNonzero : Bytes → Type 0
AreNonzero = All (λ b. 0 < b)

pub cstring-AreNonzero : (bs : Bytes) → AreNonzero bs → cstring bs ≡ ok bs
unfolding cstring
cstring-AreNonzero [] a = refl
cstring-AreNonzero (zero ∷ bs) (h, a) = absurd (omega arith)
cstring-AreNonzero (suc b ∷ bs) (h, a) = rw (cstring-AreNonzero bs a) refl
