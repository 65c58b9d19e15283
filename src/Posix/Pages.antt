-- ===== src/Posix/Pages.antt =====
-- What the code relies on of the operating system: which pages of the process are mapped, and what
-- may be done with them.
use wasm_shared_buffers.Base.{
  ℕ, ◌<◌, ◌+◌, ◌-◌, ◌/◌, ◌%◌, ◌^◌, ◌≡◌, ◌≢◌, Bool, true, false, ◌&&◌, Option, none, some, List, [],
  ◌∷◌, ltb, leb, if◌then◌else◌,
}
use wasm_shared_buffers.Int.{ℤ}
use wasm_shared_buffers.Posix.{Bytes, Flag, Libc, minus_one, map_shared}

-- The page `q` is one of those of `size` bytes from the address `ptr` on.
abbrev pub covers : (ptr size q : ℕ) → Bool
covers ptr size q = leb (ptr / 4096) q && ltb q ((ptr + size + 4095) / 4096)

abbrev pub map_failed : ℕ
map_failed = 2 ^ 64 - 1

-- `page w q` is what the process may do with page `q`, and `none` when it is not mapped.
pub record IsLibc {W : Type 0} (libc : Libc W) (page : W → ℕ → Option (List Flag)) : Type 0 where
  pub opens :
      (name : Bytes) (flags mode : List Flag) (w : W) (q : ℕ)
      → page (libc.shm_open name flags mode w).1 q ≡ page w q
  pub truncates :
      (fd : ℤ) (size : ℕ) (w : W) (q : ℕ) → page (libc.ftruncate fd size w).1 q ≡ page w q
  pub closes : (fd : ℤ) (w : W) (q : ℕ) → page (libc.close fd w).1 q ≡ page w q
  pub unlinks : (name : Bytes) (w : W) (q : ℕ) → page (libc.shm_unlink name w).1 q ≡ page w q
  pub maps :
      (ptr size : ℕ) (prot flags : List Flag) (fd : ℤ) (w : W) (q : ℕ)
      → (libc.mmap ptr size prot flags fd w).0 ≢ map_failed
      → page (libc.mmap ptr size prot flags fd w).1 q
        ≡ (if covers (libc.mmap ptr size prot flags fd w).0 size q then some prot else page w q)
  pub fresh :
      (size : ℕ) (prot : List Flag) (fd : ℤ) (w : W) (q : ℕ)
      → (libc.mmap 0 size prot (map_shared ∷ []) fd w).0 ≢ map_failed
      → covers (libc.mmap 0 size prot (map_shared ∷ []) fd w).0 size q ≡ true
      → page w q ≡ none
  pub unmaps :
      (ptr size : ℕ) (w : W) (q : ℕ)
      → ptr % 4096 ≡ 0
      → minus_one (libc.munmap ptr size w).0 ≡ false
      → page (libc.munmap ptr size w).1 q ≡ (if covers ptr size q then none else page w q)

-- `munmap` fails only when its arguments are invalid.
abbrev pub Unmaps : {W : Type 0} → Libc W → Type 0
Unmaps {W = W} libc =
    (ptr size : ℕ) (w : W)
    → ptr % 4096 ≡ 0
    → 0 < size
    → minus_one (libc.munmap ptr size w).0 ≡ false
