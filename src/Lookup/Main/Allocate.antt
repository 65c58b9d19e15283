-- ===== src/Lookup/Main/Allocate.antt =====
-- What `main` relies on of the module's allocator.
use wasm_shared_buffers.Base.{ℕ, ◌+◌, ◌≤◌, ◌≡◌, ◌⊎◌, List, length, All}
use wasm_shared_buffers.Memory.{Memory, Holds}
use wasm_shared_buffers.Lookup.Entry.{Bytes}
use wasm_shared_buffers.Lookup.Host.{Malloc}
use wasm_shared_buffers.Lookup.Module.{Str}
use wasm_shared_buffers.Lookup.Module.Calls.{Allocator}
use wasm_shared_buffers.Lookup.Module.Ready.{IsApart}

-- The memory `m'` differs from `m` at most in the `n` bytes at `i`.
pub record Differs (m m' : Memory) (i n : ℕ) : Type 0 where
  pub size : length m' ≡ length m
  pub keeps :
      (p : ℕ) (cs : Bytes) → (p + length cs ≤ i) ⊎ (i + n ≤ p) → Holds m p cs → Holds m' p cs

-- The allocator of the module, in a memory that may grow to `room` bytes, by at most `slack` bytes
-- more than it is asked for. It knows which blocks are in use; a write to such a block does not
-- change that. A new block is in use and apart from the others, whose bytes it keeps. The blocks of
-- a call of `lookup_ext`, for up to `limit` bytes, are apart from those in use.
pub record IsAllocator (malloc : Malloc) (alloc : Memory → Allocator) (room slack limit : ℕ)
    : Type 1 where
  pub InUse : Memory → ℕ → ℕ → Type 0
  pub part : (m : Memory) (q n p k : ℕ) → InUse m q n → q ≤ p → p + k ≤ q + n → InUse m p k
  pub inside :
      (n : ℕ) (m : Memory)
      → length m + n + slack ≤ room
      → (malloc n m).0 + n ≤ length (malloc n m).1
  pub grows :
      (n : ℕ) (m : Memory)
      → length m + n + slack ≤ room
      → length (malloc n m).1 ≤ length m + n + slack
  pub gives :
      (n : ℕ) (m : Memory) → length m + n + slack ≤ room → InUse (malloc n m).1 (malloc n m).0 n
  pub apart :
      (n : ℕ) (m : Memory) (q k : ℕ)
      → length m + n + slack ≤ room
      → InUse m q k
      → (q + k ≤ (malloc n m).0) ⊎ ((malloc n m).0 + n ≤ q)
  pub keeps_use :
      (n : ℕ) (m : Memory) (q k : ℕ)
      → length m + n + slack ≤ room
      → InUse m q k
      → InUse (malloc n m).1 q k
  pub keeps :
      (n : ℕ) (m : Memory) (q : ℕ) (cs : Bytes)
      → length m + n + slack ≤ room
      → InUse m q (length cs)
      → Holds m q cs
      → Holds (malloc n m).1 q cs
  pub written :
      (m m' : Memory) (i n q k : ℕ) → InUse m i n → Differs m m' i n → InUse m q k → InUse m' q k
  pub calls :
      (m : Memory) (index n : ℕ) (strs : List Str)
      → InUse m index n
      → All (λ s. InUse m s.ptr (length s.bytes)) strs
      → IsApart (alloc m) (length m) limit index n strs
