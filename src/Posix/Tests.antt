-- ===== src/Posix/Tests.antt =====
-- A process whose new mappings come behind all others, as a concrete libc.
use wasm_shared_buffers.Base.{
  ℕ, ◌+◌, ◌*◌, ◌/◌, ◌≤◌, ◌≡◌, refl, true, false, Option, none, some, List, arith, ◌==◌,
  if◌then◌else◌,
}
use wasm_shared_buffers.Int.{pos}
use wasm_shared_buffers.Posix.{Flag, Libc}
use wasm_shared_buffers.Posix.Pages.{IsLibc, covers, Unmaps}

-- The pages of a process, none of them from `bound` on.
pub record Process : Type 0 where
  pub bound : ℕ
  pub at : ℕ → Option (List Flag)
  pub free : (q : ℕ) → bound ≤ q → at q ≡ none

abbrev pub nothing_mapped : Process
nothing_mapped = record { bound = 1; at = λ q. none; free = λ q h. refl }

abbrev pub behind : ℕ → ℕ → ℕ → ℕ
behind bound ptr size = bound + (ptr + size + 4095) / 4096

pub not_covered : (b ptr size q : ℕ) → behind b ptr size ≤ q → covers ptr size q ≡ false
not_covered b ptr size q h = ground arith

abbrev pub put : Process → ℕ → ℕ → Option (List Flag) → Process
put w ptr size access = record {
  bound = behind w.bound ptr size;
  at = λ q. if covers ptr size q then access else w.at q;
  free = λ q h. rw (not_covered w.bound ptr size q h) (w.free q (omega arith));
}

-- Where a mapping goes.
abbrev pub chosen : Process → ℕ → ℕ
chosen w ptr = if ptr == 0 then w.bound * 4096 else ptr

abbrev pub system : Libc Process
system = record {
  shm_open = λ name flags mode w. (pos 3, w);
  ftruncate = λ fd size w. (pos 0, w);
  mmap = λ ptr size prot flags fd w. (chosen w ptr, put w (chosen w ptr) size (some prot));
  close = λ fd w. (pos 0, w);
  munmap = λ ptr size w. (pos 0, put w ptr size none);
  shm_unlink = λ name w. (pos 0, w);
}

abbrev pub page : Process → ℕ → Option (List Flag)
page w q = w.at q

behind_all : (b size q : ℕ) → covers (b * 4096) size q ≡ true → b ≤ q
behind_all b size q h = ground arith

pub system-IsLibc : IsLibc system page
system-IsLibc = record {
  opens = λ name flags mode w q. refl;
  truncates = λ fd size w q. refl;
  closes = λ fd w q. refl;
  unlinks = λ name w q. refl;
  maps = λ ptr size prot flags fd w q h. refl;
  fresh = λ size prot fd w q h c. w.free q (behind_all w.bound size q c);
  unmaps = λ ptr size w q e s. refl;
}

pub system-Unmaps : Unmaps system
system-Unmaps ptr size w e h = refl
