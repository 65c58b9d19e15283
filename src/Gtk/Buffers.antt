-- ===== src/Gtk/Buffers.antt =====
-- The shared buffers in the address space of a process: `Buffers` and `map_buffer` of
-- rust/gtk/src/host_common.rs, `create_shared_buffer` and the end of `HostContext` of
-- rust/gtk/src/bin/host.rs.
-- The calls of libc are a parameter that acts on a state of the operating system; an address is a
-- number. What the code prints is left out.
pub mod Mapping
pub mod Dropped
pub mod Opened
pub mod Align
use wasm_shared_buffers.Base.{
  ℕ, zero, suc, ◌+◌, ◌-◌, ◌*◌, ◌/◌, ◌%◌, ◌^◌, ◌≤◌, ◌<◌, ◌≡◌, refl, sym, ap, ◌∙◌, ◌≢◌, ◌↔◌, ◌⊎◌, inl,
  inr, Bool, true, false, not, ◌&&◌, ◌||◌, Option, none, some, List, [], ◌∷◌, ◌++◌, arith, ltb, leb,
  ◌==◌, if◌then◌else◌, le→leb, lt→ltb, ltb→lt, leb→le, ==_iff, Bool-cases, Option-cases, length,
  get_elem?, get_or, take, drop, replicate, All, Run, ok, panic, overflow, explicit, unwrap,
  assertion, ◌>>=◌, ◌>>◌, check, assert, item, >>=-eq-ok, length-replicate, length-append,
}
use wasm_shared_buffers.Int.{
  ℤ, pos, negsuc, pos_part, neg_part, sub_ℕ, ◌+ℤ◌, ◌-ℤ◌, ◌*ℤ◌, ltb_ℤ, as_i32, as_usize, Profile,
  debug, release, overflows, wrap, fit, saturating_add, abs_i32, rem3, fit-ok, as_usize-as_i32,
  as_i32-low,
}
use wasm_shared_buffers.Posix.{
  Flag, o_creat, o_trunc, o_rdwr, o_rdonly, s_irusr, s_iwusr, prot_read, prot_write, map_fixed,
  map_shared, Bytes, Libc, cstring, minus_one,
}
use wasm_shared_buffers.Gtk.State.{exit}
use wasm_shared_buffers.Gtk.Signals.{send_signal}

abbrev pub read_only_buf_name : Bytes
read_only_buf_name = 47 ∷ 115 ∷ 104 ∷ 97 ∷ 114 ∷ 101 ∷ 100 ∷ 95 ∷ 114 ∷ 111 ∷ []

abbrev pub read_write_buf_name : Bytes
read_write_buf_name = 47 ∷ 115 ∷ 104 ∷ 97 ∷ 114 ∷ 101 ∷ 100 ∷ 95 ∷ 114 ∷ 119 ∷ []

-- `GRID_W * GRID_H * 4`
abbrev pub read_only_buf_size : ℕ
read_only_buf_size = 50 * 30 * 4

-- `SIGNAL_BYTES + 8 + N_RUNNERS * 12`
abbrev pub read_write_buf_size : ℕ
read_write_buf_size = 4 + 8 + 15 * 12

-- `if libc::f(...) == -1 { panic!(...) }`
abbrev pub unless_minus_one : ℤ → Run (Unit {0})
unless_minus_one i = if minus_one i then panic explicit else ok tt

abbrev pub open_flags : Bool → List Flag
open_flags true = o_rdonly ∷ []
open_flags false = o_rdwr ∷ []

abbrev pub map_flags : Bool → List Flag
map_flags true = prot_read ∷ []
map_flags false = prot_read ∷ prot_write ∷ []

pub record Buffers : Type 0 where
  pub shared_ro : ℕ
  pub shared_rw : ℕ
  pub index : ℕ
  pub signal : ℕ

unfoldable pub buffers_new : (shared_ro shared_rw index : ℕ) → Run Buffers
buffers_new shared_ro shared_rw index = do
  valid ← assert (index == 0 || index == 1)
  ok (record {
    shared_ro = shared_ro;
    shared_rw = shared_rw;
    index = index;
    signal = shared_rw + index;
  })

module _ {W : Type 0} (libc : Libc W) where
  unfoldable pub map_buffer : (aligned_ptr : ℕ) → Bytes → ℕ → Bool → W → Run (ℕ × W)
  map_buffer aligned_ptr name size read_only w = do
    cname ← cstring name
    let (fd, w₁) = libc.shm_open cname (open_flags read_only) (s_irusr ∷ s_iwusr ∷ []) w
    opened ← unless_minus_one fd
    let (buf, w₂) =
        libc.mmap aligned_ptr size (map_flags read_only) (map_fixed ∷ map_shared ∷ []) fd w₁
    placed ← assert (buf == aligned_ptr)
    let (closing, w₃) = libc.close fd w₂
    closed ← unless_minus_one closing
    ok (buf, w₃)

  unfoldable pub create_shared_buffer : Bytes → ℕ → W → Run (ℕ × W)
  create_shared_buffer name size w = do
    cname ← cstring name
    let (fd, w₁) = libc.shm_open cname (o_creat ∷ o_trunc ∷ o_rdwr ∷ []) (s_irusr ∷ s_iwusr ∷ []) w
    opened ← unless_minus_one fd
    let (sizing, w₂) = libc.ftruncate fd size w₁
    sized ← unless_minus_one sizing
    let (buf, w₃) = libc.mmap 0 size (prot_read ∷ prot_write ∷ []) (map_shared ∷ []) fd w₂
    let (closing, w₄) = libc.close fd w₃
    closed ← unless_minus_one closing
    ok (buf, w₄)

  -- A buffer of `Buffers` at its end.
  unfoldable pub unmap_unless_null : ℕ → ℕ → W → W
  unmap_unless_null ptr size w = if ptr == 0 then w else (libc.munmap ptr size w).1

  unfoldable pub drop_buffers : Buffers → W → W
  drop_buffers b w =
      unmap_unless_null b.shared_rw read_write_buf_size
        (unmap_unless_null b.shared_ro read_only_buf_size w)

  -- The end of the host's context: the signal bytes that it leaves, and the system.
  unfoldable pub drop_host : (ℕ → ℕ × ℕ) → (shared_ro shared_rw : ℕ) → W → (ℕ × ℕ) × Run W
  drop_host bytes shared_ro shared_rw w = (
    (send_signal exit false bytes).0,
    (do
      sent ← (send_signal exit false bytes).1
      cname_ro ← cstring read_only_buf_name
      cname_rw ← cstring read_write_buf_name
      let w₁ = (libc.munmap shared_ro read_only_buf_size w).1
      let w₂ = (libc.munmap shared_rw read_only_buf_size w₁).1
      let w₃ = (libc.shm_unlink cname_ro w₂).1
      ok (libc.shm_unlink cname_rw w₃).1),
  )
