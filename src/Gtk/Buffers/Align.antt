-- ===== src/Gtk/Buffers/Align.antt =====
-- Where a container puts the buffers in the linear memory of its module: `page_align` and
-- WASM_ALLOC_SIZE of rust/gtk/src/host_common.rs. An `i64` is its bit pattern.
use Prim.Native.Nat.{bit_and}
use wasm_shared_buffers.Base.{ℕ, ◌+◌, ◌-◌, ◌*◌, ◌/◌, ◌%◌, ◌≡◌, ◌≤◌, ◌<◌, refl, arith}
use wasm_shared_buffers.Page
use wasm_shared_buffers.Page.{page_size, u64_mod, page_align_lem}
use wasm_shared_buffers.Gtk.Buffers.{read_only_buf_size, read_write_buf_size}

-- `((ptr - 1) & !(PAGE_SIZE - 1)) + PAGE_SIZE`
unfoldable pub page_align : ℕ → ℕ
page_align ptr =
    (bit_and ((ptr + u64_mod - 1) % u64_mod) (u64_mod - 1 - (page_size - 1)) + page_size) % u64_mod

abbrev pub wasm_alloc_size : ℕ
wasm_alloc_size = read_only_buf_size + read_write_buf_size + 3 * page_size

-- The bytes of whole pages.
abbrev pub in_pages : ℕ → ℕ
in_pages n = (n + (page_size - 1)) / page_size * page_size

page_align_same : (ptr : ℕ) → page_align ptr ≡ Page.page_align ptr
unfolding page_align Page.page_align
page_align_same ptr = refl

-- In an allocation of WASM_ALLOC_SIZE bytes at any address there is room for the whole pages of both
-- buffers: the read-only one at the next page boundary, and behind its pages the read-write one at
-- the page boundary after its last byte.
pub page_align-fits :
    (ptr : ℕ)
    → 0 < ptr
    → ptr + wasm_alloc_size < u64_mod
    → (page_align ptr % page_size ≡ 0)
      × (page_align (page_align ptr + read_only_buf_size) % page_size ≡ 0)
      × (ptr ≤ page_align ptr)
      × (page_align ptr + in_pages read_only_buf_size
          ≤ page_align (page_align ptr + read_only_buf_size))
      × (page_align (page_align ptr + read_only_buf_size) + in_pages read_write_buf_size
          ≤ ptr + wasm_alloc_size)
page_align-fits ptr h small =
    let (round, lo, hi) = page_align_lem ptr h (omega arith) in
    let ro = Page.page_align ptr in
    let (round', lo', hi') = page_align_lem (ro + 6000) (omega arith) (omega arith) in
    rw (page_align_same ptr, page_align_same (Page.page_align ptr + read_only_buf_size))
      (round, round', lo, omega arith, omega arith)
