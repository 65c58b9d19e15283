-- ===== src/Lookup/Reader.antt =====
-- `Reader` of rust/lookup/src/reader.rs: it decodes packed values from the module's memory.
-- The module runs on wasm32, where `usize` has 32 bits.
pub mod Strings
pub mod Wraps
use wasm_shared_buffers.Base.{
  ℕ, ◌+◌, Bool, true, false, Run, ok, assert, ◌>>=◌, ◌>>◌, length, ltb, leb, if◌then◌else◌,
}
use wasm_shared_buffers.Word.{add32, from_le_bytes}
use wasm_shared_buffers.Memory.{Memory, load}
use wasm_shared_buffers.Lookup.Entry.{Bytes, eq_bytes}

-- `buffer` is a pointer into the memory; `buffer.add(offset)` wraps on wasm32, where addresses are of
-- 32 bits.
pub record Reader : Type 0 where
  pub buffer : ℕ
  pub size : ℕ
  pub offset : ℕ

module _ (mem : Memory) where
  unfoldable pub read_u32 : Reader → Run (ℕ × Reader)
  read_u32 r = do
    assert (leb (add32 r.offset 4) r.size)
    res ← load mem (add32 r.buffer r.offset) 4
    ok (from_le_bytes res, record r { offset = add32 r.offset 4 })

  unfoldable pub read_str : Reader → Run (Bytes × Reader)
  read_str r₀ = do
    (len, r) ← read_u32 r₀
    assert (leb (add32 r.offset len) r.size)
    res ← load mem (add32 r.buffer r.offset) len
    ok (res, record r { offset = add32 r.offset len })

  unfoldable pub check_key : Bytes → Reader → Run (Bool × Reader)
  check_key key r₀ = do
    (len, r) ← read_u32 r₀
    assert (leb (add32 r.offset len) r.size)
    let r' = record r { offset = add32 r.offset len }
    if ltb len (length key)
        then ok (false, r')
        else (do res ← load mem (add32 r.buffer r.offset) len; ok (eq_bytes res key, r'))

  unfoldable pub skip_str : Reader → Run Reader
  skip_str r₀ = do
    (len, r) ← read_u32 r₀
    assert (leb (add32 r.offset len) r.size)
    ok (record r { offset = add32 r.offset len })
