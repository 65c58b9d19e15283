-- ===== src/Lookup/Module.antt =====
-- The wasm module of the lookup example, rust/lookup/src/reader.rs: its context and the lookup in
-- the mapped buffer. The module runs on wasm32, where `usize` has 32 bits.
pub mod Internal
pub mod Calls
pub mod Call
pub mod External
pub mod TestKeys
pub mod Ready
pub mod Verify
use wasm_shared_buffers.Base.{
  ℕ, zero, suc, ◌+◌, ◌*◌, ◌%◌, ◌^◌, Bool, true, false, Option, none, some, List, [], ◌∷◌, Run, ok,
  panic, index, check, ◌>>=◌, ◌>>◌, length, ltb, if◌then◌else◌,
}
use wasm_shared_buffers.Word.{u32_mod, add32, from_le_bytes}
use wasm_shared_buffers.Memory.{Memory, load}
use wasm_shared_buffers.Lookup.Entry.{Bytes}
use wasm_shared_buffers.Lookup.Reader.{Reader, read_u32, read_str, check_key, skip_str}
use wasm_shared_buffers.Lookup.Store.{rem}

-- A `&'static str`: where its bytes stand, and the bytes.
pub record Str : Type 0 where
  pub ptr : ℕ
  pub bytes : Bytes

-- A loop `for _ in 0..n` to the `i32` with the bit pattern `n` has no rounds if it is negative.
abbrev pub rounds : ℕ → ℕ
rounds n = if ltb n (2 ^ 31) then n else 0

-- `index` is a slice: a pointer and the number of its `u32`s.
pub record Context : Type 0 where
  pub index : ℕ
  pub index_len : ℕ
  pub lookup : ℕ
  pub lookup_bytes : ℕ
  pub test_keys : List Str
  pub default_msg_bytes : ℕ

module _ (mem : Memory) where
  unfoldable pub read_keys : ℕ → Reader → Run (List Str)
  read_keys zero r = ok []
  read_keys (suc n) r = do
    (key, r') ← read_str mem r
    keys ← read_keys n r'
    ok (record { ptr = r.buffer + add32 r.offset 4; bytes = key } ∷ keys)

  -- The arguments are the bit patterns of the `i32`s.
  unfoldable pub create_context :
      (buffer index_slots lookup_bytes num_test_keys test_keys_ptr test_keys_bytes
        default_msg_bytes : ℕ)
      → Run Context
  unfolding read_keys
  create_context buffer index_slots lookup_bytes num_test_keys test_keys_ptr test_keys_bytes
        default_msg_bytes =
      do
        let reader : Reader = record { buffer = test_keys_ptr; size = test_keys_bytes; offset = 0 }
        keys ← read_keys (rounds num_test_keys) reader
        ok (record {
          index = buffer;
          index_len = index_slots;
          lookup = buffer + index_slots * 4 % u32_mod;
          lookup_bytes = lookup_bytes;
          test_keys = keys;
          default_msg_bytes = default_msg_bytes;
        })

  -- `ctx.index[i]`
  unfoldable pub index_at : Context → ℕ → Run ℕ
  index_at ctx i = do
    check (ltb i ctx.index_len) index
    bytes ← load mem (ctx.index + i * 4) 4
    ok (from_le_bytes bytes)

  -- The loop over the pairs of a chain.
  unfoldable pub search_chain : Bytes → ℕ → Reader → Run (Option Bytes)
  search_chain key zero r = ok none
  search_chain key (suc n) r = do
    (same, r₁) ← check_key mem key r
    if same
        then (do (value, _) ← read_str mem r₁; ok (some value))
        else (do r₂ ← skip_str mem r₁; search_chain key n r₂)

  -- What `lookup_int` does with a slot's offset.
  unfoldable pub search_slot : Context → Bytes → ℕ → Run (Option Bytes)
  unfolding search_chain
  search_slot ctx key offset =
      let reader : Reader = record {
        buffer = ctx.lookup;
        size = ctx.lookup_bytes;
        offset = offset;
      } in
      if ltb 0 offset
      then (do (n_items, r) ← read_u32 mem reader; search_chain key n_items r)
      else ok none

  -- `hash` is `DefaultHasher` on the bytes of the key; the cast keeps its low 32 bits.
  unfoldable pub lookup_int : (Bytes → ℕ) → Context → Bytes → Run (Option Bytes)
  lookup_int hash ctx key = do
    i ← rem (hash key % u32_mod) ctx.index_len
    offset ← index_at ctx i
    search_slot ctx key offset
