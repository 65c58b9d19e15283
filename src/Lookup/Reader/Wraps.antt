-- ===== src/Lookup/Reader/Wraps.antt =====
-- `Reader::read_u32` of rust/lookup/src/reader.rs at an offset close to 2^32, as damaged data gives it.
use wasm_shared_buffers.Base.{
  ℕ, ◌+◌, ◌-◌, ◌≡◌, ◌≤◌, ◌<◌, refl, ok, take, drop, le→leb, length, arith,
}
use wasm_shared_buffers.Word.{u32_mod, add32, from_le_bytes}
use wasm_shared_buffers.Memory.{Memory, load}
use wasm_shared_buffers.Lookup.Reader.{read_u32}

module _ (mem : Memory) (buffer size k : ℕ) (some_back : 0 < k) (near : k ≤ 4) (behind : k ≤ buffer)
    (addressed : buffer < u32_mod) (room : 4 - k ≤ size) (inside : buffer + 4 ≤ length mem) where
  end_wraps : add32 (u32_mod - k) 4 ≡ 4 - k
  end_wraps = omega arith

  address_wraps : add32 buffer (u32_mod - k) ≡ buffer - k
  address_wraps = omega arith

  -- At an offset of 2^32 - k, for k from 1 to 4, in a buffer that begins at k or later, below 2^32, and
  -- has at least 4 - k bytes, in a memory that goes on for 4 bytes from the buffer on, `read_u32`
  -- passes its bounds check, returns the word k bytes before the buffer, and goes on at offset 4 - k.
  pub read_u32_wraps :
      read_u32 mem (record { buffer = buffer; size = size; offset = u32_mod - k })
      ≡ ok (
        from_le_bytes (take 4 (drop (buffer - k) mem)),
        record { buffer = buffer; size = size; offset = 4 - k },
      )
  unfolding read_u32 load
  read_u32_wraps =
      rw
        (
          end_wraps,
          address_wraps,
          le→leb (4 - k) size room,
          le→leb (buffer - k + 4) (length mem) (omega arith),
        )
        refl
