-- ===== src/Lookup/Host.antt =====
-- The host of the lookup example, rust/lookup/src/main.rs: the map and the test keys, their copy
-- into the module's memory, and the mapping of the file. The host has a 64-bit `usize`.
pub mod Create
pub mod CopyKeys
pub mod Initialise
pub mod Instance
use wasm_shared_buffers.Base.{
  ℕ, zero, suc, ◌+◌, ◌-◌, ◌*◌, ◌%◌, ◌^◌, Bool, List, [], ◌∷◌, ◌++◌, Run, ok, panic, index, assert,
  ◌>>=◌, ◌>>◌, length, ltb, ◌==◌, if◌then◌else◌,
}
use wasm_shared_buffers.Word.{u32_mod, to_le_bytes}
use wasm_shared_buffers.Memory.{Memory}
use wasm_shared_buffers.Page.{page_align, page_size, u64_mod}
use wasm_shared_buffers.Lookup.Entry.{Bytes, KeyValue, eq_bytes}
use wasm_shared_buffers.Lookup.Module.{Context, rounds, create_context}

-- `HashMap::insert`: the value of a key that is there is replaced.
unfoldable pub insert : KeyValue → List KeyValue → List KeyValue
insert e [] = e ∷ []
insert e (x ∷ xs) = if eq_bytes x.key e.key then e ∷ xs else x ∷ insert e xs

-- What `create_lookup` builds: the map, the packed test keys and their number.
pub record Created : Type 0 where
  pub lookup : List KeyValue
  pub test_keys : Bytes
  pub test_key_count : ℕ

-- One round, for a generated pair; `wanted` is `params.test_keys`.
unfoldable pub add_pair : ℕ → KeyValue → Created → Created
unfolding insert
add_pair wanted e s =
    let lookup = insert e s.lookup in
    if ltb s.test_key_count wanted
    then record {
      lookup = lookup;
      test_keys = s.test_keys ++ (to_le_bytes (length e.key % u32_mod) ++ e.key);
      test_key_count = s.test_key_count + 1;
    }
    else record s { lookup = lookup }

unfoldable pub add_pairs : ℕ → List KeyValue → Created → Created
unfolding add_pair
add_pairs wanted [] s = s
add_pairs wanted (e ∷ es) s = add_pairs wanted es (add_pair wanted e s)

-- `create_lookup`: the list holds the `params.lookup_entries` random pairs, and `test_keys` is the
-- bit pattern of the `i32` parameter.
unfoldable pub create_lookup : (test_keys : ℕ) → List KeyValue → Created
unfolding add_pairs
create_lookup test_keys pairs =
    add_pairs (rounds test_keys) pairs (record { lookup = []; test_keys = []; test_key_count = 0 })

-- `buf[i] = b`
unfoldable pub set_byte : Memory → ℕ → ℕ → Run Memory
set_byte [] i b = panic index
set_byte (x ∷ m) zero b = ok (b ∷ m)
set_byte (x ∷ m) (suc i) b = set_byte m i b >>= λ m'. ok (x ∷ m')

-- The loop of `store_test_keys`: byte by byte from index `bi` on.
unfoldable pub copy_bytes : Memory → ℕ → Bytes → Run Memory
unfolding set_byte
copy_bytes buf bi [] = ok buf
copy_bytes buf bi (b ∷ bs) = do buf' ← set_byte buf bi b; copy_bytes buf' (bi + 1) bs

-- An `i32` as a `usize` of the host: sign extension of the bit pattern.
abbrev pub sign_extend : ℕ → ℕ
sign_extend n = if ltb n (2 ^ 31) then n else n + (u64_mod - u32_mod)

-- The module's `malloc_`, called from the host: the index that it returns, and the memory, which
-- may have grown.
abbrev pub Malloc : Type 0
Malloc = ℕ → Memory → ℕ × Memory

-- `store_test_keys` returns the index of the block, an `i32`.
unfoldable pub store_test_keys : Malloc → Bytes → Memory → Run (ℕ × Memory)
unfolding copy_bytes
store_test_keys malloc test_keys mem = do
  let (alloc_index, mem₁) = malloc (length test_keys % u32_mod) mem
  mem₂ ← copy_bytes mem₁ (sign_extend alloc_index) test_keys
  ok (alloc_index, mem₂)

-- `mmap` of the shared memory file at a fixed address of the host: the address that it returns,
-- and the linear memory, whose pages it replaces.
abbrev pub Mmap : Type 0
Mmap = (addr : ℕ) (bytes : Bytes) → Memory → ℕ × Memory

pub record Params : Type 0 where
  pub index_slots : ℕ
  pub test_keys : ℕ
  pub default_msg_bytes : ℕ

-- What `initialise_wasm` sets in the host's context, the module's context and the memory.
pub record Initialised : Type 0 where
  pub buffer : ℕ
  pub buffer_size : ℕ
  pub wasm_context : Context
  pub memory : Memory

-- `base` is the host address of the linear memory, after the allocation.
unfoldable pub initialise_wasm :
    Malloc
    → Mmap
    → (base : ℕ) → Params
    → (file : Bytes) → (test_keys_index test_keys_bytes : ℕ) → Memory
    → Run Initialised
initialise_wasm malloc mmap base params file test_keys_index test_keys_bytes mem = do
  let buffer_size = length file
  let alloc_size = buffer_size + 2 * page_size
  let (wasm_alloc_index, mem₁) = malloc (alloc_size % u32_mod) mem
  let wasm_alloc_ptr = (base + sign_extend wasm_alloc_index) % u64_mod
  let aligned_ptr = page_align wasm_alloc_ptr
  let (buffer, mem₂) = mmap aligned_ptr file mem₁
  assert (buffer == aligned_ptr)
  let wasm_buf_index = (buffer + u64_mod - base) % u64_mod % u32_mod
  let lookup_bytes = (buffer_size + u64_mod - params.index_slots * 4) % u64_mod
  ctx ←
      create_context mem₂ wasm_buf_index (params.index_slots % u32_mod) (lookup_bytes % u32_mod)
        params.test_keys test_keys_index test_keys_bytes params.default_msg_bytes
  ok (record { buffer = buffer; buffer_size = buffer_size; wasm_context = ctx; memory = mem₂ })
