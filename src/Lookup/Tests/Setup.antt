-- ===== src/Lookup/Tests/Setup.antt =====
-- The host's preparation at concrete values: the map, the copy of the keys, and the mapping.
use wasm_shared_buffers.Base.{
  ℕ, ◌+◌, ◌-◌, ◌%◌, ◌≡◌, refl, inl, none, List, [], ◌∷◌, ◌++◌, ok, panic, assertion, length,
  length-append, length-replicate, replicate, arith,
}
use wasm_shared_buffers.Memory.{
  Memory, Holds, overlay, length-overlay, overlay-Holds, overlay-Holds_apart,
}
use wasm_shared_buffers.Page.{page_align, page_size}
use wasm_shared_buffers.Lookup.Entry.{Bytes, KeyValue, find, Distinct}
use wasm_shared_buffers.Lookup.Host.{
  Malloc, Mmap, Params, Initialised, create_lookup, initialise_wasm,
}
use wasm_shared_buffers.Lookup.Host.Create.{first_keys, last_value, create_lookup_lem}
use wasm_shared_buffers.Lookup.Host.Initialise.{
  IsMmap, initialise_wasm-IsMapped, initialise_wasm_short,
}
use wasm_shared_buffers.Lookup.Module.Internal.{IsMapped}
use wasm_shared_buffers.Lookup.Module.TestKeys.{packed_strs, strs_from, AllHeld}
use wasm_shared_buffers.Lookup.Module.{rounds}
use wasm_shared_buffers.Lookup.Store.Format.{stored_table, packed_str}
use wasm_shared_buffers.Lookup.Imports.{
  lookup_callback_name, call_import, Dispatched, call_import-Dispatched,
}
use wasm_shared_buffers.Lookup.Tests.{entry, two, two_table, program}

-- The first key comes again with another value.
abbrev pairs : List KeyValue
pairs = two ++ (entry (b'a' ∷ b'b' ∷ []) (b'n' ∷ b'e' ∷ b'w' ∷ []) ∷ [])

create_lookup_lem_example :
    Distinct (create_lookup 2 pairs).lookup
    × ((k : Bytes) → find k (create_lookup 2 pairs).lookup ≡ last_value k pairs none)
    × ((create_lookup 2 pairs).test_keys ≡ packed_strs (first_keys (rounds 2) pairs))
create_lookup_lem_example = create_lookup_lem 2 pairs (omega arith)

page_align_5000 : page_align 5000 ≡ 8192
unfolding page_align
page_align_5000 = refl

abbrev pub test_keys : List Bytes
test_keys = (b'a' ∷ b'b' ∷ []) ∷ (b'a' ∷ []) ∷ []

-- An allocator that gives index 3 of a fresh memory.
abbrev malloc_three : Malloc
malloc_three n mem = (3, replicate 20 0)

-- A mapping that writes the file's bytes only, for a linear memory at address 1.
abbrev pub mmap_bytes : Mmap
mmap_bytes addr bytes mem = (addr, overlay mem (addr - 1) bytes)

pub copying-IsMmap : IsMmap 1 mmap_bytes
copying-IsMmap = record {
  returns = λ i bs m round fits. refl;
  maps = λ i bs m round fits.
      let at : 1 + i - 1 ≡ i = omega arith in rw at (overlay-Holds m i bs (omega arith));
  size = λ i bs m round fits. length-overlay m (1 + i - 1) bs;
  keeps = λ i bs m q cs round fits apart h.
      let at : 1 + i - 1 ≡ i = omega arith in
      rw at (overlay-Holds_apart m i q bs cs (omega arith) h);
}

-- The keys at index 0, and an allocation behind them.
abbrev pub room : ℕ
room = 8232

abbrev pub grown : Memory
grown = packed_strs test_keys ++ replicate room 0

abbrev pub malloc_behind : Malloc
malloc_behind n mem = (11, grown)

abbrev pub params : ℕ → Params
params n = record { index_slots = 2; test_keys = n; default_msg_bytes = 100 }

pub keys_bytes : length (packed_strs test_keys) ≡ 11
unfolding packed_strs packed_str program
keys_bytes = refl

pub table_bytes : length (stored_table two_table) ≡ 40
unfolding program
table_bytes = refl

pub grown_bytes : length grown ≡ 11 + room
grown_bytes = omega (
  arith,
  length-append (packed_strs test_keys) (replicate room 0),
  keys_bytes,
  length-replicate {A = ℕ} room 0,
)

pub keys_held : Holds grown 0 (packed_strs test_keys)
unfolding packed_strs packed_str program
keys_held = record { fits = omega arith; reads = refl }

initialise_wasm-IsMapped_example :
    (r : Initialised) × (initialise_wasm malloc_behind mmap_bytes 1
        (params 2)
        (stored_table two_table)
        0
        (length (packed_strs test_keys))
        []
      ≡ ok r)
    × IsMapped r.memory r.wasm_context two_table
    × (r.wasm_context.test_keys ≡ strs_from 0 test_keys)
    × AllHeld r.memory (strs_from 0 test_keys)
    × (r.buffer % page_size ≡ 0)
initialise_wasm-IsMapped_example =
    initialise_wasm-IsMapped malloc_behind mmap_bytes 1 (params 2) two_table test_keys 0 [] grown 11
      copying-IsMmap refl refl (omega (arith, grown_bytes, table_bytes))
      (omega (arith, grown_bytes)) (omega arith) (omega (arith, grown_bytes)) keys_held
      (inl (omega (arith, keys_bytes))) refl

initialise_wasm_short_example :
    initialise_wasm malloc_behind mmap_bytes 1
      (params 3)
      (stored_table two_table)
      0
      (length (packed_strs test_keys))
      []
    ≡ panic assertion
initialise_wasm_short_example =
    initialise_wasm_short malloc_behind mmap_bytes 1 (params 3) two_table test_keys 0 [] grown 11
      copying-IsMmap refl refl (omega (arith, grown_bytes, table_bytes))
      (omega (arith, grown_bytes)) (omega arith) (omega (arith, grown_bytes)) keys_held
      (inl (omega (arith, keys_bytes))) (omega arith)

call_import-Dispatched_example :
    Dispatched two
      (replicate 64 0)
      0
      0
      8
      12
      lookup_callback_name
      (call_import two lookup_callback_name (replicate 64 0) 0 0 8 12)
call_import-Dispatched_example =
    call_import-Dispatched two lookup_callback_name (replicate 64 0) 0 0 8 12
