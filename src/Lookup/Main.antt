-- ===== src/Lookup/Main.antt =====
-- `main` of rust/lookup/src/main.rs: the parts of the program one after the other.
pub mod Generated
pub mod Allocate
pub mod Prepare
pub mod EndToEnd
use wasm_shared_buffers.Base.{
  ℕ, zero, suc, ◌+◌, ◌-◌, ◌*◌, ◌/◌, ◌%◌, ◌^◌, ◌≤◌, ◌<◌, ◌≡◌, refl, sym, ap, ◌∙◌, ◌≢◌, ◌↔◌, ◌⊎◌, inl,
  inr, Bool, true, false, not, ◌&&◌, ◌||◌, Option, none, some, List, [], ◌∷◌, ◌++◌, arith, ltb, leb,
  ◌==◌, if◌then◌else◌, le→leb, lt→ltb, ltb→lt, leb→le, ==_iff, Bool-cases, Option-cases, length,
  get_elem?, get_or, take, drop, replicate, All, Run, ok, panic, overflow, explicit, index,
  assertion, ◌>>=◌, ◌>>◌, check, assert, item, >>=-eq-ok, length-replicate, length-append,
}
use wasm_shared_buffers.Word.{u32_mod}
use wasm_shared_buffers.Memory.{Memory}
use wasm_shared_buffers.Lookup.Entry.{Bytes, KeyValue}
use wasm_shared_buffers.Lookup.Host.{
  Malloc, Mmap, Params, create_lookup, store_test_keys, initialise_wasm,
}
use wasm_shared_buffers.Lookup.Module.{Str}
use wasm_shared_buffers.Lookup.Module.Calls.{
  Allocator, verify_lookups, performance_test_internal, performance_test_external,
}
use wasm_shared_buffers.Lookup.Store.{store_lookup}

-- `mem` is the linear memory of the loaded module, `pairs` are the pairs that `create_lookup`
-- draws, `opened` says whether the memory file could be opened, `missing` is the string of
-- `verify_lookups` in the module's data. `alloc` gives the allocations of the module's calls, from
-- the memory after the initialisation. The result is the memory at the end.
module _ (hash : Bytes → ℕ) (opened : Bool) (malloc : Malloc) (mmap : Mmap)
    (alloc : Memory → Allocator) (base : ℕ) (missing : Str) where
  unfoldable pub run_main : Params → List KeyValue → Memory → Run Memory
  run_main params pairs mem = do
    let created = create_lookup params.test_keys pairs
    shm_file ← store_lookup hash opened params.index_slots created.lookup
    (test_keys_index, mem₁) ← store_test_keys malloc created.test_keys mem
    r ←
        initialise_wasm malloc mmap base params shm_file.file.bytes test_keys_index
          (length created.test_keys % u32_mod) mem₁
    mem₂ ← verify_lookups hash created.lookup (alloc r.memory) missing r.wasm_context r.memory
    performance_test_internal hash created.lookup (alloc r.memory) r.wasm_context mem₂
    performance_test_external hash created.lookup (alloc r.memory) r.wasm_context mem₂
