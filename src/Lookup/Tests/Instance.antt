-- ===== src/Lookup/Tests/Instance.antt =====
-- An instance whose state is its memory, and the copy of the test keys through it.
use wasm_shared_buffers.Base.{
  ℕ, ◌≡◌, refl, some, [], ◌∷◌, ok, replicate, length, length-replicate, arith,
}
use wasm_shared_buffers.Memory.{Memory, Holds}
use wasm_shared_buffers.Lookup.Host.{Malloc}
use wasm_shared_buffers.Lookup.Host.Instance.{
  i32, memory_export, ModuleInstance, IsInstance, store_keys, store_keys-Holds,
}

abbrev malloc_three : Malloc
malloc_three n mem = (3, replicate 20 0)

abbrev plain : ModuleInstance Memory
plain = record {
  export_by_name = λ name m. some (memory_export m);
  invoke_export = λ name args lookup memory m. some (some (i32 3), replicate 20 0);
  write_memory = λ new m. new;
}

plain-IsInstance : IsInstance plain (λ m. m) malloc_three
plain-IsInstance = record {
  exports = λ m. refl;
  allocates = λ n lookup m. (replicate 20 0, refl, refl);
  writes = λ new m. refl;
}

store_keys-Holds_example :
    (m : Memory) × (store_keys plain [] (b'a' ∷ b'b' ∷ []) [] ≡ ok (3, m))
    × Holds m 3 (b'a' ∷ b'b' ∷ [])
    × (length m ≡ length (replicate {A = ℕ} 20 0))
store_keys-Holds_example =
    store_keys-Holds plain (λ m. m) malloc_three plain-IsInstance [] (b'a' ∷ b'b' ∷ []) []
      (replicate 20 0) 3 refl (omega arith) (omega (arith, length-replicate {A = ℕ} 20 0))
