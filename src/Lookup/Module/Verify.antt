-- ===== src/Lookup/Module/Verify.antt =====
-- The exported tests of the module succeed on a mapped table.
use Prim.Native.Nat.{◌∣◌}
use wasm_shared_buffers.Base.{
  ℕ, ◌≡◌, ◌≤◌, ◌<◌, refl, true, none, some, List, [], ◌∷◌, ok, length, take, All,
}
use wasm_shared_buffers.Word.{u32_mod}
use wasm_shared_buffers.Memory.{Memory}
use wasm_shared_buffers.Lookup.Entry.{Bytes, KeyValue, find, Distinct}
use wasm_shared_buffers.Lookup.Module.{Context, Str}
use wasm_shared_buffers.Lookup.Module.Calls.{
  Allocator, verify_keys, verify_lookups, test_internal, performance_test_internal, test_external,
  performance_test_external,
}
use wasm_shared_buffers.Lookup.Store.Format.{stored_table}
use wasm_shared_buffers.Lookup.Store.Result.{IsTable}
use wasm_shared_buffers.Lookup.Utf8.{is_utf8}
use wasm_shared_buffers.Lookup.Module.Ready.{
  IsApart, IsReady, IsStored, Among, All-take, eq_bytes_refl, call_ext-IsReady, call_int,
}

module _ (hash : Bytes → ℕ) (slots : ℕ) (es : List KeyValue) (t : List (List KeyValue))
    (alloc : Allocator) (size limit : ℕ) (ctx : Context) (strs : List Str) (pos : 0 < slots)
    (divides : slots ∣ u32_mod) (distinct : Distinct es) (table : IsTable hash slots es t)
    (apart : IsApart alloc size limit ctx.index (length (stored_table t)) strs)
    (small : limit < u32_mod) (default : ctx.default_msg_bytes ≤ limit)
    (values : (k v : Bytes) → find k es ≡ some v → length v ≤ limit) where
  verify_keys-IsReady :
      (ks : List Str) (mem : Memory)
      → All (IsStored es strs) ks
      → IsReady mem size ctx t strs
      → (m : Memory) × (verify_keys hash es alloc ctx ks mem ≡ ok m) × IsReady m size ctx t strs
  unfolding verify_keys
  verify_keys-IsReady [] mem all ready = (mem, refl, ready)
  verify_keys-IsReady (k ∷ ks) mem (s, all) ready =
      let (m, run, ready') =
        call_ext-IsReady hash slots es t alloc size limit ctx strs pos divides distinct table apart
          small default values mem k ready s.among s.utf8 in
      let (m', run', ready'') = verify_keys-IsReady ks m all ready' in
      let int =
        call_int hash slots es t alloc size limit ctx strs pos divides distinct table apart small
          default values mem k.bytes ready in
      (m', rw (int, run, s.found, eq_bytes_refl s.value) run', ready'')

  test_external-IsReady :
      (ks : List Str) (mem : Memory)
      → All (IsStored es strs) ks
      → IsReady mem size ctx t strs
      → (m : Memory) × (test_external hash es alloc ctx ks mem ≡ ok m) × IsReady m size ctx t strs
  unfolding test_external
  test_external-IsReady [] mem all ready = (mem, refl, ready)
  test_external-IsReady (k ∷ ks) mem (s, all) ready =
      let (m, run, ready') =
        call_ext-IsReady hash slots es t alloc size limit ctx strs pos divides distinct table apart
          small default values mem k ready s.among s.utf8 in
      let (m', run', ready'') = test_external-IsReady ks m all ready' in
      (m', rw (run, s.found) run', ready'')

  test_internal-ok :
      (ks : List Str) (mem : Memory)
      → All (IsStored es strs) ks
      → IsReady mem size ctx t strs
      → test_internal hash es alloc ctx ks mem ≡ ok tt
  unfolding test_internal
  test_internal-ok [] mem all ready = refl
  test_internal-ok (k ∷ ks) mem (s, all) ready =
      let int =
        call_int hash slots es t alloc size limit ctx strs pos divides distinct table apart small
          default values mem k.bytes ready in
      rw (int, s.found) (test_internal-ok ks mem all ready)

  -- On a mapped table whose number of slots, at least one, divides 2^32, with distinct keys, and an
  -- allocator whose blocks, for the default buffer size and for the lengths of the values, lie in
  -- the memory and apart from the table and the strings: if all test keys are UTF-8 and keys of the
  -- map, and `missing` is none, `verify_lookups` returns normally, and leaves a state in which the
  -- tests can be run again.
  pub verify_lookups-IsReady :
      (missing : Str) (mem : Memory)
      → Among missing strs
      → is_utf8 missing.bytes ≡ true
      → find missing.bytes es ≡ none
      → All (IsStored es strs) ctx.test_keys
      → IsReady mem size ctx t strs
      → (m : Memory) × (verify_lookups hash es alloc missing ctx mem ≡ ok m)
        × IsReady m size ctx t strs
  unfolding verify_lookups
  verify_lookups-IsReady missing mem among utf8 absent all ready =
      let first = All-take (IsStored es strs) 10 ctx.test_keys all in
      let (m, run, ready') = verify_keys-IsReady (take 10 ctx.test_keys) mem first ready in
      let int =
        call_int hash slots es t alloc size limit ctx strs pos divides distinct table apart small
          default values m missing.bytes ready' in
      let (m', run', ready'') =
        call_ext-IsReady hash slots es t alloc size limit ctx strs pos divides distinct table apart
          small default values m missing ready' among utf8 in
      (m', rw (run, int, absent, run', absent), ready'')

  -- On a mapped table, if all test keys are keys of the map, both performance tests return normally,
  -- and leave a state in which the tests can be run again.
  pub performance_tests-ok :
      (mem : Memory)
      → All (IsStored es strs) ctx.test_keys
      → IsReady mem size ctx t strs
      → (performance_test_internal hash es alloc ctx mem ≡ ok tt)
        × ((m : Memory) × (performance_test_external hash es alloc ctx mem ≡ ok m)
            × IsReady m size ctx t strs)
  unfolding performance_test_internal performance_test_external
  performance_tests-ok mem all ready = (
    test_internal-ok ctx.test_keys mem all ready,
    test_external-IsReady ctx.test_keys mem all ready,
  )
