-- ===== src/Lookup/Main/EndToEnd.antt =====
-- The whole of `main` of rust/lookup/src/main.rs succeeds.
use Prim.Native.Nat.{◌∣◌}
use wasm_shared_buffers.Base.{
  ℕ, zero, suc, ◌+◌, ◌*◌, ◌%◌, ◌^◌, ◌≤◌, ◌<◌, ◌≡◌, refl, sym, ap, inl, inr, true, some, List, [],
  ◌∷◌, arith, length, All, ok,
}
use wasm_shared_buffers.Word.{u32_mod}
use wasm_shared_buffers.Memory.{Memory, Holds}
use wasm_shared_buffers.Page.{page_size, u64_mod}
use wasm_shared_buffers.Lookup.Entry.{Bytes, KeyValue, find}
use wasm_shared_buffers.Lookup.Host.{
  Malloc, Mmap, Params, Created, Initialised, create_lookup, store_test_keys, initialise_wasm,
}
use wasm_shared_buffers.Lookup.Host.Create.{first_keys, create_lookup_lem, test_keys-found}
use wasm_shared_buffers.Lookup.Host.Initialise.{IsMmap}
use wasm_shared_buffers.Lookup.Main.{run_main}
use wasm_shared_buffers.Lookup.Main.Allocate.{IsAllocator}
use wasm_shared_buffers.Lookup.Main.Generated.{
  IsGenerated, IsGenerated-short, first_keys-utf8, values-short, missing_key, missing_key-utf8,
  find-missing_key,
}
use wasm_shared_buffers.Lookup.Main.Prepare.{prepare}
use wasm_shared_buffers.Lookup.Module.{Str, rounds}
use wasm_shared_buffers.Lookup.Module.Calls.{
  Allocator, verify_lookups, performance_test_internal, performance_test_external,
}
use wasm_shared_buffers.Lookup.Module.Ready.{IsStored, Among}
use wasm_shared_buffers.Lookup.Module.TestKeys.{packed_strs, strs_from}
use wasm_shared_buffers.Lookup.Module.Verify.{verify_lookups-IsReady, performance_tests-ok}
use wasm_shared_buffers.Lookup.Store.{Packer, store_lookup}
use wasm_shared_buffers.Lookup.Store.Fill.{room_all}
use wasm_shared_buffers.Lookup.Store.Format.{stored_table}
use wasm_shared_buffers.Lookup.Store.Locate.{length-stored_table}
use wasm_shared_buffers.Lookup.Store.Result.{store_lookup-sized}
use wasm_shared_buffers.Lookup.Utf8.{is_utf8}

length-first_keys : (n : ℕ) (es : List KeyValue) → n ≤ length es → length (first_keys n es) ≡ n
length-first_keys zero [] h = refl
length-first_keys (suc n) [] h = absurd (omega arith)
length-first_keys zero (e ∷ es) h = refl
length-first_keys (suc n) (e ∷ es) h = ap suc (length-first_keys n es (omega arith))

All-Among_within :
    (xs ys : List Str) → ((s : Str) → Among s xs → Among s ys) → All (λ s. Among s ys) xs
All-Among_within [] ys f = tt
All-Among_within (x ∷ xs) ys f = (f x (inl refl), All-Among_within xs ys (λ s m. f s (inr m)))

strs_from-IsStored :
    (es : List KeyValue) (strs : List Str) (q : ℕ) (ks : List Bytes)
    → All (λ k. is_utf8 k ≡ true) ks
    → All (λ k. (v : Bytes) × (find k es ≡ some v)) ks
    → All (λ s. Among s strs) (strs_from q ks)
    → All (IsStored es strs) (strs_from q ks)
unfolding strs_from
strs_from-IsStored es strs q [] us fs as' = tt
strs_from-IsStored es strs q (k ∷ ks) (u, us) ((v, f), fs) (a, as') = (
  record { among = a; utf8 = u; value = v; found = f },
  strs_from-IsStored es strs (q + (4 + length k)) ks us fs as',
)

-- The steps of `main` that succeed make a run that does.
module _ (hash : Bytes → ℕ) (malloc : Malloc) (mmap : Mmap) (alloc : Memory → Allocator) (base : ℕ)
    (missing : Str) (params : Params) (pairs : List KeyValue) where
  abbrev created : Created
  created = create_lookup params.test_keys pairs

  run_main_steps :
      (mem m₁ m₂ m₃ : Memory) (keys file : Bytes) (s : Packer) (i₁ : ℕ) (r : Initialised)
      → created.test_keys ≡ keys
      → length keys % u32_mod ≡ length keys
      → store_lookup hash true params.index_slots created.lookup ≡ ok s
      → s.file.bytes ≡ file
      → store_test_keys malloc keys mem ≡ ok (i₁, m₁)
      → initialise_wasm malloc mmap base params file i₁ (length keys) m₁ ≡ ok r
      → verify_lookups hash created.lookup (alloc r.memory) missing r.wasm_context r.memory ≡ ok m₂
      → performance_test_internal hash created.lookup (alloc r.memory) r.wasm_context m₂ ≡ ok tt
      → performance_test_external hash created.lookup (alloc r.memory) r.wasm_context m₂ ≡ ok m₃
      → run_main hash true malloc mmap alloc base missing params pairs mem ≡ ok m₃
  unfolding run_main
  run_main_steps mem m₁ m₂ m₃ keys file s i₁ r packed cast stored bytes copied mapped verified
        internal external =
      rw (packed, stored, copied, bytes, cast, mapped, verified, internal) external

-- `main` runs to its end. All pairs are as they are drawn, there are enough of them for the test
-- keys, and the number of slots is a positive divisor of 2^32; the table and the keys fit in the
-- memory that the module can allocate; the missing key of the module stands in its memory and is
-- in use; the message size and all values are within the limit of the module's allocations.
pub run_main-ok :
    (hash : Bytes → ℕ) (malloc : Malloc) (mmap : Mmap) (alloc : Memory → Allocator) (base : ℕ)
    (missing : Str) (params : Params) (pairs : List KeyValue) (mem : Memory) (room slack limit : ℕ)
    (law : IsAllocator malloc alloc room slack limit)
    → IsMmap base mmap
    → All IsGenerated pairs
    → 0 < params.index_slots
    → params.index_slots ∣ u32_mod
    → rounds params.test_keys ≤ length pairs
    → length mem
        + length (create_lookup params.test_keys pairs).test_keys
        + (params.index_slots * 4 + 1 + room_all (create_lookup params.test_keys pairs).lookup)
        + 2 * page_size
        + 2 * slack
      ≤ room
    → room < 2 ^ 31
    → 0 < base
    → base + room + page_size < u64_mod
    → missing.bytes ≡ missing_key
    → law.InUse mem missing.ptr (length missing.bytes)
    → Holds mem missing.ptr missing.bytes
    → params.default_msg_bytes ≤ limit
    → 200 ≤ limit
    → limit < u32_mod
    → (m : Memory) × (run_main hash true malloc mmap alloc base missing params pairs mem ≡ ok m)
run_main-ok hash malloc mmap alloc base missing params pairs mem room slack limit law mapping
      generated pos divides enough fits low based addressable is_missing used held default values
      small =
    let w = params.test_keys in
    let es = (create_lookup w pairs).lookup in
    let ks = first_keys (rounds w) pairs in
    let (distinct, _, packed) = create_lookup_lem w pairs (IsGenerated-short pairs generated) in
    let (s, t, stored, bytes, table, chains) =
      store_lookup-sized hash params.index_slots es pos (omega arith) in
    let size = length-stored_table t in
    let count = length-first_keys (rounds w) pairs enough in
    let same : length (create_lookup w pairs).test_keys ≡ length (packed_strs ks) =
      ap length packed in
    let (i₁, m₁, r, copied, mapped, ready, apart, keys, msg) =
      prepare malloc mmap alloc base params t ks mem room slack limit missing law mapping
        (sym table.width) (sym count) (omega (arith, size, table.width)) low based addressable used
        held in
    let strs = missing ∷ strs_from i₁ ks in
    let stored_keys : All (IsStored es strs) r.wasm_context.test_keys = rw keys (
      strs_from-IsStored es strs i₁ ks (first_keys-utf8 (rounds w) pairs generated)
        (test_keys-found w pairs) (All-Among_within (strs_from i₁ ks) strs (λ s m. inr m))) in
    let default' : r.wasm_context.default_msg_bytes ≤ limit = rw msg default in
    let short : (k v : Bytes) → find k es ≡ some v → length v ≤ limit =
      λ k v e. (let le = values-short w pairs k v generated e in omega (arith, le)) in
    let (m₂, verified, ready₂) =
      verify_lookups-IsReady hash params.index_slots es t (alloc r.memory) (length r.memory) limit
        r.wasm_context strs pos divides distinct table apart small default' short missing r.memory
        (inl refl) (rw is_missing missing_key-utf8)
        (rw is_missing (find-missing_key w pairs generated)) stored_keys ready in
    let (internal, (m₃, external, ready₃)) =
      performance_tests-ok hash params.index_slots es t (alloc r.memory) (length r.memory) limit
        r.wasm_context strs pos divides distinct table apart small default' short m₂ stored_keys
        ready₂ in
    let cast : length (packed_strs ks) % u32_mod ≡ length (packed_strs ks) = omega (arith, same) in
    (
      m₃,
      run_main_steps hash malloc mmap alloc base missing params pairs mem m₁ m₂ m₃ (packed_strs ks)
          (stored_table t) s i₁ r packed cast stored bytes copied mapped verified internal external,
    )
