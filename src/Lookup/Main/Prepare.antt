-- ===== src/Lookup/Main/Prepare.antt =====
-- From the packed keys and the stored table to a module that is ready for its tests.
use wasm_shared_buffers.Base.{
  ℕ, ◌+◌, ◌*◌, ◌%◌, ◌^◌, ◌≤◌, ◌<◌, ◌≡◌, refl, ap, ◌⊎◌, List, [], ◌∷◌, arith, lt→ltb, length, All,
  ok, length-append,
}
use wasm_shared_buffers.Word.{u32_mod}
use wasm_shared_buffers.Memory.{
  Memory, Holds, overlay, overlay-Holds, overlay-Holds_apart, length-overlay,
}
use wasm_shared_buffers.Page.{page_size, u64_mod}
use wasm_shared_buffers.Lookup.Entry.{Bytes, KeyValue}
use wasm_shared_buffers.Lookup.Host.{
  Malloc, Mmap, Params, Initialised, store_test_keys, initialise_wasm,
}
use wasm_shared_buffers.Lookup.Host.CopyKeys.{copy_bytes-overlay}
use wasm_shared_buffers.Lookup.Host.Initialise.{
  IsMmap, paged, initial, initialise_wasm-initial, placement, made-IsMapped, keys-mapped,
}
use wasm_shared_buffers.Lookup.Main.Allocate.{IsAllocator, Differs}
use wasm_shared_buffers.Lookup.Module.{Str, rounds}
use wasm_shared_buffers.Lookup.Module.Calls.{Allocator}
use wasm_shared_buffers.Lookup.Module.Ready.{IsReady, IsApart}
use wasm_shared_buffers.Lookup.Module.TestKeys.{packed_strs, strs_from, strs_from-AllHeld}
use wasm_shared_buffers.Lookup.Store.Append.{length-packed_str}
use wasm_shared_buffers.Lookup.Store.Format.{stored_table, packed_str}

module _ (malloc : Malloc) (mmap : Mmap) (alloc : Memory → Allocator) (base : ℕ) (params : Params)
    (t : List (List KeyValue)) (ks : List Bytes) (mem : Memory) (room slack limit : ℕ)
    (missing : Str) (law : IsAllocator malloc alloc room slack limit) (mapping : IsMmap base mmap)
    (slots : params.index_slots ≡ length t) (count : rounds params.test_keys ≡ length ks)
    (fits : length mem
        + length (packed_strs ks)
        + length (stored_table t)
        + 2 * page_size
        + 2 * slack
      ≤ room)
    (low : room < 2 ^ 31) (based : 0 < base) (addressable : base + room + page_size < u64_mod)
    (used : law.InUse mem missing.ptr (length missing.bytes))
    (held : Holds mem missing.ptr missing.bytes) where
  abbrev n : ℕ
  n = length (packed_strs ks) % u32_mod

  n_plain : n ≡ length (packed_strs ks)
  n_plain = omega arith

  abbrev keys_index : ℕ
  keys_index = (malloc n mem).0

  abbrev mem₁ : Memory
  mem₁ = (malloc n mem).1

  abbrev mem₂ : Memory
  mem₂ = overlay mem₁ keys_index (packed_strs ks)

  first_fits : length mem + n + slack ≤ room
  first_fits = omega (arith, n_plain)

  keys_inside : keys_index + length (packed_strs ks) ≤ length mem₁
  keys_inside = omega (arith, n_plain, law.inside n mem first_fits)

  mem₁-bound : length mem₁ ≤ length mem + length (packed_strs ks) + slack
  mem₁-bound = omega (arith, n_plain, law.grows n mem first_fits)

  stored_keys : store_test_keys malloc (packed_strs ks) mem ≡ ok (keys_index, mem₂)
  unfolding store_test_keys
  stored_keys = rw (
    lt→ltb keys_index (2 ^ 31) (omega (arith, keys_inside, mem₁-bound)),
    copy_bytes-overlay mem₁ keys_index (packed_strs ks) keys_inside,
  )

  keys-Differs : Differs mem₁ mem₂ keys_index n
  keys-Differs = record {
    size = length-overlay mem₁ keys_index (packed_strs ks);
    keeps = λ p cs apart.
        overlay-Holds_apart mem₁ keys_index p (packed_strs ks) cs (omega (arith, n_plain));
  }

  missing-apart : (missing.ptr + length missing.bytes ≤ keys_index) ⊎ (keys_index + n ≤ missing.ptr)
  missing-apart = law.apart n mem missing.ptr (length missing.bytes) first_fits used

  missing₂ : Holds mem₂ missing.ptr missing.bytes
  missing₂ =
      keys-Differs.keeps missing.ptr missing.bytes missing-apart
        (law.keeps n mem missing.ptr missing.bytes first_fits used held)

  missing_used₂ : law.InUse mem₂ missing.ptr (length missing.bytes)
  missing_used₂ =
      law.written mem₁ mem₂ keys_index n missing.ptr (length missing.bytes)
        (law.gives n mem first_fits) keys-Differs
        (law.keeps_use n mem missing.ptr (length missing.bytes) first_fits used)

  keys_used₂ : law.InUse mem₂ keys_index (length (packed_strs ks))
  keys_used₂ =
      law.part mem₂ keys_index n keys_index (length (packed_strs ks))
        (law.written mem₁ mem₂ keys_index n keys_index n (law.gives n mem first_fits) keys-Differs
          (law.gives n mem first_fits))
        (omega arith) (omega (arith, n_plain))

  abbrev k : ℕ
  k = (length (stored_table t) + 2 * page_size) % u32_mod

  k_plain : k ≡ length (stored_table t) + 2 * page_size
  k_plain = omega arith

  second_fits : length mem₂ + k + slack ≤ room
  second_fits = omega (arith, k_plain, keys-Differs.size, mem₁-bound)

  abbrev i : ℕ
  i = (malloc k mem₂).0

  abbrev mem₃ : Memory
  mem₃ = (malloc k mem₂).1

  inside₃ : i + (length (stored_table t) + 2 * page_size) ≤ length mem₃
  inside₃ = omega (arith, k_plain, law.inside k mem₂ second_fits)

  mem₃-bound : length mem₃ ≤ room
  mem₃-bound = omega (arith, law.grows k mem₂ second_fits, second_fits)

  keys₃ : Holds mem₃ keys_index (packed_strs ks)
  keys₃ =
      law.keeps k mem₂ keys_index (packed_strs ks) second_fits keys_used₂
        (overlay-Holds mem₁ keys_index (packed_strs ks) keys_inside)

  keys-apart :
      (keys_index + length (packed_strs ks) ≤ i)
      ⊎ (i + (length (stored_table t) + 2 * page_size) ≤ keys_index)
  keys-apart =
      let a = law.apart k mem₂ keys_index (length (packed_strs ks)) second_fits keys_used₂ in
      omega (arith, k_plain)

  low₃ : length mem₃ < 2 ^ 31
  low₃ = omega (arith, mem₃-bound)

  addressable₃ : base + length mem₃ + page_size < u64_mod
  addressable₃ = omega (arith, mem₃-bound)

  abbrev ready : Initialised
  ready =
      initial malloc mmap base params t ks keys_index mem₂ mem₃ i mapping slots refl inside₃ low₃
        based addressable₃ keys₃ keys-apart

  prepared :
      initialise_wasm malloc mmap base params
        (stored_table t)
        keys_index
        (length (packed_strs ks))
        mem₂
      ≡ ok ready
  prepared =
      initialise_wasm-initial malloc mmap base params t ks keys_index mem₂ mem₃ i mapping slots refl
        inside₃ low₃ based addressable₃ keys₃ keys-apart count

  file_within :
      (i ≤ ready.wasm_context.index)
      × (ready.wasm_context.index + paged (length (stored_table t)) ≤ i + k)
  file_within =
      let (_, _, lo, within) =
        placement malloc mmap base params t ks keys_index mem₂ mem₃ i mapping slots refl inside₃
          low₃ based addressable₃ keys₃ keys-apart in
      (lo, omega (arith, k_plain))

  mmap-Differs : Differs mem₃ ready.memory i k
  mmap-Differs =
      let (_, round, lo, within) =
        placement malloc mmap base params t ks keys_index mem₂ mem₃ i mapping slots refl inside₃
          low₃ based addressable₃ keys₃ keys-apart in
      let index = ready.wasm_context.index in
      let fit : index + paged (length (stored_table t)) ≤ length mem₃ = omega (arith, inside₃) in
      record {
        size = mapping.size index (stored_table t) mem₃ round fit;
        keeps = λ p cs apart.
            mapping.keeps index (stored_table t) mem₃ p cs round fit (omega (arith, k_plain));
      }

  -- What is in use before the mapping is in use after it.
  still_used : (q c : ℕ) → law.InUse mem₂ q c → law.InUse ready.memory q c
  still_used q c u =
      law.written mem₃ ready.memory i k q c (law.gives k mem₂ second_fits) mmap-Differs
        (law.keeps_use k mem₂ q c second_fits u)

  strs_from-InUse :
      (p c : ℕ) (keys : List Bytes)
      → law.InUse ready.memory p c
      → (q : ℕ) → p ≤ q
      → q + length (packed_strs keys) ≤ p + c
      → All (λ s. law.InUse ready.memory s.ptr (length s.bytes)) (strs_from q keys)
  unfolding packed_strs strs_from
  strs_from-InUse p c [] u q h fit = tt
  strs_from-InUse p c (key ∷ keys) u q h fit =
      let size = length-append (packed_str key) (packed_strs keys) in
      (
        law.part ready.memory p c (q + 4) (length key) u (omega arith)
            (omega (arith, size, length-packed_str key)),
        strs_from-InUse p c keys u (q + (4 + length key)) (omega arith)
            (omega (arith, size, length-packed_str key)),
      )

  abbrev strs : List Str
  strs = missing ∷ strs_from keys_index ks

  prepared-IsApart :
      IsApart
        (alloc ready.memory)
        (length ready.memory)
        limit
        ready.wasm_context.index
        (length (stored_table t))
        strs
  prepared-IsApart =
      let (lo, within) = file_within in
      law.calls ready.memory ready.wasm_context.index (length (stored_table t)) strs
        (law.part ready.memory i k ready.wasm_context.index (length (stored_table t))
          (law.written mem₃ ready.memory i k i k (law.gives k mem₂ second_fits) mmap-Differs
            (law.gives k mem₂ second_fits))
          lo (omega arith))
        (
          still_used missing.ptr (length missing.bytes) missing_used₂,
          strs_from-InUse keys_index (length (packed_strs ks)) ks
              (still_used keys_index (length (packed_strs ks)) keys_used₂) keys_index (omega arith)
              (omega arith),
        )

  missing-Holds : Holds ready.memory missing.ptr missing.bytes
  missing-Holds =
      let a = law.apart k mem₂ missing.ptr (length missing.bytes) second_fits missing_used₂ in
      mmap-Differs.keeps missing.ptr missing.bytes a
        (law.keeps k mem₂ missing.ptr missing.bytes second_fits missing_used₂ missing₂)

  prepared-IsReady : IsReady ready.memory (length ready.memory) ready.wasm_context t strs
  prepared-IsReady =
      let keys =
        keys-mapped malloc mmap base params t ks keys_index mem₂ mem₃ i mapping slots refl inside₃
          low₃ based addressable₃ keys₃ keys-apart in
      record {
        size_kept = refl;
        mapped =
            made-IsMapped malloc mmap base params t ks keys_index mem₂ mem₃ i mapping slots refl
              inside₃ low₃ based addressable₃ keys₃ keys-apart;
        strs_held = (missing-Holds, strs_from-AllHeld ready.memory keys_index ks keys);
      }

  -- The keys are stored, the table is mapped, and the module is ready for its tests.
  pub prepare :
      (i₁ : ℕ) × (m : Memory) × (r : Initialised) × (store_test_keys malloc (packed_strs ks) mem
        ≡ ok (i₁, m))
      × (initialise_wasm malloc mmap base params (stored_table t) i₁ (length (packed_strs ks)) m
          ≡ ok r)
      × IsReady r.memory (length r.memory) r.wasm_context t (missing ∷ strs_from i₁ ks)
      × IsApart
          (alloc r.memory)
          (length r.memory)
          limit
          r.wasm_context.index
          (length (stored_table t))
          (missing ∷ strs_from i₁ ks)
      × (r.wasm_context.test_keys ≡ strs_from i₁ ks)
      × (r.wasm_context.default_msg_bytes ≡ params.default_msg_bytes)
  prepare =
      let at : keys_index + 0 ≡ keys_index = omega arith in
      (
        keys_index,
        mem₂,
        ready,
        stored_keys,
        prepared,
        prepared-IsReady,
        prepared-IsApart,
        ap (λ p. strs_from p ks) at,
        refl,
      )
