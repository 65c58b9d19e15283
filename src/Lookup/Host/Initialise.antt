-- ===== src/Lookup/Host/Initialise.antt =====
-- `initialise_wasm` maps the stored table into the module's memory and makes the module's context.
use wasm_shared_buffers.Base.{
  ℕ, ◌+◌, ◌-◌, ◌*◌, ◌/◌, ◌%◌, ◌^◌, ◌≡◌, ◌≤◌, ◌<◌, ◌⊎◌, refl, ap, ◌∙◌, true, List, ok, panic,
  assertion, ◌>>=◌, length, ltb, lt→ltb, ◌==◌, ==_iff, arith,
}
use wasm_shared_buffers.Word.{u32_mod}
use wasm_shared_buffers.Memory.{Memory, Holds}
use wasm_shared_buffers.Page.{page_size, page_align, page_align_lem, u64_mod}
use wasm_shared_buffers.Lookup.Entry.{Bytes, KeyValue}
use wasm_shared_buffers.Lookup.Host.{Malloc, Mmap, Params, Initialised, initialise_wasm}
use wasm_shared_buffers.Lookup.Module.{Context, rounds, create_context}
use wasm_shared_buffers.Lookup.Module.Internal.{IsMapped}
use wasm_shared_buffers.Lookup.Module.TestKeys.{
  packed_strs, strs_from, AllHeld, strs_from-AllHeld, read_keys-Ahead, read_keys_short,
}
use wasm_shared_buffers.Lookup.Reader.{Reader}
use wasm_shared_buffers.Lookup.Reader.Strings.{Ahead}
use wasm_shared_buffers.Lookup.Store.Format.{stored_table, packed_chains}
use wasm_shared_buffers.Lookup.Store.Locate.{length-stored_table}

-- The bytes of whole pages that a mapping of `n` bytes takes.
abbrev pub paged : ℕ → ℕ
paged n = (n + (page_size - 1)) / page_size * page_size

-- What the host relies on of `mmap` with `MAP_FIXED`, at page boundaries inside the linear memory
-- at `base`: it returns the address, puts the file's bytes there, and leaves other pages alone.
pub record IsMmap (base : ℕ) (mmap : Mmap) : Type 0 where
  pub returns :
      (i : ℕ) (bs : Bytes) (m : Memory)
      → (base + i) % page_size ≡ 0
      → i + paged (length bs) ≤ length m
      → (mmap (base + i) bs m).0 ≡ base + i
  pub maps :
      (i : ℕ) (bs : Bytes) (m : Memory)
      → (base + i) % page_size ≡ 0
      → i + paged (length bs) ≤ length m
      → Holds (mmap (base + i) bs m).1 i bs
  pub size :
      (i : ℕ) (bs : Bytes) (m : Memory)
      → (base + i) % page_size ≡ 0
      → i + paged (length bs) ≤ length m
      → length (mmap (base + i) bs m).1 ≡ length m
  pub keeps :
      (i : ℕ) (bs : Bytes) (m : Memory) (q : ℕ) (cs : Bytes)
      → (base + i) % page_size ≡ 0
      → i + paged (length bs) ≤ length m
      → (q + length cs ≤ i) ⊎ (i + paged (length bs) ≤ q)
      → Holds m q cs
      → Holds (mmap (base + i) bs m).1 q cs

-- Inside an allocation of the file's size and two pages, a mapping that begins at the next page
-- boundary takes whole pages of that allocation only.
pub page_align-within :
    (ptr n : ℕ)
    → 0 < ptr
    → ptr + page_size < u64_mod
    → (ptr ≤ page_align ptr) × (page_align ptr + paged n ≤ ptr + (n + 2 * page_size))
page_align-within ptr n pos small =
    let (_, lo, hi) = page_align_lem ptr pos small in (lo, omega arith)

-- Where the file begins in the linear memory.
abbrev pub aligned_index : ℕ → ℕ → ℕ
aligned_index base i = page_align (base + i) - base

module _ (malloc : Malloc) (mmap : Mmap) (base : ℕ) (params : Params) (t : List (List KeyValue))
    (ks : List Bytes) (keys_index : ℕ) (mem mem₁ : Memory) (i : ℕ) (mapping : IsMmap base mmap)
    (slots : params.index_slots ≡ length t)
    (allocated : malloc ((length (stored_table t) + 2 * page_size) % u32_mod) mem ≡ (i, mem₁))
    (inside : i + (length (stored_table t) + 2 * page_size) ≤ length mem₁)
    (low : length mem₁ < 2 ^ 31) (based : 0 < base)
    (addressable : base + length mem₁ + page_size < u64_mod)
    (keys_held : Holds mem₁ keys_index (packed_strs ks))
    (keys_apart : (keys_index + length (packed_strs ks) ≤ i)
      ⊎ (i + (length (stored_table t) + 2 * page_size) ≤ keys_index)) where
  abbrev pub file : Bytes
  file = stored_table t

  abbrev pub index : ℕ
  index = aligned_index base i

  pub placement :
      (base + index ≡ page_align (base + i))
      × ((base + index) % page_size ≡ 0)
      × (i ≤ index)
      × (index + paged (length file) ≤ i + (length file + 2 * page_size))
  placement =
      let (round, lo, hi) = page_align_lem (base + i) (omega arith) (omega arith) in
      let (_, within) =
        page_align-within (base + i) (length (stored_table t)) (omega arith) (omega arith) in
      let e : base + (page_align (base + i) - base) ≡ page_align (base + i) = omega arith in
      (e, rw e round, omega arith, omega arith)

  abbrev pub mapped : Memory
  mapped = (mmap (base + index) file mem₁).1

  pub here : index + paged (length file) ≤ length mem₁
  here = let (_, _, _, within) = placement in omega arith

  pub keys-mapped : Holds mapped keys_index (packed_strs ks)
  keys-mapped =
      let (_, round, lo, within) = placement in
      mapping.keeps index (stored_table t) mem₁ keys_index (packed_strs ks) round here (omega arith)
        keys_held

  abbrev pub keys_reader : Reader
  keys_reader = record { buffer = keys_index; size = length (packed_strs ks); offset = 0 }

  keys-Ahead : Ahead mapped keys_reader (packed_strs ks)
  keys-Ahead =
      let at : keys_index + 0 ≡ keys_index = omega arith in
      record {
        held = rw at keys-mapped;
        inside = omega arith;
        bounded = omega (arith, keys_held.fits);
        below = omega (arith, keys_held.fits);
      }

  abbrev pub made : Context
  made = record {
    index = index;
    index_len = params.index_slots % u32_mod;
    lookup = index + params.index_slots % u32_mod * 4 % u32_mod;
    lookup_bytes = (length file + u64_mod - params.index_slots * 4) % u64_mod % u32_mod;
    test_keys = strs_from (keys_index + 0) ks;
    default_msg_bytes = params.default_msg_bytes;
  }

  sizes : length file ≡ length t * 4 + 1 + length (packed_chains t)
  sizes = length-stored_table t

  pub made-IsMapped : IsMapped mapped made t
  made-IsMapped =
      let (_, round, lo, within) = placement in
      record {
        held = mapping.maps index (stored_table t) mem₁ round here;
        index_len = omega (arith, sizes);
        lookup = omega (arith, sizes);
        lookup_bytes = omega (arith, sizes);
        below = omega (arith, sizes);
      }

  -- The steps up to the call of `create_context`, whose result decides.
  started :
      (test_keys_bytes : ℕ)
      → initialise_wasm malloc mmap base params file keys_index test_keys_bytes mem ≡ (
          create_context mapped index
            (params.index_slots % u32_mod)
            ((length file + u64_mod - params.index_slots * 4) % u64_mod % u32_mod)
            params.test_keys
            keys_index
            test_keys_bytes
            params.default_msg_bytes
          >>= λ ctx. ok (record {
            buffer = base + index;
            buffer_size = length file;
            wasm_context = ctx;
            memory = mapped;
          }))
  unfolding initialise_wasm
  started test_keys_bytes =
      let (at, round, lo, within) = placement in
      let positive : ltb i (2 ^ 31) ≡ true = lt→ltb i (2 ^ 31) (omega arith) in
      let pointer : (base + i) % u64_mod ≡ base + i = omega arith in
      let same : (base + index == base + index) ≡ true = (==_iff _ _).1 refl in
      let from_base : (base + index + u64_mod - base) % u64_mod % u32_mod ≡ index = omega arith in
      let back : base + index - base ≡ index = omega arith in
      rw
        (
          allocated,
          positive,
          pointer,
          ← at,
          mapping.returns index file mem₁ round here,
          same,
          from_base,
        )
        (rw back)

  abbrev pub initial : Initialised
  initial = record {
    buffer = base + index;
    buffer_size = length file;
    wasm_context = made;
    memory = mapped;
  }

  pub initialise_wasm-initial :
      rounds params.test_keys ≡ length ks
      → initialise_wasm malloc mmap base params
          (stored_table t)
          keys_index
          (length (packed_strs ks))
          mem
        ≡ ok initial
  unfolding create_context
  initialise_wasm-initial count =
      started (length (packed_strs ks))
      ∙ rw (count, read_keys-Ahead mapped ks keys_reader keys-Ahead)

  -- With as many packed keys as the parameter says, in the memory and apart from the allocated block, an
  -- allocation of the file's size and two pages that fits below 2^31, an `mmap` that behaves as
  -- documented, and as many index slots as the table: `initialise_wasm` succeeds. The module's context
  -- maps the stored table at a page boundary and has the keys, which stand in the memory.
  pub initialise_wasm-IsMapped :
      rounds params.test_keys ≡ length ks
      → (r : Initialised) × (initialise_wasm malloc mmap base params
            (stored_table t)
            keys_index
            (length (packed_strs ks))
            mem
          ≡ ok r)
        × IsMapped r.memory r.wasm_context t
        × (r.wasm_context.test_keys ≡ strs_from keys_index ks)
        × AllHeld r.memory (strs_from keys_index ks)
        × (r.buffer % page_size ≡ 0)
  initialise_wasm-IsMapped count =
      let (_, round, lo, within) = placement in
      let at : keys_index + 0 ≡ keys_index = omega arith in
      (
        initial,
        initialise_wasm-initial count,
        made-IsMapped,
        ap (λ p. strs_from p ks) at,
        strs_from-AllHeld mapped keys_index ks keys-mapped,
        round,
      )

  -- With fewer keys than the parameter says, the module's reader runs off the end of the keys and
  -- panics, whatever the map is.
  pub initialise_wasm_short :
      length ks < rounds params.test_keys
      → initialise_wasm malloc mmap base params
          (stored_table t)
          keys_index
          (length (packed_strs ks))
          mem
        ≡ panic assertion
  unfolding create_context
  initialise_wasm_short fewer =
      started (length (packed_strs ks))
      ∙ rw (
          read_keys_short mapped ks keys_reader (rounds params.test_keys) keys-Ahead (omega arith)
            (omega (arith, keys_held.fits)) fewer)
