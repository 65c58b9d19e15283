-- ===== src/Lookup/Tests/Whole.antt =====
-- `main` at concrete values: an allocator that appends to the memory, and one pair.
use native.Mathlib.Nat.{dvd_of_mod-eq-zero}
use wasm_shared_buffers.Base.{
  ℕ, zero, suc, ◌+◌, ◌≤◌, ◌≡◌, refl, ap, ◌∙◌, inl, inr, true, List, [], ◌∷◌, ◌++◌, arith, length,
  take, drop, replicate, All, ok, length-replicate, length-append,
}
use wasm_shared_buffers.Word.{to_le_bytes}
use wasm_shared_buffers.Memory.{Memory}
use wasm_shared_buffers.Lookup.Entry.{KeyValue}
use wasm_shared_buffers.Lookup.Host.{Malloc, Params, create_lookup}
use wasm_shared_buffers.Lookup.Main.{run_main}
use wasm_shared_buffers.Lookup.Main.Allocate.{IsAllocator}
use wasm_shared_buffers.Lookup.Main.EndToEnd.{run_main-ok}
use wasm_shared_buffers.Lookup.Main.Generated.{IsGenerated, missing_key}
use wasm_shared_buffers.Lookup.Module.{Str}
use wasm_shared_buffers.Lookup.Module.Calls.{Allocator}
use wasm_shared_buffers.Lookup.Module.Call.{IsOff}
use wasm_shared_buffers.Lookup.Store.Fill.{room_all}
use wasm_shared_buffers.Lookup.Tests.{by_length, entry}
use wasm_shared_buffers.Lookup.Tests.Setup.{mmap_bytes, copying-IsMmap}

-- The first 204 bytes are for the calls of `lookup_ext`.
abbrev scratch : ℕ
scratch = 204

abbrev malloc : Malloc
malloc n m = (scratch + length m, m ++ replicate (scratch + n) 0)

abbrev alloc : Memory → Allocator
alloc _ _ _ = record { value_len = 0; value = 4 }

length-malloc : (n : ℕ) (m : Memory) → length (malloc n m).1 ≡ length m + (scratch + n)
length-malloc n m =
    omega
      (arith, length-append m (replicate (scratch + n) 0), length-replicate {A = ℕ} (scratch + n) 0)

take-append_left : (m ys : Memory) (n : ℕ) → n ≤ length m → take n (m ++ ys) ≡ take n m
take-append_left m ys zero h = refl
take-append_left [] ys (suc n) h = absurd (omega arith)
take-append_left (x ∷ m) ys (suc n) h = ap (λ t. x ∷ t) (take-append_left m ys n (omega arith))

take-drop-append :
    (m ys : Memory) (q n : ℕ) → q + n ≤ length m → take n (drop q (m ++ ys)) ≡ take n (drop q m)
take-drop-append m ys zero n h = take-append_left m ys n (omega arith)
take-drop-append [] ys (suc q) n h = absurd (omega arith)
take-drop-append (x ∷ m) ys (suc q) n h = take-drop-append m ys q n (omega arith)

abbrev InUse : Memory → ℕ → ℕ → Type 0
InUse m q n = (scratch ≤ q) × (q + n ≤ length m)

strs-IsOff :
    (m : Memory) (c : ℕ) (strs : List Str)
    → c ≤ 200
    → All (λ s. InUse m s.ptr (length s.bytes)) strs
    → All (λ s. IsOff c (record { value_len = 0; value = 4 }) s.ptr (length s.bytes)) strs
strs-IsOff m c [] h all = tt
strs-IsOff m c (s ∷ strs) h (u, all) = (
  record { off_word = inr (omega arith); off_buffer = inr (omega arith) },
  strs-IsOff m c strs h all,
)

appending-IsAllocator : IsAllocator malloc alloc 20000 scratch 200
appending-IsAllocator = record {
  InUse = InUse;
  part = λ m q n p k u h l. (omega arith, omega arith);
  inside = λ n m h. omega (arith, length-malloc n m);
  grows = λ n m h. omega (arith, length-malloc n m);
  gives = λ n m h. (omega arith, omega (arith, length-malloc n m));
  apart = λ n m q k h u. inl (omega arith);
  keeps_use = λ n m q k h u. (omega arith, omega (arith, length-malloc n m));
  keeps = λ n m q cs h u held. record {
    fits = omega (arith, length-malloc n m);
    reads = take-drop-append m (replicate (scratch + n) 0) q (length cs) u.1 ∙ held.reads;
  };
  written = λ m m' i n q k u d v. (omega arith, omega (arith, d.size));
  calls = λ m index n strs u all. record {
    len_fits = λ i c h. omega arith;
    value_fits = λ i c h. omega arith;
    off_value = λ i c h. inl (omega arith);
    off_table = λ i c h. record { off_word = inr (omega arith); off_buffer = inr (omega arith) };
    off_strs = λ i c h. strs-IsOff m c strs h all;
  };
}

abbrev one_pair : List KeyValue
one_pair = entry (replicate 5 b'k') (replicate 10 b'v') ∷ []

one_pair-IsGenerated : All IsGenerated one_pair
one_pair-IsGenerated = (
  record {
    key_chars = omega arith;
    val_chars = omega arith;
    key_long = omega arith;
    key_short = omega arith;
    val_long = omega arith;
    val_short = omega arith;
  },
  tt,
)

abbrev missing : Str
missing = record { ptr = scratch; bytes = missing_key }

abbrev start : Memory
start = replicate scratch 0 ++ missing_key

abbrev settings : Params
settings = record { index_slots = 2; test_keys = 1; default_msg_bytes = 100 }

one_key_bytes : length (create_lookup 1 one_pair).test_keys ≡ 9
unfolding create_lookup to_le_bytes
one_key_bytes = refl

one_pair_room : room_all (create_lookup 1 one_pair).lookup ≡ 27
unfolding create_lookup
one_pair_room = refl

run_main-ok_example :
    (m : Memory) × (run_main by_length true malloc mmap_bytes alloc 1 missing settings one_pair
        start
      ≡ ok m)
unfolding appending-IsAllocator
run_main-ok_example =
    run_main-ok by_length malloc mmap_bytes alloc 1 missing settings one_pair start 20000 scratch
      200 appending-IsAllocator copying-IsMmap one_pair-IsGenerated (omega arith)
      (dvd_of_mod-eq-zero 2 refl) (omega arith) (omega (arith, one_key_bytes, one_pair_room))
      (omega arith) (omega arith) (omega arith) refl (omega arith, omega arith)
      (record { fits = omega arith; reads = refl }) (omega arith) (omega arith) (omega arith)
