-- ===== src/Lookup/Tests/Calls.antt =====
-- The calls of the module at a memory that holds the table of two entries, the test keys and the
-- missing key.
use native.Mathlib.Nat.{dvd_of_mod-eq-zero}
use wasm_shared_buffers.Base.{
  ℕ, ◌≡◌, ◌≤◌, refl, All, Bool-cases, inl, inr, true, none, some, List, [], ◌∷◌, ◌++◌, ok, length,
  replicate, arith,
}
use wasm_shared_buffers.Memory.{Memory, Holds}
use wasm_shared_buffers.Lookup.Entry.{Bytes, KeyValue, find, eq_bytes}
use wasm_shared_buffers.Lookup.Module.{Context, Str}
use wasm_shared_buffers.Lookup.Module.Calls.{Allocator, lookup_ext, verify_lookups}
use wasm_shared_buffers.Lookup.Module.Call.{IsPlaced}
use wasm_shared_buffers.Lookup.Module.External.{lookup_ext-find}
use wasm_shared_buffers.Lookup.Module.Ready.{IsApart, IsReady, IsStored}
use wasm_shared_buffers.Lookup.Module.TestKeys.{packed_strs, strs_from}
use wasm_shared_buffers.Lookup.Module.Verify.{verify_lookups-IsReady}
use wasm_shared_buffers.Lookup.Store.Format.{stored_table, packed_str}
use wasm_shared_buffers.Lookup.Tests.{
  two, by_length, two_table, two_context, two-Distinct, two-IsTable, program,
}
use wasm_shared_buffers.Lookup.Utf8.{is_utf8}

abbrev missing_key : Bytes
missing_key =
    b'4' ∷ b'0' ∷ b'4' ∷ b' ' ∷ b'n' ∷ b'o' ∷ b't' ∷ b' ' ∷ b'f' ∷ b'o' ∷ b'u' ∷ b'n' ∷ b'd' ∷ []

abbrev missing : Str
missing = record { ptr = 51; bytes = missing_key }

abbrev test_keys : List Bytes
test_keys = (b'a' ∷ b'b' ∷ []) ∷ (b'a' ∷ []) ∷ []

-- 40 bytes of the table, 11 of the packed keys, 13 of the missing key, and a heap.
abbrev memory : Memory
memory = stored_table two_table ++ (packed_strs test_keys ++ (missing_key ++ replicate 100 0))

abbrev context : Context
context = record (two_context 1) { test_keys = strs_from 40 test_keys }

abbrev strs : List Str
strs = missing ∷ strs_from 40 test_keys

abbrev alloc : Allocator
alloc _ _ = record { value_len = 64; value = 68 }

calls : Unit {0}
unfolding program packed_strs strs_from packed_str is_utf8
calls = tt

memory-IsReady : IsReady memory 164 context two_table strs
unfolding calls
memory-IsReady = record {
  size_kept = refl;
  mapped = record {
    held = record { fits = omega arith; reads = refl };
    index_len = refl;
    lookup = refl;
    lookup_bytes = refl;
    below = omega arith;
  };
  strs_held = (
    record { fits = omega arith; reads = refl },
    (
      record { fits = omega arith; reads = refl },
      (record { fits = omega arith; reads = refl }, tt),
    ),
  );
}

alloc-IsApart : IsApart alloc 164 50 0 (length (stored_table two_table)) strs
unfolding calls
alloc-IsApart = record {
  len_fits = λ i c h. omega arith;
  value_fits = λ i c h. omega arith;
  off_value = λ i c h. inl (omega arith);
  off_table = λ i c h. record { off_word = inl (omega arith); off_buffer = inl (omega arith) };
  off_strs = λ i c h. (
    record { off_word = inl (omega arith); off_buffer = inl (omega arith) },
    (
      record { off_word = inl (omega arith); off_buffer = inl (omega arith) },
      (record { off_word = inl (omega arith); off_buffer = inl (omega arith) }, tt),
    ),
  );
}

find-length :
    (n : ℕ) (es : List KeyValue) (k v : Bytes)
    → All (λ e. length e.val ≤ n) es
    → find k es ≡ some v
    → length v ≤ n
unfolding find
find-length n [] k v all h = absurd (cc h)
find-length n (e ∷ es) k v (le, all) h = elim (Bool-cases (eq_bytes e.key k)) [
  | inl same ↦
      let hit : some e.val ≡ some v = rw same at h in let val : e.val ≡ v = cc hit in rw (← val) le
  | inr apart ↦ find-length n es k v all (rw apart at h)
]

two_values : (k v : Bytes) → find k two ≡ some v → length v ≤ 50
two_values k v h = find-length 50 two k v (omega arith) h

IsStored-ab : IsStored two strs (record { ptr = 44; bytes = b'a' ∷ b'b' ∷ [] })
unfolding calls
IsStored-ab = record {
  among = inr (inl refl);
  utf8 = refl;
  value = b'x' ∷ b'y' ∷ b'z' ∷ [];
  found = refl;
}

IsStored-a : IsStored two strs (record { ptr = 50; bytes = b'a' ∷ [] })
unfolding calls
IsStored-a = record { among = inr (inr (inl refl)); utf8 = refl; value = b'q' ∷ []; found = refl }

All-IsStored : All (IsStored two strs) context.test_keys
unfolding calls
All-IsStored = (IsStored-ab, (IsStored-a, tt))

missing-utf8 : is_utf8 missing_key ≡ true
unfolding calls
missing-utf8 = refl

missing-none : find missing_key two ≡ none
unfolding calls
missing-none = refl

verify_lookups-IsReady_example :
    (m : Memory) × (verify_lookups by_length two alloc missing context memory ≡ ok m)
    × IsReady m 164 context two_table strs
verify_lookups-IsReady_example =
    verify_lookups-IsReady by_length 2 two two_table alloc 164 50 context strs (omega arith)
      (dvd_of_mod-eq-zero 2 refl) two-Distinct two-IsTable alloc-IsApart (omega arith) (omega arith)
      two_values missing memory (inl refl) missing-utf8 missing-none All-IsStored memory-IsReady

-- The value "xyz" does not fit the default size of one byte: the second attempt returns it.
key_held : Holds memory 44 (b'a' ∷ b'b' ∷ [])
unfolding calls
key_held = record { fits = omega arith; reads = refl }

key-utf8 : is_utf8 (b'a' ∷ b'b' ∷ []) ≡ true
unfolding calls
key-utf8 = refl

memory_size : length memory ≡ 164
unfolding calls
memory_size = refl

placed : (c : ℕ) → c ≤ 50 → IsPlaced (length memory) 44 2 c (alloc 0 c)
placed c h = rw memory_size (record {
  len_fits = omega arith;
  value_fits = omega arith;
  off_key = inl (omega arith);
  off_value = inl (omega arith);
})

lookup_ext-find_example :
    (m : Memory) × (lookup_ext two alloc 2 44 context memory ≡ ok (find (b'a' ∷ b'b' ∷ []) two, m))
lookup_ext-find_example =
    lookup_ext-find two alloc (b'a' ∷ b'b' ∷ []) 44 context memory key-utf8 key_held (omega arith)
      (placed 1 (omega arith))
      (λ v e. let h = two_values (b'a' ∷ b'b' ∷ []) v e in (omega arith, λ _. placed (length v) h))
