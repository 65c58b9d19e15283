-- ===== src/Lookup/Tests.antt =====
-- A table of two entries in two slots: concrete runs, and the theorems about the stored table at it.
mod Calls
mod Setup
mod Whole
mod Order
mod Release
mod Instance
use Prim.Native.Nat.{◌∣◌}
use native.Mathlib.Nat.{dvd_of_mod-eq-zero}
use mathlib.Core.List.{Perm}
use wasm_shared_buffers.Base.{
  ◌-◌, ℕ, zero, suc, ◌+◌, ◌*◌, ◌%◌, ◌≡◌, ◌≢◌, ◌≤◌, ◌<◌, refl, true, false, Bool, Option, none, some,
  List, [], ◌∷◌, ◌++◌, take, drop, Run, ok, panic, explicit, remainder, length, get_or, arith,
}
use wasm_shared_buffers.Word.{u32_mod, to_le_bytes, from_le_bytes}
use wasm_shared_buffers.Memory.{Memory, Holds, Holds-self, load}
use wasm_shared_buffers.Lookup.Entry.{Bytes, KeyValue, eq_bytes, find, sort, Distinct}
use wasm_shared_buffers.Lookup.Entry.Order.{IsSorted, sort_lem}
use wasm_shared_buffers.Lookup.File.{write_all}
use wasm_shared_buffers.Lookup.Module.{Context, search_slot, search_chain, index_at, lookup_int}
use wasm_shared_buffers.Lookup.Module.Internal.{
  IsMapped, lookup_int-find, lookup_int_misses, lookup_int-store_lookup,
}
use wasm_shared_buffers.Lookup.Reader.{Reader, read_u32, read_str, check_key, skip_str}
use wasm_shared_buffers.Lookup.Reader.Wraps.{read_u32_wraps}
use wasm_shared_buffers.Lookup.Reader.Strings.{Ahead, check_key-Ahead}
use wasm_shared_buffers.Lookup.Store.{Packer, pack_slot, pack_slots, first_packer, store_lookup}
use wasm_shared_buffers.Lookup.Store.Fill.{chain_at, room_all}
use wasm_shared_buffers.Lookup.Store.Format.{stored_table, packed_chains, packed_str}
use wasm_shared_buffers.Lookup.Store.Result.{
  IsTable, store_lookup-stored_table, store_lookup_panics,
}
use wasm_shared_buffers.Lookup.Store.Statistics.{store_lookup_statistics}

abbrev pub entry : Bytes → Bytes → KeyValue
entry k v = record { key = k; val = v }

-- "ab" ↦ "xyz" and "a" ↦ "q", hashed by their lengths.
abbrev pub two : List KeyValue
two = entry (b'a' ∷ b'b' ∷ []) (b'x' ∷ b'y' ∷ b'z' ∷ []) ∷ entry (b'a' ∷ []) (b'q' ∷ []) ∷ []

abbrev pub by_length : Bytes → ℕ
by_length k = length k

abbrev pub two_table : List (List KeyValue)
two_table =
    (entry (b'a' ∷ b'b' ∷ []) (b'x' ∷ b'y' ∷ b'z' ∷ []) ∷ [])
    ∷ (entry (b'a' ∷ []) (b'q' ∷ []) ∷ [])
    ∷ []

abbrev pub two_packed : Packer
two_packed = pack_slots 0 two_table (first_packer 2)

unfoldable pub program : Unit {0}
unfolding store_lookup pack_slots pack_slot sort first_packer stored_table to_le_bytes from_le_bytes
    find lookup_int search_slot index_at read_u32 read_str check_key skip_str load write_all
program = tt

pub two_stored : store_lookup by_length true 2 two ≡ ok two_packed
unfolding program
two_stored = refl

-- Two offsets, the bumper, and two chains of one pair each.
two_bytes :
    two_packed.file.bytes
    ≡ 1 ∷ 0 ∷ 0 ∷ 0 ∷ 18 ∷ 0 ∷ 0 ∷ 0 ∷ 0 ∷ 1 ∷ 0 ∷ 0 ∷ 0 ∷ 2 ∷ 0 ∷ 0 ∷ 0 ∷ b'a' ∷ b'b' ∷ 3 ∷ 0 ∷ 0
      ∷ 0 ∷ b'x' ∷ b'y' ∷ b'z' ∷ 1 ∷ 0 ∷ 0 ∷ 0 ∷ 1 ∷ 0 ∷ 0 ∷ 0 ∷ b'a' ∷ 1 ∷ 0 ∷ 0 ∷ 0 ∷ b'q' ∷ []
unfolding program
two_bytes = refl

pub two-Distinct : Distinct two
unfolding find
two-Distinct = (refl, (refl, tt))

abbrev pub two_context : ℕ → Context
two_context default = record {
  index = 0;
  index_len = 2;
  lookup = 8;
  lookup_bytes = 32;
  test_keys = [];
  default_msg_bytes = default;
}

two_found :
    lookup_int two_packed.file.bytes by_length (two_context 100) (b'a' ∷ b'b' ∷ [])
    ≡ ok (some (b'x' ∷ b'y' ∷ b'z' ∷ []))
unfolding program
two_found = refl

pub two_size : 32 + 2 * 4 ≡ length two_packed.file.bytes
unfolding program
two_size = refl

lookup_int-store_lookup_example :
    lookup_int two_packed.file.bytes by_length (two_context 100) (b'a' ∷ [])
    ≡ ok (find (b'a' ∷ []) two)
lookup_int-store_lookup_example =
    lookup_int-store_lookup by_length 2 two two_packed two_packed.file.bytes (two_context 100)
      (b'a' ∷ []) (omega arith) (dvd_of_mod-eq-zero 2 refl) two-Distinct (omega arith)
      (unfold program in omega arith) two_stored (Holds-self two_packed.file.bytes) refl refl
      two_size

store_lookup-stored_table_example :
    (s : Packer) × (t : List (List KeyValue)) × (store_lookup by_length true 2 two ≡ ok s)
    × (s.file.bytes ≡ stored_table t)
    × IsTable by_length 2 two t
store_lookup-stored_table_example =
    store_lookup-stored_table by_length 2 two (omega arith) (omega arith)

pub two-IsTable : IsTable by_length 2 two two_table
unfolding chain_at program packed_chains
two-IsTable = record {
  width = refl;
  small = omega arith;
  chains = elim [
    | zero ↦ refl
    | suc j ↦ elim j as (λ n. get_or two_table (suc n) [] ≡ chain_at by_length 2 (suc n) two) [
      | zero ↦ refl
      | suc k ↦ ground arith
    ]
  ];
}

-- With three slots and a hash past 2^32 the module looks in another slot than the host.
abbrev far_hash : Bytes → ℕ
far_hash k = u32_mod + length k

abbrev one : List KeyValue
one = entry (b'a' ∷ []) (b'q' ∷ []) ∷ []

abbrev one_table : List (List KeyValue)
one_table = [] ∷ [] ∷ one ∷ []

one-IsTable : IsTable far_hash 3 one one_table
unfolding chain_at program packed_chains
one-IsTable = record {
  width = refl;
  small = omega arith;
  chains = elim [
    | zero ↦ refl
    | suc j ↦ elim j as (λ n. get_or one_table (suc n) [] ≡ chain_at far_hash 3 (suc n) one) [
      | zero ↦ refl
      | suc k ↦
          elim k
            as (λ n. get_or one_table (suc (suc n)) [] ≡ chain_at far_hash 3 (suc (suc n)) one) [
              | zero ↦ refl
              | suc l ↦ ground arith
            ]
    ]
  ];
}

abbrev one_context : Context
one_context = record {
  index = 0;
  index_len = 3;
  lookup = 12;
  lookup_bytes = 15;
  test_keys = [];
  default_msg_bytes = 100;
}

one-Distinct : Distinct one
unfolding find
one-Distinct = (refl, tt)

one-IsMapped : IsMapped (stored_table one_table) one_context one_table
unfolding program packed_chains
one-IsMapped = record {
  held = Holds-self (stored_table one_table);
  index_len = refl;
  lookup = refl;
  lookup_bytes = refl;
  below = omega arith;
}

lookup_int_misses_example :
    lookup_int (stored_table one_table) far_hash one_context (b'a' ∷ []) ≡ ok none
lookup_int_misses_example =
    lookup_int_misses far_hash 3 one one_table (stored_table one_table) one_context (b'a' ∷ [])
      (omega arith) (omega arith) one-Distinct one-IsTable one-IsMapped

abbrev key_reader : Reader
key_reader = record { buffer = 0; size = 40; offset = 13 }

key-Ahead : Ahead two_packed.file.bytes key_reader (packed_str (b'a' ∷ b'b' ∷ []))
unfolding program packed_str
key-Ahead = record {
  held = record { fits = omega arith; reads = refl };
  inside = omega arith;
  bounded = omega arith;
  below = omega arith;
}

check_key-Ahead_example :
    check_key two_packed.file.bytes (b'a' ∷ b'b' ∷ b'c' ∷ []) key_reader
    ≡ ok (
      eq_bytes (b'a' ∷ b'b' ∷ []) (b'a' ∷ b'b' ∷ b'c' ∷ []),
      record key_reader { offset = 13 + (4 + 2) },
    )
check_key-Ahead_example =
    check_key-Ahead two_packed.file.bytes key_reader (b'a' ∷ b'b' ∷ []) key-Ahead
      (b'a' ∷ b'b' ∷ b'c' ∷ [])

-- At offset 2^32 - 2 of a buffer at 8: the bytes 6 to 9 of the memory, two of them before the buffer.
read_u32_wraps_example :
    read_u32 two_packed.file.bytes (record { buffer = 8; size = 32; offset = u32_mod - 2 })
    ≡ ok (
      from_le_bytes (take 4 (drop (8 - 2) two_packed.file.bytes)),
      record { buffer = 8; size = 32; offset = 4 - 2 },
    )
read_u32_wraps_example =
    read_u32_wraps two_packed.file.bytes 8 32 2 (omega arith) (omega arith) (omega arith)
      (omega arith) (omega arith) (unfold program in omega arith)
