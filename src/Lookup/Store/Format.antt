-- ===== src/Lookup/Store/Format.antt =====
-- The format of the stored table, as the comment above `store_lookup` describes it.
use wasm_shared_buffers.Base.{ℕ, ◌+◌, List, [], ◌∷◌, ◌++◌, length}
use wasm_shared_buffers.Word.{to_le_bytes}
use wasm_shared_buffers.Lookup.Entry.{Bytes, KeyValue, sort}

-- A string: its length as a `u32`, then its bytes.
unfoldable pub packed_str : Bytes → Bytes
packed_str s = to_le_bytes (length s) ++ s

unfoldable pub packed_pairs : List KeyValue → Bytes
unfolding packed_str
packed_pairs [] = []
packed_pairs (e ∷ es) = packed_str e.key ++ (packed_str e.val ++ packed_pairs es)

-- A chain with its number of pairs; an empty slot takes no room.
unfoldable pub packed_chain : List KeyValue → Bytes
unfolding packed_pairs
packed_chain [] = []
packed_chain (e ∷ es) = to_le_bytes (length (sort (e ∷ es))) ++ packed_pairs (sort (e ∷ es))

unfoldable pub packed_chains : List (List KeyValue) → Bytes
unfolding packed_chain
packed_chains [] = []
packed_chains (c ∷ t) = packed_chain c ++ packed_chains t

-- The entry of a slot whose chain would begin at `offset`.
unfoldable pub slot_offset : ℕ → List KeyValue → ℕ
slot_offset offset [] = 0
slot_offset offset (e ∷ es) = offset

-- The index table, for chains that are packed from `offset` on.
unfoldable pub index_table : ℕ → List (List KeyValue) → Bytes
unfolding slot_offset
index_table offset [] = []
index_table offset (c ∷ t) =
    to_le_bytes (slot_offset offset c) ++ index_table (offset + length (packed_chain c)) t

-- The whole file: index table, bumper, packed chains.
unfoldable pub stored_table : List (List KeyValue) → Bytes
unfolding packed_chains index_table
stored_table t = index_table 1 t ++ (0 ∷ packed_chains t)
