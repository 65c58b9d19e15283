-- ===== src/Lookup/Store/Pack.antt =====
-- The packing loop writes the table in the format of `Format`.
use wasm_shared_buffers.Base.{
  ℕ, suc, ◌+◌, ◌*◌, ◌%◌, ◌≡◌, ◌≤◌, ◌<◌, refl, ap, ◌∙◌, List, [], ◌∷◌, ◌++◌, length, length-append,
  append_assoc, append-nil, replicate, arith,
}
use wasm_shared_buffers.Word.{u32_mod, to_le_bytes, length-to_le_bytes}
use wasm_shared_buffers.Lookup.Entry.{Bytes, KeyValue, sort}
use wasm_shared_buffers.Lookup.Entry.Order.{length-sort}
use wasm_shared_buffers.Lookup.File.{write_all, write_at-overwrite, seek_start, seek_end, write_at}
use wasm_shared_buffers.Lookup.Store.{Packer, append_u32, pack_slot, pack_slots, write_u32}
use wasm_shared_buffers.Lookup.Store.Append.{append_u32-Appends, append_pairs-Appends}
use wasm_shared_buffers.Lookup.Store.Format.{
  packed_pairs, packed_chain, packed_chains, slot_offset, index_table, stored_table, packed_str,
}

-- A chain has no more pairs than bytes.
pub length-le-packed_pairs : (es : List KeyValue) → length es ≤ length (packed_pairs es)
unfolding packed_pairs packed_str to_le_bytes
length-le-packed_pairs [] = omega arith
length-le-packed_pairs (e ∷ es) = omega (
  arith,
  length-le-packed_pairs es,
  length-append (packed_str e.key) _,
  length-append (packed_str e.val) (packed_pairs es),
)

-- Writing the slot's offset over the four zero bytes at its place.
write_slot :
    (s : Packer) (i : ℕ) (idx post : Bytes)
    → s.file.bytes ≡ idx ++ (to_le_bytes 0 ++ post)
    → length idx ≡ i * 4
    → (write_u32 (seek_start s.file (i * 4)) s.offset).0.bytes
      ≡ idx ++ (to_le_bytes s.offset ++ post)
unfolding write_u32 seek_start to_le_bytes write_all write_at
write_slot s i idx post e n =
    rw (e, ← n) (write_at-overwrite idx (to_le_bytes 0) post (to_le_bytes s.offset) refl)

-- What one round leaves: the slot's index entry written, its chain at the end of the file.
record Packs (i : ℕ) (c : List KeyValue) (s t : Packer) (idx post : Bytes) : Type 0 where
  pub bytes :
      t.file.bytes ≡ idx ++ (to_le_bytes (slot_offset s.offset c) ++ (post ++ packed_chain c))
  pub offset : t.offset ≡ s.offset + length (packed_chain c)
  pub sum_chain : t.sum_chain ≡ s.sum_chain + length c

pack_slot-Packs :
    (i : ℕ) (c : List KeyValue) (s : Packer) (idx post : Bytes)
    → s.file.bytes ≡ idx ++ (to_le_bytes 0 ++ post)
    → length idx ≡ i * 4
    → s.offset + length (packed_chain c) < u32_mod
    → Packs i c s (pack_slot i c s) idx post
unfolding pack_slot packed_chain slot_offset seek_end
pack_slot-Packs i [] s idx post e n h = record {
  bytes = rw (append-nil post) e;
  offset = omega arith;
  sum_chain = omega arith;
}
pack_slot-Packs i (x ∷ es) s idx post e n h =
    let list = sort (x ∷ es) in
    let header = to_le_bytes (length list) in
    let f₁ = (write_u32 (seek_start s.file (i * 4)) s.offset).0 in
    let s₀ : Packer = record s { file = seek_end f₁ } in
    let written = write_slot s i idx post e n in
    let sizes = length-append header (packed_pairs list) in
    let four = length-to_le_bytes (length list) in
    let short : length list % u32_mod ≡ length list = omega (arith, length-le-packed_pairs list) in
    let a = append_u32-Appends s₀ (length list) refl (omega arith) in
    let b =
      append_pairs-Appends list (append_u32 s₀ (length list)) a.pos (omega (arith, a.offset)) in
    rw short (record {
      bytes = b.bytes ∙ rw (a.bytes, written) (simp append_assoc);
      offset = omega (arith, a.offset, b.offset);
      sum_chain = omega (arith, a.sum_chain, b.sum_chain, length-sort (x ∷ es));
    })

blank_step :
    (n : ℕ) (post : Bytes)
    → replicate (suc n * 4) 0 ++ post ≡ to_le_bytes 0 ++ (replicate (n * 4) 0 ++ post)
unfolding to_le_bytes
blank_step n post = let e : suc n * 4 ≡ suc (suc (suc (suc (n * 4)))) = omega arith in rw e

pub pack_slots-layout :
    (t : List (List KeyValue)) (i : ℕ) (s : Packer) (idx packed : Bytes)
    → s.file.bytes ≡ idx ++ (replicate (length t * 4) 0 ++ packed)
    → length idx ≡ i * 4
    → s.offset + length (packed_chains t) < u32_mod
    → ((pack_slots i t s).file.bytes
        ≡ idx ++ (index_table s.offset t ++ (packed ++ packed_chains t)))
unfolding pack_slots packed_chains index_table
pack_slots-layout [] i s idx packed e n h = rw append-nil e
pack_slots-layout (c ∷ t) i s idx packed e n h =
    let blank = replicate (length t * 4) 0 ++ packed in
    let size = length-append (packed_chain c) (packed_chains t) in
    let first = to_le_bytes (slot_offset s.offset c) in
    let p =
      pack_slot-Packs i c s idx blank (e ∙ ap (λ u. idx ++ u) (blank_step (length t) packed)) n
        (omega arith) in
    let rest =
      pack_slots-layout t (i + 1) (pack_slot i c s) (idx ++ first) (packed ++ packed_chain c)
        (p.bytes ∙ simp append_assoc)
        (omega (arith, length-append idx first, length-to_le_bytes (slot_offset s.offset c)))
        (omega (arith, p.offset)) in
    rest ∙ rw p.offset (simp append_assoc)

-- From an empty packed region after the bumper, the file is the stored table.
pub pack_slots-stored_table :
    (t : List (List KeyValue)) (s : Packer)
    → s.file.bytes ≡ replicate (length t * 4) 0 ++ (0 ∷ [])
    → s.offset ≡ 1
    → 1 + length (packed_chains t) < u32_mod
    → (pack_slots 0 t s).file.bytes ≡ stored_table t
unfolding stored_table
pack_slots-stored_table t s e o h = pack_slots-layout t 0 s [] (0 ∷ []) e refl (omega arith) ∙ rw o
