-- ===== src/Lookup/Store/Locate.antt =====
-- Where a slot's entry and its chain stand in the stored table.
use wasm_shared_buffers.Base.{
  ℕ, zero, suc, ◌+◌, ◌*◌, ◌≡◌, ◌≤◌, ◌<◌, refl, ap, sym, ◌∙◌, List, [], ◌∷◌, ◌++◌, length,
  length-append, append_assoc, get_or, arith,
}
use wasm_shared_buffers.Word.{to_le_bytes, length-to_le_bytes}
use wasm_shared_buffers.Lookup.Entry.{Bytes, KeyValue}
use wasm_shared_buffers.Lookup.Store.Format.{
  packed_chain, packed_chains, slot_offset, index_table, stored_table,
}

-- A split of the table at slot `i`: what stands before and behind the slot's index entry, and
-- before and behind its chain.
record Split (offset : ℕ) (t : List (List KeyValue)) (i : ℕ) : Type 0 where
  pub index_before : Bytes
  pub index_after : Bytes
  pub chains_before : Bytes
  pub chains_after : Bytes
  pub at : length index_before ≡ i * 4
  pub index :
      index_table offset t
      ≡ index_before
        ++ (to_le_bytes (slot_offset (offset + length chains_before) (get_or t i []))
            ++ index_after)
  pub chains : packed_chains t ≡ chains_before ++ (packed_chain (get_or t i []) ++ chains_after)

Split-at : (offset : ℕ) (t : List (List KeyValue)) (i : ℕ) → i < length t → Split offset t i
unfolding index_table packed_chains
Split-at offset [] i h = absurd (omega arith)
Split-at offset (c ∷ t) zero h =
    let e : offset + length {A = ℕ} [] ≡ offset = omega arith in
    record {
      index_before = [];
      index_after = index_table (offset + length (packed_chain c)) t;
      chains_before = [];
      chains_after = packed_chains t;
      at = refl;
      index = rw e refl;
      chains = refl;
    }
Split-at offset (c ∷ t) (suc i) h =
    let s = Split-at (offset + length (packed_chain c)) t i (omega arith) in
    let entry = to_le_bytes (slot_offset offset c) in
    let size = length-append (packed_chain c) s.chains_before in
    let e : offset + length (packed_chain c) + length s.chains_before
        ≡ offset + length (packed_chain c ++ s.chains_before) =
      omega arith in
    record {
      index_before = entry ++ s.index_before;
      index_after = s.index_after;
      chains_before = packed_chain c ++ s.chains_before;
      chains_after = s.chains_after;
      at = omega (
        arith,
        length-append entry s.index_before,
        length-to_le_bytes (slot_offset offset c),
        s.at,
      );
      index = ap (λ u. entry ++ u) (rw e at s.index) ∙ sym (append_assoc entry s.index_before _);
      chains =
          ap (λ u. packed_chain c ++ u) s.chains
          ∙ sym (append_assoc (packed_chain c) s.chains_before _);
    }

-- The slot's index entry is `value`, and the stored bytes have `chain` behind `value` bytes of the
-- packed region, which begins after the index table.
pub record Located (t : List (List KeyValue)) (i : ℕ) : Type 0 where
  pub before : ℕ
  pub index_before : Bytes
  pub index_after : Bytes
  pub chain_before : Bytes
  pub chain_after : Bytes
  pub index :
      stored_table t
      ≡ index_before ++ (to_le_bytes (slot_offset (suc before) (get_or t i [])) ++ index_after)
  pub index_at : length index_before ≡ i * 4
  pub chain : stored_table t ≡ chain_before ++ (packed_chain (get_or t i []) ++ chain_after)
  pub chain_at : length chain_before ≡ length t * 4 + suc before
  pub within : before + length (packed_chain (get_or t i [])) ≤ length (packed_chains t)

length-index_table :
    (offset : ℕ) (t : List (List KeyValue)) → length (index_table offset t) ≡ length t * 4
unfolding index_table
length-index_table offset [] = refl
length-index_table offset (c ∷ t) = omega (
  arith,
  length-append (to_le_bytes (slot_offset offset c))
      (index_table (offset + length (packed_chain c)) t),
  length-to_le_bytes (slot_offset offset c),
  length-index_table (offset + length (packed_chain c)) t,
)

pub length-stored_table :
    (t : List (List KeyValue))
    → length (stored_table t) ≡ length t * 4 + 1 + length (packed_chains t)
unfolding stored_table
length-stored_table t =
    omega (arith, length-append (index_table 1 t) (0 ∷ packed_chains t), length-index_table 1 t)

pub locate : (t : List (List KeyValue)) (i : ℕ) → i < length t → Located t i
unfolding stored_table
locate t i h =
    let s = Split-at 1 t i h in
    let rest = 0 ∷ packed_chains t in
    let before = length s.chains_before in
    let e : 1 + before ≡ suc before = omega arith in
    let c = packed_chain (get_or t i []) in
    let entry = to_le_bytes (slot_offset (1 + before) (get_or t i [])) in
    record {
      before = before;
      index_before = s.index_before;
      index_after = s.index_after ++ rest;
      chain_before = index_table 1 t ++ (0 ∷ s.chains_before);
      chain_after = s.chains_after;
      index = rw (← e, s.index) (simp append_assoc);
      index_at = s.at;
      chain =
          ap (λ u. index_table 1 t ++ (0 ∷ u)) s.chains
          ∙ sym (append_assoc (index_table 1 t) (0 ∷ s.chains_before) (c ++ s.chains_after));
      chain_at =
          omega
            (arith, length-append (index_table 1 t) (0 ∷ s.chains_before), length-index_table 1 t);
      within = omega (
        arith,
        ap length s.chains,
        length-append s.chains_before (c ++ s.chains_after),
        length-append c s.chains_after,
      );
    }
