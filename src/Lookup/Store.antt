-- ===== src/Lookup/Store.antt =====
-- The writer of the lookup table: `store_lookup` of rust/lookup/src/main.rs with its helpers.
pub mod Format
pub mod Append
pub mod Pack
pub mod Fill
pub mod Result
pub mod Locate
pub mod Statistics
pub mod Canonical
use wasm_shared_buffers.Base.{
  ℕ, zero, suc, ◌+◌, ◌*◌, ◌%◌, ◌≡◌, Bool, true, List, [], ◌∷◌, ◌++◌, Run, ok, panic, index,
  remainder, explicit, check, ◌>>=◌, ◌>>◌, length, replicate, max,
}
use wasm_shared_buffers.Word.{u32_mod, add32, to_le_bytes}
use wasm_shared_buffers.Lookup.Entry.{Bytes, KeyValue, sort}
use wasm_shared_buffers.Lookup.File.{File, truncated, set_len, seek_start, seek_end, write_all}

-- `write_bytes` and `write_u32` return the file and the bytes written, as a `u32`.
unfoldable pub write_bytes : File → Bytes → File × ℕ
write_bytes f bs = (write_all f bs, length bs % u32_mod)

unfoldable pub write_u32 : File → ℕ → File × ℕ
unfolding write_bytes
write_u32 f num = write_bytes f (to_le_bytes num)

-- A remainder panics on a zero divisor.
abbrev pub rem : ℕ → ℕ → Run ℕ
rem a zero = panic remainder
rem a (suc n) = ok (a % suc n)

-- `table[i].push(e)`
unfoldable pub push_at : List (List KeyValue) → ℕ → KeyValue → Run (List (List KeyValue))
push_at [] i e = panic index
push_at (c ∷ t) zero e = ok ((c ++ (e ∷ [])) ∷ t)
push_at (c ∷ t) (suc i) e = push_at t i e >>= λ t'. ok (c ∷ t')

-- What the packing loop keeps: the file, the offset (a `u32`) and the statistics.
pub record Packer : Type 0 where
  pub file : File
  pub offset : ℕ
  pub num_chains : ℕ
  pub sum_chain : ℕ
  pub max_chain : ℕ

-- `offset += write_u32(&mut file, n)`, and so for bytes.
unfoldable pub append_u32 : Packer → ℕ → Packer
unfolding write_u32
append_u32 s n =
    let (f, written) = write_u32 s.file n in record s { file = f; offset = add32 s.offset written }

unfoldable pub append_bytes : Packer → Bytes → Packer
unfolding write_bytes
append_bytes s bs =
    let (f, written) = write_bytes s.file bs in
    record s { file = f; offset = add32 s.offset written }

-- The loop over one sorted chain.
unfoldable pub append_pairs : Packer → List KeyValue → Packer
unfolding append_u32 append_bytes
append_pairs s [] = s
append_pairs s (e ∷ es) =
    let s₁ = append_u32 s (length e.key % u32_mod) in
    let s₂ = append_bytes s₁ e.key in
    let s₃ = append_u32 s₂ (length e.val % u32_mod) in append_pairs (append_bytes s₃ e.val) es

-- The body of the packing loop for slot `i`, with `c` for `table[i]`.
unfoldable pub pack_slot : ℕ → List KeyValue → Packer → Packer
unfolding append_pairs write_u32 seek_start seek_end
pack_slot i [] s = s
pack_slot i (e ∷ es) s =
    let list = sort (e ∷ es) in
    let f₁ = (write_u32 (seek_start s.file (i * 4)) s.offset).0 in
    let s₁ = append_u32 (record s { file = seek_end f₁ }) (length list % u32_mod) in
    let s₂ = append_pairs s₁ list in
    record s₂ {
      num_chains = s₂.num_chains + 1;
      sum_chain = s₂.sum_chain + length list;
      max_chain = max (length list) s₂.max_chain;
    }

-- The loop over the slots; the list is `table[i..]`.
unfoldable pub pack_slots : ℕ → List (List KeyValue) → Packer → Packer
pack_slots i [] s = s
pack_slots i (c ∷ t) s = pack_slots (i + 1) t (pack_slot i c s)

-- The state before the loop: a zero index table and a bumper byte in the file.
unfoldable pub first_packer : ℕ → Packer
unfolding set_len
first_packer index_slots = record {
  file = set_len truncated (index_slots * 4 + 1);
  offset = 1;
  num_chains = 0;
  sum_chain = 0;
  max_chain = 0;
}

-- `hash` is `DefaultHasher` on the bytes of a key: 64 bits, as a `usize` of the host.
module _ (hash : Bytes → ℕ) where
  -- The loop that converts the map to a table. The list holds the map's entries in the order in
  -- which it iterates.
  unfoldable pub fill : ℕ → List KeyValue → List (List KeyValue) → Run (List (List KeyValue))
  unfolding push_at
  fill slots [] t = ok t
  fill slots (e ∷ es) t = do i ← rem (hash e.key) slots; t' ← push_at t i e; fill slots es t'

  -- `store_lookup`, with the answer of `shm_open` and `params.index_slots` as arguments. The
  -- result is the packer's last state, the file among it.
  unfoldable pub store_lookup : Bool → ℕ → List KeyValue → Run Packer
  unfolding fill pack_slots first_packer
  store_lookup opened index_slots lookup = do
    table ← fill index_slots lookup (replicate index_slots [])
    check opened explicit
    ok (pack_slots 0 table (first_packer index_slots))
