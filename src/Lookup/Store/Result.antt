-- ===== src/Lookup/Store/Result.antt =====
-- `store_lookup` as a whole.
use wasm_shared_buffers.Base.{
  ℕ, zero, suc, ◌+◌, ◌*◌, ◌≡◌, ◌<◌, ◌≤◌, refl, ap, ◌∙◌, true, false, List, [], ◌∷◌, ◌++◌, length,
  replicate, length-replicate, take, get_or, get_or-replicate, arith, ok, panic, explicit,
  remainder, Bool,
}
use wasm_shared_buffers.Word.{u32_mod}
use wasm_shared_buffers.Lookup.Entry.{Bytes, KeyValue}
use wasm_shared_buffers.Lookup.File.{set_len}
use wasm_shared_buffers.Lookup.Store.{Packer, first_packer, pack_slots, fill, store_lookup}
use wasm_shared_buffers.Lookup.Store.Pack.{pack_slots-stored_table}
use wasm_shared_buffers.Lookup.Store.Fill.{room_all, chain_at, fill-Fills}
use wasm_shared_buffers.Lookup.Store.Format.{packed_chains, stored_table, packed_chain}

no_chains : (n : ℕ) → length (packed_chains (replicate n [])) ≡ 0
unfolding packed_chains packed_chain
no_chains zero = refl
no_chains (suc n) = no_chains n

take-replicate : (n : ℕ) → take n (replicate {A = ℕ} n 0) ≡ replicate n 0
take-replicate zero = refl
take-replicate (suc n) = ap (λ (t : Bytes). 0 ∷ t) (take-replicate n)

replicate_add_one : (n : ℕ) → replicate {A = ℕ} (suc n) 0 ≡ replicate n 0 ++ (0 ∷ [])
replicate_add_one zero = refl
replicate_add_one (suc n) = ap (λ (t : Bytes). 0 ∷ t) (replicate_add_one n)

-- The file before the packing loop: a zero index table and the bumper byte.
blank_file : (n : ℕ) → (first_packer n).file.bytes ≡ replicate (n * 4) 0 ++ (0 ∷ [])
unfolding first_packer set_len
blank_file n =
    let e : n * 4 + 1 ≡ suc (n * 4) = omega arith in
    take-replicate (n * 4 + 1) ∙ rw e (replicate_add_one (n * 4))

-- The table whose slot `j` holds the entries that hash to `j`.
pub record IsTable (hash : Bytes → ℕ) (slots : ℕ) (es : List KeyValue) (t : List (List KeyValue))
    : Type 0 where
  pub width : length t ≡ slots
  pub small : 1 + length (packed_chains t) < u32_mod
  pub chains : (j : ℕ) → get_or t j [] ≡ chain_at hash slots j es

pub store_lookup-sized :
    (hash : Bytes → ℕ) (slots : ℕ) (es : List KeyValue)
    → 0 < slots
    → 1 + room_all es < u32_mod
    → (s : Packer) × (t : List (List KeyValue)) × (store_lookup hash true slots es ≡ ok s)
      × (s.file.bytes ≡ stored_table t)
      × IsTable hash slots es t
      × (length (packed_chains t) ≤ room_all es)
unfolding store_lookup
store_lookup-sized hash slots es pos small =
    let (t, run, f) =
      fill-Fills hash slots es (replicate slots []) pos (length-replicate slots []) in
    let width : length t ≡ slots = f.width ∙ length-replicate slots [] in
    let fits : 1 + length (packed_chains t) < u32_mod =
      omega (arith, f.room_bound, no_chains slots) in
    (
      pack_slots 0 t (first_packer slots),
      t,
      rw run,
      pack_slots-stored_table t (first_packer slots) (rw width (blank_file slots)) refl fits,
      record {
        width = width;
        small = fits;
        chains = λ j. f.chains j ∙ rw (get_or-replicate {A = List KeyValue} slots j []);
      },
      omega (arith, f.room_bound, no_chains slots),
    )

-- With at least one slot, entries whose packed sizes stay below 2^32, and a memory file that opens and
-- whose operations do not fail: `store_lookup` succeeds, and its file is the stored form of the table
-- whose slot `j` holds the entries that hash to `j`, each chain in the order of `KeyValue::cmp`.
pub store_lookup-stored_table :
    (hash : Bytes → ℕ) (slots : ℕ) (es : List KeyValue)
    → 0 < slots
    → 1 + room_all es < u32_mod
    → (s : Packer) × (t : List (List KeyValue)) × (store_lookup hash true slots es ≡ ok s)
      × (s.file.bytes ≡ stored_table t)
      × IsTable hash slots es t
store_lookup-stored_table hash slots es pos small =
    let (s, t, run, bytes, table, _) = store_lookup-sized hash slots es pos small in
    (s, t, run, bytes, table)

-- With slots, `store_lookup` panics if the memory file cannot be opened; with no slot it panics at
-- the first entry, before it opens the file.
pub store_lookup_panics :
    (hash : Bytes → ℕ) (slots : ℕ) (opened : Bool) (e : KeyValue) (es : List KeyValue)
    → 0 < slots
    → (store_lookup hash false slots (e ∷ es) ≡ panic explicit)
      × (store_lookup hash opened 0 (e ∷ es) ≡ panic remainder)
unfolding store_lookup fill
store_lookup_panics hash slots opened e es pos =
    let (t, run, f) =
      fill-Fills hash slots (e ∷ es) (replicate slots []) pos (length-replicate slots []) in
    (rw run, refl)
