-- ===== src/Lookup/Store/Canonical.antt =====
-- A `HashMap` iterates in an order of its own, which differs from run to run; the stored table does
-- not depend on it.
use mathlib.Core.Logic.{∥∥₁_elim}
use mathlib.Core.List.{Perm, Permᴰ}
use native.Mathlib.Nat.{ℕ_set}
use wasm_shared_buffers.Base.{
  ℕ, suc, ◌+◌, ◌%◌, ◌≡◌, ◌<◌, refl, sym, ap, ◌∙◌, Bool, true, false, List, [], ◌∷◌, ◌++◌, length,
  get_or, arith, ok, inl, inr, ◌==◌, if◌then◌else◌, Bool-cases, Run, ◌>>=◌,
}
use wasm_shared_buffers.Word.{u32_mod, to_le_bytes}
use wasm_shared_buffers.Lookup.Entry.{Bytes, KeyValue, insert_sorted, sort}
use wasm_shared_buffers.Lookup.Entry.Canonical.{insert_comm, entries-set}
use wasm_shared_buffers.Lookup.Entry.Order.{length-sort}
use wasm_shared_buffers.Lookup.Store.{Packer, store_lookup}
use wasm_shared_buffers.Lookup.Store.Fill.{room, room_all, chain_at}
use wasm_shared_buffers.Lookup.Store.Format.{
  packed_chain, packed_chains, packed_pairs, slot_offset, index_table, stored_table,
}
use wasm_shared_buffers.Lookup.Store.Result.{store_lookup-stored_table}

sort_cons : (e : KeyValue) (c : List KeyValue) → sort (e ∷ c) ≡ insert_sorted e (sort c)
unfolding sort
sort_cons e c = refl

module _ (hash : Bytes → ℕ) (slots : ℕ) (j : ℕ) where
  abbrev sorted_chain : List KeyValue → List KeyValue
  sorted_chain es = sort (chain_at hash slots j es)

  sorted_chain_cons :
      (e : KeyValue) (es : List KeyValue)
      → sorted_chain (e ∷ es)
        ≡ (if hash e.key % slots == j then insert_sorted e (sorted_chain es) else sorted_chain es)
  unfolding chain_at
  sorted_chain_cons e es = elim (Bool-cases (hash e.key % slots == j)) [
    | inl h ↦ rw h (sort_cons e (chain_at hash slots j es))
    | inr h ↦ rw h refl
  ]

  swapped :
      (a b : Bool) (e f : KeyValue) (c : List KeyValue)
      → (if a
          then insert_sorted e (if b then insert_sorted f c else c)
          else (if b then insert_sorted f c else c))
        ≡ (if b
            then insert_sorted f (if a then insert_sorted e c else c)
            else (if a then insert_sorted e c else c))
  swapped true true e f c = insert_comm e f c
  swapped true false e f c = refl
  swapped false true e f c = refl
  swapped false false e f c = refl

  two_cons :
      (e f : KeyValue) (es : List KeyValue) → sorted_chain (e ∷ f ∷ es) ≡ sorted_chain (f ∷ e ∷ es)
  two_cons e f es =
      let first = sorted_chain_cons f es in
      let second = sorted_chain_cons e es in
      sorted_chain_cons e (f ∷ es)
      ∙ rw (first, second)
          (swapped (hash e.key % slots == j) (hash f.key % slots == j) e f (sorted_chain es))
      ∙ sym (sorted_chain_cons f (e ∷ es))

  sorted_chain-Permᴰ : {es fs : List KeyValue} → Permᴰ es fs → sorted_chain es ≡ sorted_chain fs
  sorted_chain-Permᴰ Permᴰ.nil = refl
  sorted_chain-Permᴰ (Permᴰ.cons {a = e} {b = f} {l₁ = es} {l₂ = fs} q p) = rw q (
      sorted_chain_cons f es
      ∙ ap (λ c. if hash f.key % slots == j then insert_sorted f c else c) (sorted_chain-Permᴰ p)
      ∙ sym (sorted_chain_cons f fs))
  sorted_chain-Permᴰ (Permᴰ.swap {a = a} {b = b} {l = l} q r) = rw (← q, ← r) (two_cons a b l)
  sorted_chain-Permᴰ (Permᴰ.trans p q) = sorted_chain-Permᴰ p ∙ sorted_chain-Permᴰ q

room_all-Permᴰ : {es fs : List KeyValue} → Permᴰ es fs → room_all es ≡ room_all fs
room_all-Permᴰ Permᴰ.nil = refl
room_all-Permᴰ (Permᴰ.cons {b = f} q p) = rw q (ap (λ n. room f + n) (room_all-Permᴰ p))
room_all-Permᴰ (Permᴰ.swap {a = a} {b = b} {l = l} q r) = rw (← q, ← r) (omega arith)
room_all-Permᴰ (Permᴰ.trans p q) = room_all-Permᴰ p ∙ room_all-Permᴰ q

-- Chains that are sorted to the same chain are packed alike.
packed_chain-sort : (c d : List KeyValue) → sort c ≡ sort d → packed_chain c ≡ packed_chain d
unfolding packed_chain
packed_chain-sort [] [] h = refl
packed_chain-sort [] (y ∷ d) h =
    absurd (omega (arith, ap length h, length-sort (y ∷ d), length-sort []))
packed_chain-sort (x ∷ c) [] h =
    absurd (omega (arith, ap length h, length-sort (x ∷ c), length-sort []))
packed_chain-sort (x ∷ c) (y ∷ d) h = ap (λ s. to_le_bytes (length s) ++ packed_pairs s) h

slot_offset-sort :
    (n : ℕ) (c d : List KeyValue) → sort c ≡ sort d → slot_offset n c ≡ slot_offset n d
unfolding slot_offset
slot_offset-sort n [] [] h = refl
slot_offset-sort n [] (y ∷ d) h =
    absurd (omega (arith, ap length h, length-sort (y ∷ d), length-sort []))
slot_offset-sort n (x ∷ c) [] h =
    absurd (omega (arith, ap length h, length-sort (x ∷ c), length-sort []))
slot_offset-sort n (x ∷ c) (y ∷ d) h = refl

abbrev SortedAlike : List (List KeyValue) → List (List KeyValue) → Type 0
SortedAlike t u = (j : ℕ) → sort (get_or t j []) ≡ sort (get_or u j [])

index_table-sort :
    (n : ℕ) (t u : List (List KeyValue))
    → length t ≡ length u
    → SortedAlike t u
    → index_table n t ≡ index_table n u
unfolding index_table
index_table-sort n [] [] w h = refl
index_table-sort n [] (d ∷ u) w h = absurd (omega arith)
index_table-sort n (c ∷ t) [] w h = absurd (omega arith)
index_table-sort n (c ∷ t) (d ∷ u) w h =
    rw (slot_offset-sort n c d (h 0), packed_chain-sort c d (h 0))
      (ap (λ r. to_le_bytes (slot_offset n d) ++ r)
        (index_table-sort (n + length (packed_chain d)) t u (omega arith) (λ j. h (suc j))))

packed_chains-sort :
    (t u : List (List KeyValue))
    → length t ≡ length u
    → SortedAlike t u
    → packed_chains t ≡ packed_chains u
unfolding packed_chains
packed_chains-sort [] [] w h = refl
packed_chains-sort [] (d ∷ u) w h = absurd (omega arith)
packed_chains-sort (c ∷ t) [] w h = absurd (omega arith)
packed_chains-sort (c ∷ t) (d ∷ u) w h =
    rw (packed_chain-sort c d (h 0))
      (ap (λ r. packed_chain d ++ r) (packed_chains-sort t u (omega arith) (λ j. h (suc j))))

stored_table-sort :
    (t u : List (List KeyValue))
    → length t ≡ length u
    → SortedAlike t u
    → stored_table t ≡ stored_table u
unfolding stored_table
stored_table-sort t u w h = rw (index_table-sort 1 t u w h, packed_chains-sort t u w h) refl

pub room_all-perm : {es fs : List KeyValue} → Perm es fs → room_all es ≡ room_all fs
room_all-perm p = ∥∥₁_elim p (hlevel (ℕ_set)) room_all-Permᴰ

-- The bytes of the file that `store_lookup` writes.
abbrev pub stored_file : (Bytes → ℕ) → ℕ → List KeyValue → Run Bytes
stored_file hash slots es = store_lookup hash true slots es >>= (λ s. ok s.file.bytes)

pub stored_file-ok :
    (hash : Bytes → ℕ) (slots : ℕ) (es : List KeyValue)
    → 0 < slots
    → 1 + room_all es < u32_mod
    → (s : Packer) × (store_lookup hash true slots es ≡ ok s)
      × (stored_file hash slots es ≡ ok s.file.bytes)
stored_file-ok hash slots es pos room =
    let (s, t, run, bytes, table) = store_lookup-stored_table hash slots es pos room in
    (s, run, rw run refl)

-- With at least one slot, and entries whose packed sizes stay below 2^32, `store_lookup` writes the
-- same bytes for the entries in any other order.
pub stored_file-perm :
    (hash : Bytes → ℕ) (slots : ℕ) (es fs : List KeyValue)
    → 0 < slots
    → 1 + room_all es < u32_mod
    → Perm es fs
    → stored_file hash slots es ≡ stored_file hash slots fs
stored_file-perm hash slots es fs pos room p =
    let (s, t, run, bytes, table) = store_lookup-stored_table hash slots es pos room in
    let (s', t', run', bytes', table') =
      store_lookup-stored_table hash slots fs pos (omega (arith, room_all-perm p)) in
    let same : stored_table t ≡ stored_table t' =
      stored_table-sort t t' (table.width ∙ sym table'.width) (λ j.
        rw (table.chains j, table'.chains j)
          (∥∥₁_elim p (entries-set _ _) (λ q. sorted_chain-Permᴰ hash slots j q))) in
    rw (run, run') (ap ok (bytes ∙ same ∙ sym bytes'))
