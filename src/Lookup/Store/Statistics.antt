-- ===== src/Lookup/Store/Statistics.antt =====
-- The statistics that `store_lookup` prints.
use wasm_shared_buffers.Base.{
  ℕ, zero, suc, ◌+◌, ◌≡◌, ◌≤◌, max, refl, true, List, [], ◌∷◌, ◌++◌, length, length-append, ◌*◌,
  ◌%◌, replicate, ok, arith, >>=-eq-ok,
}
use wasm_shared_buffers.Lookup.Entry.{Bytes, KeyValue, sort}
use wasm_shared_buffers.Lookup.Entry.Order.{length-sort}
use wasm_shared_buffers.Word.{u32_mod}
use wasm_shared_buffers.Lookup.File.{File, seek_start, seek_end}
use wasm_shared_buffers.Lookup.Store.{
  Packer, write_u32, append_u32, append_bytes, append_pairs, pack_slot, pack_slots, push_at, fill,
  rem, first_packer, store_lookup,
}

-- How many slots are used, how many pairs there are, and how long the longest chain is.
abbrev pub used : List (List KeyValue) → ℕ
used [] = 0
used ([] ∷ t) = used t
used ((e ∷ es) ∷ t) = suc (used t)

abbrev pub total : List (List KeyValue) → ℕ
total [] = 0
total (c ∷ t) = length c + total t

abbrev pub longest : List (List KeyValue) → ℕ
longest [] = 0
longest (c ∷ t) = max (length c) (longest t)

record SameStatistics (s t : Packer) : Type 0 where
  num_chains : t.num_chains ≡ s.num_chains
  sum_chain : t.sum_chain ≡ s.sum_chain
  max_chain : t.max_chain ≡ s.max_chain

append_pairs-SameStatistics :
    (es : List KeyValue) (s : Packer) → SameStatistics s (append_pairs s es)
unfolding append_pairs append_u32 append_bytes
append_pairs-SameStatistics [] s = record { num_chains = refl; sum_chain = refl; max_chain = refl }
append_pairs-SameStatistics (e ∷ es) s =
    let k = append_pairs-SameStatistics es _ in
    record { num_chains = k.num_chains; sum_chain = k.sum_chain; max_chain = k.max_chain }

pack_slot_statistics :
    (c : List KeyValue) (i : ℕ) (s : Packer)
    → ((pack_slot i c s).num_chains ≡ s.num_chains + used (c ∷ []))
      × ((pack_slot i c s).sum_chain ≡ s.sum_chain + length c)
      × ((pack_slot i c s).max_chain ≡ max (length c) s.max_chain)
unfolding pack_slot append_u32
pack_slot_statistics [] i s = (omega arith, omega arith, omega arith)
pack_slot_statistics (e ∷ es) i s =
    let list = sort (e ∷ es) in
    let f : File = seek_end (write_u32 (seek_start s.file (i * 4)) s.offset).0 in
    let headed : Packer = append_u32 (record s { file = f }) (length list % u32_mod) in
    let k = append_pairs-SameStatistics list headed in
    let n = length-sort (e ∷ es) in
    (omega (arith, k.num_chains), omega (arith, k.sum_chain, n), omega (arith, k.max_chain, n))

used-cons : (c : List KeyValue) (t : List (List KeyValue)) → used (c ∷ t) ≡ used (c ∷ []) + used t
used-cons [] t = omega arith
used-cons (e ∷ es) t = omega arith

-- The packing loop counts the used slots and the pairs, and finds the longest chain.
pack_slots_statistics :
    (t : List (List KeyValue)) (i : ℕ) (s : Packer)
    → ((pack_slots i t s).num_chains ≡ s.num_chains + used t)
      × ((pack_slots i t s).sum_chain ≡ s.sum_chain + total t)
      × ((pack_slots i t s).max_chain ≡ max (longest t) s.max_chain)
unfolding pack_slots
pack_slots_statistics [] i s = (omega arith, omega arith, omega arith)
pack_slots_statistics (c ∷ t) i s =
    let (n, sum, m) = pack_slots_statistics t (i + 1) (pack_slot i c s) in
    let (n', sum', m') = pack_slot_statistics c i s in
    (omega (arith, n, n', used-cons c t), omega (arith, sum, sum'), omega (arith, m, m'))

push_at-total :
    (t : List (List KeyValue)) (i : ℕ) (e : KeyValue) (u : List (List KeyValue))
    → push_at t i e ≡ ok u
    → total u ≡ total t + 1
unfolding push_at
push_at-total [] i e u h = absurd (cc h)
push_at-total (c ∷ t) zero e u h =
    let same : (c ++ (e ∷ [])) ∷ t ≡ u = cc h in
    rw (← same) (omega (arith, length-append c (e ∷ [])))
push_at-total (c ∷ t) (suc i) e u h =
    let (t', run, rest) = >>=-eq-ok (push_at t i e) (λ t'. ok (c ∷ t')) h in
    let same : c ∷ t' ≡ u = cc rest in rw (← same) (omega (arith, push_at-total t i e t' run))

fill-total :
    (hash : Bytes → ℕ) (slots : ℕ) (es : List KeyValue) (t u : List (List KeyValue))
    → fill hash slots es t ≡ ok u
    → total u ≡ total t + length es
unfolding fill
fill-total hash slots [] t u h = let same : t ≡ u = cc h in rw (← same) (omega arith)
fill-total hash slots (e ∷ es) t u h =
    let (i, _, rest) = >>=-eq-ok (rem (hash e.key) slots) _ h in
    let (t', run, rest') = >>=-eq-ok (push_at t i e) _ rest in
    omega (arith, push_at-total t i e t' run, fill-total hash slots es t' u rest')

total-replicate : (n : ℕ) → total (replicate n []) ≡ 0
total-replicate zero = refl
total-replicate (suc n) = omega (arith, total-replicate n)

longest-le-total : (t : List (List KeyValue)) → longest t ≤ total t
longest-le-total [] = omega arith
longest-le-total (c ∷ t) = omega (arith, longest-le-total t)

used-le-total : (t : List (List KeyValue)) → used t ≤ total t
used-le-total [] = omega arith
used-le-total ([] ∷ t) = omega (arith, used-le-total t)
used-le-total ((e ∷ es) ∷ t) = omega (arith, used-le-total t)

mul_mono : (n a b : ℕ) → a ≤ b → n * a ≤ n * b
mul_mono n a b h = grind arith

total-le-mul : (t : List (List KeyValue)) → total t ≤ used t * longest t
total-le-mul [] = omega arith
total-le-mul ([] ∷ t) =
    let m : max 0 (longest t) ≡ longest t = omega arith in rw m (omega (arith, total-le-mul t))
total-le-mul ((e ∷ es) ∷ t) =
    let m = max (suc (length es)) (longest t) in
    omega (arith, total-le-mul t, mul_mono (used t) (longest t) m (omega arith))

-- When `store_lookup` succeeds, its statistics add up: `sum_chain` is the number of entries of the
-- map, neither the number of chains nor the longest chain is larger, and the number of entries is
-- at most their product.
pub store_lookup_statistics :
    (hash : Bytes → ℕ) (slots : ℕ) (es : List KeyValue) (s : Packer)
    → store_lookup hash true slots es ≡ ok s
    → (s.sum_chain ≡ length es)
      × (s.num_chains ≤ length es)
      × (s.max_chain ≤ length es)
      × (length es ≤ s.num_chains * s.max_chain)
unfolding store_lookup first_packer
store_lookup_statistics hash slots es s h =
    let (t, run, rest) = >>=-eq-ok (fill hash slots es (replicate slots [])) _ h in
    let same : pack_slots 0 t (first_packer slots) ≡ s = cc rest in
    let (n, sum, m) = pack_slots_statistics t 0 (first_packer slots) in
    let size : total t ≡ length es =
      omega (arith, fill-total hash slots es (replicate slots []) t run, total-replicate slots) in
    let chains : (pack_slots 0 t (first_packer slots)).num_chains ≡ used t = omega arith in
    let longest_chain : (pack_slots 0 t (first_packer slots)).max_chain ≡ longest t = omega arith in
    rw (← same) (
      omega arith,
      omega (arith, used-le-total t),
      omega (arith, longest-le-total t),
      rw (chains, longest_chain, ← size) (total-le-mul t),
    )
