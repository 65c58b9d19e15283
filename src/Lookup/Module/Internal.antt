-- ===== src/Lookup/Module/Internal.antt =====
-- `lookup_int` on a memory that maps a stored table.
use Prim.Native.Nat.{◌∣◌}
use native.Mathlib.Nat.{mod-mod_of_dvd}
use wasm_shared_buffers.Base.{
  ℕ, suc, ◌+◌, ◌*◌, ◌%◌, ◌≡◌, ◌≢◌, ◌≤◌, ◌<◌, refl, ap, sym, ◌∙◌, List, [], ◌∷◌, ◌++◌, length,
  get_or, true, Bool-cases, inl, inr, none, ok, lt→ltb, arith,
}
use wasm_shared_buffers.Word.{u32_mod, to_le_bytes, length-to_le_bytes, from_le_bytes-to_le_bytes}
use wasm_shared_buffers.Memory.{Memory, Holds, load-Holds, Holds-append}
use wasm_shared_buffers.Lookup.Entry.{Bytes, KeyValue, eq_bytes, find, Distinct, sort, find-sort}
use wasm_shared_buffers.Lookup.Reader.{Reader, read_u32}
use wasm_shared_buffers.Lookup.Reader.Strings.{
  advance, Ahead, Ahead-append, read_u32-Ahead, read_str-Ahead, skip_str-Ahead, check_key-Ahead,
}
use wasm_shared_buffers.Lookup.Store.{Packer, store_lookup, rem}
use wasm_shared_buffers.Lookup.Store.Append.{length-packed_str}
use wasm_shared_buffers.Lookup.Store.Fill.{
  chain_at, find-chain_at, find-chain_at_apart, chain_at-Distinct, room_all,
}
use wasm_shared_buffers.Lookup.Store.Format.{
  packed_str, packed_pairs, packed_chain, packed_chains, slot_offset, stored_table,
}
use wasm_shared_buffers.Lookup.Store.Locate.{Located, locate, length-stored_table}
use wasm_shared_buffers.Lookup.Store.Pack.{length-le-packed_pairs}
use wasm_shared_buffers.Lookup.Store.Result.{IsTable, store_lookup-stored_table}
use wasm_shared_buffers.Lookup.Module.{Context, index_at, search_chain, search_slot, lookup_int}

rem-pos : (a n : ℕ) → 0 < n → rem a n ≡ ok (a % n)
rem-pos a n h = ground arith

-- The search over the pairs of a chain finds what `find` does.
search_chain-Ahead :
    (mem : Memory) (key : Bytes) (es : List KeyValue) (r : Reader)
    → Ahead mem r (packed_pairs es)
    → search_chain mem key (length es) r ≡ ok (find key es)
unfolding search_chain packed_pairs find
search_chain-Ahead mem key [] r a = refl
search_chain-Ahead mem key (e ∷ es) r a =
    let rest = packed_str e.val ++ packed_pairs es in
    let (k, a₁) =
      Ahead-append mem r (packed_str e.key) rest (4 + length e.key) a
        (sym (length-packed_str e.key)) in
    let r₁ = advance r (4 + length e.key) in
    let (v, a₂) =
      Ahead-append mem r₁ (packed_str e.val) (packed_pairs es) (4 + length e.val) a₁
        (sym (length-packed_str e.val)) in
    let checked = check_key-Ahead mem r e.key k key in
    elim (Bool-cases (eq_bytes e.key key)) [
      | inl same ↦ rw (checked, same, read_str-Ahead mem r₁ e.val v)
      | inr apart ↦
          rw (checked, apart, skip_str-Ahead mem r₁ e.val v)
            (search_chain-Ahead mem key es (advance r₁ (4 + length e.val)) a₂)
    ]

slot_offset-le : (n : ℕ) (c : List KeyValue) → slot_offset n c ≤ n
unfolding slot_offset
slot_offset-le n [] = omega arith
slot_offset-le n (x ∷ c) = omega arith

-- The context's index table and packed region are those of the stored table `t`, and end below 2^32.
pub record IsMapped (mem : Memory) (ctx : Context) (t : List (List KeyValue)) : Type 0 where
  pub held : Holds mem ctx.index (stored_table t)
  pub index_len : ctx.index_len ≡ length t
  pub lookup : ctx.lookup ≡ ctx.index + length t * 4
  pub lookup_bytes : ctx.lookup_bytes ≡ 1 + length (packed_chains t)
  pub below : ctx.lookup + ctx.lookup_bytes < u32_mod

module _ (mem : Memory) (ctx : Context) (t : List (List KeyValue)) (m : IsMapped mem ctx t)
    (small : 1 + length (packed_chains t) < u32_mod) where
  slot_offset-lt : (i : ℕ) (l : Located t i) → slot_offset (suc l.before) (get_or t i []) < u32_mod
  slot_offset-lt i l = omega (arith, slot_offset-le (suc l.before) (get_or t i []), l.within)

  index_at-slot_offset :
      (i : ℕ) (l : Located t i)
      → i < length t
      → index_at mem ctx i ≡ ok (slot_offset (suc l.before) (get_or t i []))
  unfolding index_at
  index_at-slot_offset i l h =
      let n = slot_offset (suc l.before) (get_or t i []) in
      let held : Holds mem ctx.index (l.index_before ++ (to_le_bytes n ++ l.index_after)) =
        rw l.index at m.held in
      let (_, behind) =
        Holds-append mem ctx.index (ctx.index + i * 4) l.index_before _ held
          (omega (arith, l.index_at)) in
      let (entry, _) =
        Holds-append mem (ctx.index + i * 4) (ctx.index + i * 4 + 4) (to_le_bytes n) l.index_after
          behind (omega (arith, length-to_le_bytes n)) in
      rw (
        lt→ltb i ctx.index_len (omega (arith, m.index_len)),
        load-Holds mem (ctx.index + i * 4) 4 (to_le_bytes n) entry (sym (length-to_le_bytes n)),
        from_le_bytes-to_le_bytes n (slot_offset-lt i l),
      )

  -- A reader at a packed chain: the number of its pairs, then the pairs.
  chain-Ahead :
      (r : Reader) (x : KeyValue) (c : List KeyValue)
      → Ahead mem r (packed_chain (x ∷ c))
      → (read_u32 mem r ≡ ok (length (sort (x ∷ c)), advance r 4))
        × Ahead mem (advance r 4) (packed_pairs (sort (x ∷ c)))
  unfolding packed_chain
  chain-Ahead r x c a =
      let list = sort (x ∷ c) in
      let header = to_le_bytes (length list) in
      let four = length-to_le_bytes (length list) in
      let (h, p) = Ahead-append mem r header (packed_pairs list) 4 a (sym four) in
      (
        read_u32-Ahead mem r (length list)
            (omega (arith, p.inside, p.bounded, length-le-packed_pairs list)) h,
        p,
      )

  abbrev chain_reader : ℕ → Reader
  chain_reader offset = record { buffer = ctx.lookup; size = ctx.lookup_bytes; offset = offset }

  Located-Ahead :
      (i : ℕ) (l : Located t i)
      → Ahead mem (chain_reader (suc l.before)) (packed_chain (get_or t i []))
  Located-Ahead i l =
      let c = packed_chain (get_or t i []) in
      let held : Holds mem ctx.index (l.chain_before ++ (c ++ l.chain_after)) =
        rw l.chain at m.held in
      let (_, behind) =
        Holds-append mem ctx.index (ctx.lookup + suc l.before) l.chain_before (c ++ l.chain_after)
          held (omega (arith, m.lookup, l.chain_at)) in
      let (here, _) =
        Holds-append mem (ctx.lookup + suc l.before) (ctx.lookup + suc l.before + length c) c
          l.chain_after behind refl in
      record {
        held = here;
        inside = omega (arith, m.lookup_bytes, l.within);
        bounded = omega (arith, m.lookup_bytes);
        below = m.below;
      }

  search_slot-Ahead :
      (key : Bytes) (n : ℕ) (c : List KeyValue)
      → Ahead mem (chain_reader (suc n)) (packed_chain c)
      → search_slot mem ctx key (slot_offset (suc n) c) ≡ ok (find key (sort c))
  unfolding search_slot slot_offset
  search_slot-Ahead key n [] a = unfold find sort in refl
  search_slot-Ahead key n (x ∷ c) a =
      let (run, pairs) = chain-Ahead (chain_reader (suc n)) x c a in
      rw (lt→ltb 0 (suc n) (omega arith), run)
        (search_chain-Ahead mem key (sort (x ∷ c)) (advance (chain_reader (suc n)) 4) pairs)

  -- `lookup_int` finds what the sorted chain of the key's slot holds.
  pub lookup_int-sort :
      (hash : Bytes → ℕ) (key : Bytes)
      → 0 < length t
      → lookup_int mem hash ctx key
        ≡ ok (find key (sort (get_or t (hash key % u32_mod % length t) [])))
  unfolding lookup_int
  lookup_int-sort hash key pos =
      let i = hash key % u32_mod % length t in
      let l = locate t i (omega arith) in
      let chosen : rem (hash key % u32_mod) ctx.index_len ≡ ok i =
        ap (rem (hash key % u32_mod)) m.index_len ∙ rem-pos (hash key % u32_mod) (length t) pos in
      rw (chosen, index_at-slot_offset i l (omega arith))
        (search_slot-Ahead key l.before (get_or t i []) (Located-Ahead i l))

-- With a number of slots that divides 2^32, `lookup_int` on a mapped table answers as the map does.
pub lookup_int-find :
    (hash : Bytes → ℕ) (slots : ℕ) (es : List KeyValue) (t : List (List KeyValue)) (mem : Memory)
    (ctx : Context) (key : Bytes)
    → 0 < slots
    → slots ∣ u32_mod
    → Distinct es
    → IsTable hash slots es t
    → IsMapped mem ctx t
    → lookup_int mem hash ctx key ≡ ok (find key es)
lookup_int-find hash slots es t mem ctx key pos divides d table m =
    let i = hash key % slots in
    let home : hash key % u32_mod % length t ≡ i =
      rw table.width (mod-mod_of_dvd slots (hash key) divides) in
    lookup_int-sort mem ctx t m table.small hash key (omega (arith, table.width))
    ∙ rw (home, table.chains i)
        (ap ok (
          find-sort key (chain_at hash slots i es) (chain_at-Distinct hash slots i es d)
          ∙ find-chain_at hash slots key es))

-- The host places a key by all 64 bits of its hash, the module looks for it by the low 32. Where
-- the two slots differ, `lookup_int` finds nothing, also if the key is in the map.
pub lookup_int_misses :
    (hash : Bytes → ℕ) (slots : ℕ) (es : List KeyValue) (t : List (List KeyValue)) (mem : Memory)
    (ctx : Context) (key : Bytes)
    → 0 < slots
    → hash key % u32_mod % slots ≢ hash key % slots
    → Distinct es
    → IsTable hash slots es t
    → IsMapped mem ctx t
    → lookup_int mem hash ctx key ≡ ok none
lookup_int_misses hash slots es t mem ctx key pos differ d table m =
    let i = hash key % u32_mod % slots in
    let chain = chain_at hash slots i es in
    lookup_int-sort mem ctx t m table.small hash key (omega (arith, table.width))
    ∙ rw (table.width, table.chains i)
        (ap ok (
          find-sort key chain (chain_at-Distinct hash slots i es d)
          ∙ find-chain_at_apart hash slots key i es differ))

-- From `store_lookup` to `lookup_int`: with a number of slots, at least one, that divides 2^32, and
-- distinct keys whose packed entries stay below 2^32 bytes: where the module's memory, of fewer than 2^32
-- bytes, holds the file that the host has stored, and the context describes it, `lookup_int` answers
-- as `HashMap::get` on the map.
pub lookup_int-store_lookup :
    (hash : Bytes → ℕ) (slots : ℕ) (es : List KeyValue) (s : Packer) (mem : Memory) (ctx : Context)
    (key : Bytes)
    → 0 < slots
    → slots ∣ u32_mod
    → Distinct es
    → 1 + room_all es < u32_mod
    → length mem < u32_mod
    → store_lookup hash true slots es ≡ ok s
    → Holds mem ctx.index s.file.bytes
    → ctx.index_len ≡ slots
    → ctx.lookup ≡ ctx.index + slots * 4
    → ctx.lookup_bytes + slots * 4 ≡ length s.file.bytes
    → lookup_int mem hash ctx key ≡ ok (find key es)
lookup_int-store_lookup hash slots es s mem ctx key pos divides d room below run held n at size =
    let (s', t, run', bytes, table) = store_lookup-stored_table hash slots es pos room in
    let same : s' ≡ s = cc (run, run') in
    let stored : s.file.bytes ≡ stored_table t = rw (← same) bytes in
    lookup_int-find hash slots es t mem ctx key pos divides d table (record {
      held = rw stored at held;
      index_len = n ∙ sym table.width;
      lookup = at ∙ rw table.width refl;
      lookup_bytes = omega (arith, ap length stored, length-stored_table t, table.width);
      below = omega (arith, held.fits);
    })
