-- ===== src/Lookup/Store/Append.antt =====
-- What the appending steps of the packing loop do to the file and to the offset.
use wasm_shared_buffers.Base.{
  ℕ, ◌+◌, ◌%◌, ◌≡◌, ◌<◌, refl, sym, ◌∙◌, List, [], ◌∷◌, ◌++◌, length, length-append, append_assoc,
  append-nil, arith,
}
use wasm_shared_buffers.Word.{u32_mod, to_le_bytes, length-to_le_bytes}
use wasm_shared_buffers.Lookup.Entry.{Bytes, KeyValue}
use wasm_shared_buffers.Lookup.File.{write_all, write_at_end}
use wasm_shared_buffers.Lookup.Store.{Packer, append_u32, append_bytes, append_pairs}
use wasm_shared_buffers.Lookup.Store.Format.{packed_str, packed_pairs}

-- From `s` to `t` the bytes `bs` went to the end of the file, where the position now stands.
pub record Appends (s t : Packer) (bs : Bytes) : Type 0 where
  pub bytes : t.file.bytes ≡ s.file.bytes ++ bs
  pub pos : t.file.pos ≡ length t.file.bytes
  pub offset : t.offset ≡ s.offset + length bs
  pub num_chains : t.num_chains ≡ s.num_chains
  pub sum_chain : t.sum_chain ≡ s.sum_chain
  pub max_chain : t.max_chain ≡ s.max_chain

Appends-trans :
    (s t u : Packer) (xs ys : Bytes) → Appends s t xs → Appends t u ys → Appends s u (xs ++ ys)
Appends-trans s t u xs ys a b = record {
  bytes = b.bytes ∙ rw (a.bytes) (append_assoc s.file.bytes xs ys);
  pos = b.pos;
  offset = omega (arith, a.offset, b.offset, length-append xs ys);
  num_chains = b.num_chains ∙ a.num_chains;
  sum_chain = b.sum_chain ∙ a.sum_chain;
  max_chain = b.max_chain ∙ a.max_chain;
}

abbrev IsAtEnd : Packer → Type 0
IsAtEnd s = s.file.pos ≡ length s.file.bytes

pub append_bytes-Appends :
    (s : Packer) (bs : Bytes)
    → s.file.pos ≡ length s.file.bytes
    → s.offset + length bs < u32_mod
    → Appends s (append_bytes s bs) bs
unfolding append_bytes write_all
append_bytes-Appends s [] e h = record {
  bytes = sym (append-nil s.file.bytes);
  pos = e;
  offset = omega arith;
  num_chains = refl;
  sum_chain = refl;
  max_chain = refl;
}
append_bytes-Appends s (b ∷ bs) e h = record {
  bytes = rw e (write_at_end s.file.bytes (b ∷ bs));
  pos = rw (e, write_at_end s.file.bytes (b ∷ bs), length-append s.file.bytes (b ∷ bs));
  offset = omega arith;
  num_chains = refl;
  sum_chain = refl;
  max_chain = refl;
}

pub append_u32-Appends :
    (s : Packer) (n : ℕ)
    → s.file.pos ≡ length s.file.bytes
    → s.offset + 4 < u32_mod
    → Appends s (append_u32 s n) (to_le_bytes n)
unfolding append_u32 append_bytes to_le_bytes
append_u32-Appends s n e h = append_bytes-Appends s (to_le_bytes n) e h

pub length-packed_str : (k : Bytes) → length (packed_str k) ≡ 4 + length k
unfolding packed_str
length-packed_str k =
    omega (arith, length-append (to_le_bytes (length k)) k, length-to_le_bytes (length k))

append_str-Appends :
    (s : Packer) (k : Bytes)
    → s.file.pos ≡ length s.file.bytes
    → s.offset + length (packed_str k) < u32_mod
    → Appends s (append_bytes (append_u32 s (length k % u32_mod)) k) (packed_str k)
append_str-Appends s k e h =
    let n = length-packed_str k in
    let short : length k % u32_mod ≡ length k = omega arith in
    let a = append_u32-Appends s (length k) e (omega arith) in
    let b =
      append_bytes-Appends (append_u32 s (length k)) k a.pos
        (omega (arith, length-to_le_bytes (length k))) in
    rw short (unfold packed_str in Appends-trans _ _ _ _ _ a b)

pub append_pairs-Appends :
    (es : List KeyValue) (s : Packer)
    → s.file.pos ≡ length s.file.bytes
    → s.offset + length (packed_pairs es) < u32_mod
    → Appends s (append_pairs s es) (packed_pairs es)
unfolding append_pairs packed_pairs
append_pairs-Appends [] s e h = record {
  bytes = sym (append-nil s.file.bytes);
  pos = e;
  offset = omega arith;
  num_chains = refl;
  sum_chain = refl;
  max_chain = refl;
}
append_pairs-Appends (x ∷ es) s e h =
    let n = length-append (packed_str x.key) (packed_str x.val ++ packed_pairs es) in
    let m = length-append (packed_str x.val) (packed_pairs es) in
    let t = append_bytes (append_u32 s (length x.key % u32_mod)) x.key in
    let u = append_bytes (append_u32 t (length x.val % u32_mod)) x.val in
    let a = append_str-Appends s x.key e (omega arith) in
    let b = append_str-Appends t x.val a.pos (omega (arith, a.offset)) in
    let c = append_pairs-Appends es u b.pos (omega (arith, a.offset, b.offset)) in
    Appends-trans s t _ _ _ a (Appends-trans t u _ _ _ b c)
