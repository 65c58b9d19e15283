-- ===== src/Lookup/Module/TestKeys.antt =====
-- The test keys that `create_context` reads from the module's memory.
use wasm_shared_buffers.Base.{
  ℕ, zero, suc, ◌+◌, ◌≡◌, ◌<◌, refl, sym, ap, List, [], ◌∷◌, ◌++◌, ok, panic, assertion, false,
  length, length-append, All, leb, arith,
}
use wasm_shared_buffers.Word.{u32_mod, add32, to_le_bytes, length-to_le_bytes}
use wasm_shared_buffers.Memory.{Memory, Holds, Holds-append}
use wasm_shared_buffers.Lookup.Entry.{Bytes}
use wasm_shared_buffers.Lookup.Module.{Str, read_keys}
use wasm_shared_buffers.Lookup.Reader.{Reader, read_str, read_u32}
use wasm_shared_buffers.Lookup.Reader.Strings.{advance, Ahead, Ahead-append, read_str-Ahead}
use wasm_shared_buffers.Lookup.Store.Append.{length-packed_str}
use wasm_shared_buffers.Lookup.Store.Format.{packed_str}

-- Packed strings, one after the other.
unfoldable pub packed_strs : List Bytes → Bytes
packed_strs [] = []
packed_strs (k ∷ ks) = packed_str k ++ packed_strs ks

-- Where the strings stand that are packed from `p` on.
unfoldable pub strs_from : ℕ → List Bytes → List Str
strs_from p [] = []
strs_from p (k ∷ ks) = record { ptr = p + 4; bytes = k } ∷ strs_from (p + (4 + length k)) ks

strs_from_at : (p q : ℕ) (ks : List Bytes) → p ≡ q → strs_from p ks ≡ strs_from q ks
strs_from_at p q ks e = ap (λ u. strs_from u ks) e

-- Reading as many keys as are packed ahead gives them, with their places.
pub read_keys-Ahead :
    (mem : Memory) (ks : List Bytes) (r : Reader)
    → Ahead mem r (packed_strs ks)
    → read_keys mem (length ks) r ≡ ok (strs_from (r.buffer + r.offset) ks)
unfolding read_keys packed_strs strs_from
read_keys-Ahead mem [] r a = refl
read_keys-Ahead mem (k ∷ ks) r a =
    let size = length-packed_str k in
    let (h, rest) =
      Ahead-append mem r (packed_str k) (packed_strs ks) (4 + length k) a (sym size) in
    let four : r.buffer + add32 r.offset 4 ≡ r.buffer + r.offset + 4 =
      omega (arith, h.inside, h.bounded) in
    let moved : r.buffer + (r.offset + (4 + length k)) ≡ r.buffer + r.offset + (4 + length k) =
      omega arith in
    rw (
      read_str-Ahead mem r k h,
      read_keys-Ahead mem ks (advance r (4 + length k)) rest,
      four,
      strs_from_at _ _ ks moved,
    )

-- A key past the end of the packed keys fails the reader's assertion.
read_str_end :
    (mem : Memory) (r : Reader)
    → r.offset ≡ r.size
    → r.size + 4 < u32_mod
    → read_str mem r ≡ panic assertion
unfolding read_str read_u32
read_str_end mem r e h = let over : leb (add32 r.offset 4) r.size ≡ false = ground arith in rw over

pub read_keys_short :
    (mem : Memory) (ks : List Bytes) (r : Reader) (n : ℕ)
    → Ahead mem r (packed_strs ks)
    → r.offset + length (packed_strs ks) ≡ r.size
    → r.size + 4 < u32_mod
    → length ks < n
    → read_keys mem n r ≡ panic assertion
unfolding read_keys packed_strs
read_keys_short mem ks r zero a e h lt = absurd (omega arith)
read_keys_short mem [] r (suc n) a e h lt = rw (read_str_end mem r (omega arith) h)
read_keys_short mem (k ∷ ks) r (suc n) a e h lt =
    let size = length-packed_str k in
    let (front, rest) =
      Ahead-append mem r (packed_str k) (packed_strs ks) (4 + length k) a (sym size) in
    let whole = length-append (packed_str k) (packed_strs ks) in
    rw (
      read_str-Ahead mem r k front,
      read_keys_short mem ks (advance r (4 + length k)) n rest (omega arith) h (omega arith),
    )

-- Each key stands where its `Str` says.
abbrev pub AllHeld : Memory → List Str → Type 0
AllHeld mem = All (λ s. Holds mem s.ptr s.bytes)

str-Holds : (mem : Memory) (p : ℕ) (k : Bytes) → Holds mem p (packed_str k) → Holds mem (p + 4) k
unfolding packed_str
str-Holds mem p k h =
    let word = to_le_bytes (length k) in
    (Holds-append mem p (p + 4) word k h (omega (arith, length-to_le_bytes (length k)))).1

pub strs_from-AllHeld :
    (mem : Memory) (p : ℕ) (ks : List Bytes)
    → Holds mem p (packed_strs ks)
    → AllHeld mem (strs_from p ks)
unfolding packed_strs strs_from
strs_from-AllHeld mem p [] h = tt
strs_from-AllHeld mem p (k ∷ ks) h =
    let q = p + (4 + length k) in
    let (front, rest) =
      Holds-append mem p q (packed_str k) (packed_strs ks) h (omega (arith, length-packed_str k)) in
    (str-Holds mem p k front, strs_from-AllHeld mem q ks rest)
