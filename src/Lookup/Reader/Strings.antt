-- ===== src/Lookup/Reader/Strings.antt =====
-- `Reader` on memory that holds packed values: it returns them and stops behind them.
use wasm_shared_buffers.Base.{
  ℕ, ◌+◌, ◌≡◌, ◌≤◌, ◌<◌, refl, ap, sym, true, false, ok, length, ltb, leb, le→leb, arith,
  length-append, Bool-cases, inl, inr, ltb→lt, ◌++◌,
}
use wasm_shared_buffers.Word.{
  u32_mod, add32, to_le_bytes, from_le_bytes-to_le_bytes, length-to_le_bytes,
}
use wasm_shared_buffers.Memory.{Memory, load, Holds, load-Holds, Holds-append}
use wasm_shared_buffers.Lookup.Entry.{Bytes, eq_bytes, eq_bytes_iff}
use wasm_shared_buffers.Lookup.Reader.{Reader, read_u32, read_str, check_key, skip_str}
use wasm_shared_buffers.Lookup.Store.Format.{packed_str}

abbrev pub advance : Reader → ℕ → Reader
advance r n = record r { offset = r.offset + n }

-- The memory holds `bs` where the reader stands, inside the reader's size, and the reader's buffer ends
-- below 2^32.
pub record Ahead (mem : Memory) (r : Reader) (bs : Bytes) : Type 0 where
  pub held : Holds mem (r.buffer + r.offset) bs
  pub inside : r.offset + length bs ≤ r.size
  pub bounded : r.size < u32_mod
  pub below : r.buffer + r.size < u32_mod

pub Ahead-append :
    (mem : Memory) (r : Reader) (xs ys : Bytes) (n : ℕ)
    → Ahead mem r (xs ++ ys)
    → n ≡ length xs
    → Ahead mem r xs × Ahead mem (advance r n) ys
Ahead-append mem r xs ys n a e =
    let (h, k) =
      Holds-append mem (r.buffer + r.offset) (r.buffer + (r.offset + n)) xs ys a.held
        (omega arith) in
    let size = length-append xs ys in
    (
      record { held = h; inside = omega (arith, a.inside); bounded = a.bounded; below = a.below },
      record { held = k; inside = omega (arith, a.inside); bounded = a.bounded; below = a.below },
    )

add32-eq-add : (a b s : ℕ) → a + b ≤ s → s < u32_mod → add32 a b ≡ a + b
add32-eq-add a b s h k = omega arith

eq_bytes-shorter : (s key : Bytes) → length s < length key → eq_bytes s key ≡ false
eq_bytes-shorter s key h = elim (Bool-cases (eq_bytes s key)) [
  | inl same ↦ absurd (omega (arith, ap length ((eq_bytes_iff s key).0 same)))
  | inr apart ↦ apart
]

module _ (mem : Memory) (r : Reader) where
  pub read_u32-Ahead :
      (n : ℕ) → n < u32_mod → Ahead mem r (to_le_bytes n) → read_u32 mem r ≡ ok (n, advance r 4)
  unfolding read_u32
  read_u32-Ahead n h a =
      let four = length-to_le_bytes n in
      let sum = add32-eq-add r.offset 4 r.size (omega (arith, a.inside)) a.bounded in
      let address =
        add32-eq-add r.buffer r.offset (r.buffer + r.size) (omega (arith, a.inside)) a.below in
      rw (
        sum,
        address,
        le→leb (r.offset + 4) r.size (omega (arith, a.inside)),
        load-Holds mem (r.buffer + r.offset) 4 (to_le_bytes n) a.held (omega arith),
        from_le_bytes-to_le_bytes n h,
      )

  -- The bytes of a packed string, past its length.
  body-Ahead :
      (s : Bytes)
      → Ahead mem r (packed_str s)
      → Ahead mem r (to_le_bytes (length s)) × Ahead mem (advance r 4) s
  unfolding packed_str
  body-Ahead s a =
      Ahead-append mem r (to_le_bytes (length s)) s 4 a (sym (length-to_le_bytes (length s)))

  module _ (s : Bytes) (a : Ahead mem r (packed_str s)) where
    abbrev past : Reader
    past = advance r (4 + length s)

    short : length s < u32_mod
    short = omega (arith, (body-Ahead s a).1.inside, a.bounded)

    first : read_u32 mem r ≡ ok (length s, advance r 4)
    first = read_u32-Ahead (length s) short (body-Ahead s a).0

    sum : add32 (r.offset + 4) (length s) ≡ r.offset + (4 + length s)
    sum =
        let b = (body-Ahead s a).1 in
        omega (arith, add32-eq-add (r.offset + 4) (length s) r.size b.inside b.bounded)

    room : leb (r.offset + (4 + length s)) r.size ≡ true
    room = le→leb _ _ (omega (arith, (body-Ahead s a).1.inside))

    body : load mem (add32 r.buffer (r.offset + 4)) (length s) ≡ ok s
    body =
        let b = (body-Ahead s a).1 in
        rw
          (add32-eq-add r.buffer (r.offset + 4) (r.buffer + r.size) (omega (arith, b.inside))
            b.below)
          (load-Holds mem _ (length s) s b.held refl)

    pub read_str-Ahead : read_str mem r ≡ ok (s, past)
    unfolding read_str
    read_str-Ahead = rw (first, sum, room, body)

    pub skip_str-Ahead : skip_str mem r ≡ ok past
    unfolding skip_str
    skip_str-Ahead = rw (first, sum, room)

    -- At a packed string inside the reader's size, in a buffer that ends below 2^32, `check_key` answers
    -- whether the string is the key, also by its shortcut for shorter strings, and stops behind the
    -- string.
    pub check_key-Ahead : (key : Bytes) → check_key mem key r ≡ ok (eq_bytes s key, past)
    unfolding check_key
    check_key-Ahead key = elim (Bool-cases (ltb (length s) (length key))) [
      | inl less ↦ rw (first, sum, room, less, eq_bytes-shorter s key (ltb→lt _ _ less))
      | inr long ↦ rw (first, sum, room, long, body)
    ]
