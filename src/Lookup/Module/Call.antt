-- ===== src/Lookup/Module/Call.antt =====
-- One call of `lookup_callback` by `lookup_ext`: what the host sees and what the module reads back.
use wasm_shared_buffers.Base.{
  ℕ, ◌+◌, ◌%◌, ◌≡◌, ◌≤◌, ◌<◌, ◌⊎◌, refl, sym, ◌∙◌, true, false, none, some, List, Run, ok, ◌>>=◌,
  length, leb, le→leb, if◌then◌else◌, arith,
}
use wasm_shared_buffers.Word.{
  u32_mod, to_le_bytes, from_le_bytes, length-to_le_bytes, from_le_bytes-to_le_bytes,
}
use wasm_shared_buffers.Memory.{
  Memory, load, store, overlay, Holds, load-Holds, get_into-Holds, length-overlay, store-eq-ok,
  set_value, set_value-eq-ok, overlay-Holds, overlay-Holds_apart,
}
use wasm_shared_buffers.Lookup.Callback.{
  success, buffer_too_small, not_found, extract_str, answer, return_value, lookup_callback,
}
use wasm_shared_buffers.Lookup.Entry.{Bytes, KeyValue, find}
use wasm_shared_buffers.Lookup.Module.Calls.{CallBuffers, load_u32}
use wasm_shared_buffers.Lookup.Utf8.{is_utf8}

-- What the allocator promises of the two blocks of an attempt, in a memory of `size` bytes: they
-- lie in the memory and apart from one another, and the first lies apart from the key.
pub record IsPlaced (size key_ptr key_len capacity : ℕ) (p : CallBuffers) : Type 0 where
  pub len_fits : p.value_len + 4 ≤ size
  pub value_fits : p.value + capacity ≤ size
  pub off_key : (key_ptr + key_len ≤ p.value_len) ⊎ (p.value_len + 4 ≤ key_ptr)
  pub off_value : (p.value_len + 4 ≤ p.value) ⊎ (p.value + capacity ≤ p.value_len)

-- The `n` bytes at `q` lie apart from both blocks.
pub record IsOff (capacity : ℕ) (p : CallBuffers) (q n : ℕ) : Type 0 where
  pub off_word : (q + n ≤ p.value_len) ⊎ (p.value_len + 4 ≤ q)
  pub off_buffer : (q + n ≤ p.value) ⊎ (p.value + capacity ≤ q)

pub word_fits : (p n size : ℕ) → p + 4 ≤ size → p + length (to_le_bytes n) ≤ size
word_fits p n size h = omega (arith, length-to_le_bytes n)

module _ (mem : Memory) (p n : ℕ) (fits : p + 4 ≤ length mem) where
  abbrev pub with_word : Memory
  with_word = overlay mem p (to_le_bytes n)

  pub word-Holds : Holds with_word p (to_le_bytes n)
  word-Holds = overlay-Holds mem p (to_le_bytes n) (word_fits p n _ fits)

  pub store_word : store mem p (to_le_bytes n) ≡ ok with_word
  store_word = store-eq-ok mem p (to_le_bytes n) (word_fits p n _ fits)

  pub set_word : set_value mem p (to_le_bytes n) ≡ ok with_word
  set_word = set_value-eq-ok mem p (to_le_bytes n) (word_fits p n _ fits)

  pub size_word : length with_word ≡ length mem
  size_word = length-overlay mem p (to_le_bytes n)

  pub word-Holds_apart :
      (q : ℕ) (cs : Bytes)
      → (q + length cs ≤ p) ⊎ (p + 4 ≤ q)
      → Holds mem q cs
      → Holds with_word q cs
  word-Holds_apart q cs apart h =
      overlay-Holds_apart mem p q (to_le_bytes n) cs (omega (arith, length-to_le_bytes n)) h

pub leb_of_lt : (a b : ℕ) → a < b → leb b a ≡ false
leb_of_lt a b h = ground arith

pub load_u32-Holds :
    (mem : Memory) (p n : ℕ) → n < u32_mod → Holds mem p (to_le_bytes n) → load_u32 mem p ≡ ok n
unfolding load_u32
load_u32-Holds mem p n h held = rw (
  load-Holds mem p 4 (to_le_bytes n) held (sym (length-to_le_bytes n)),
  from_le_bytes-to_le_bytes n h,
)

module _ (lookup : List KeyValue) (key : Bytes) (key_ptr : ℕ) (utf8 : is_utf8 key ≡ true) where
  pub extract-key :
      (mem : Memory) → Holds mem key_ptr key → extract_str mem (length key) key_ptr ≡ ok key
  unfolding extract_str
  extract-key mem held = rw (get_into-Holds mem key_ptr (length key) key held refl, utf8)

  module _ (mem : Memory) (capacity : ℕ) (p : CallBuffers)
      (placed : IsPlaced (length mem) key_ptr (length key) capacity p)
      (held : Holds mem key_ptr key) (bounded : capacity < u32_mod) where
    -- The memory when the host is called.
    abbrev pub boxed : Memory
    boxed = with_word mem p.value_len capacity placed.len_fits

    pub box-fits : p.value_len + 4 ≤ length boxed
    box-fits = omega (arith, size_word mem p.value_len capacity placed.len_fits, placed.len_fits)

    pub key-boxed : Holds boxed key_ptr key
    key-boxed =
        word-Holds_apart mem p.value_len capacity placed.len_fits key_ptr key placed.off_key held

    abbrev pub callback : Run (ℕ × Memory)
    callback = lookup_callback lookup boxed (length key) key_ptr p.value_len p.value

    pub callback-none : find key lookup ≡ none → callback ≡ ok (not_found, boxed)
    unfolding lookup_callback answer
    callback-none e = rw (extract-key boxed key-boxed, e, answer)

    -- The memory after the host has stored the value's length.
    abbrev pub sized : ℕ → Memory
    sized n = with_word boxed p.value_len n box-fits

    pub capacity-read : from_le_bytes (to_le_bytes capacity) ≡ capacity
    capacity-read = from_le_bytes-to_le_bytes capacity bounded

    module _ (v : Bytes) (found : find key lookup ≡ some v) (short : length v < u32_mod) where
      pub cast : length v % u32_mod ≡ length v
      cast = omega arith

      pub answered : callback ≡ (
          if leb (length v) capacity
          then (do mem₂ ← set_value (sized (length v)) p.value v; ok (success, mem₂))
          else ok (buffer_too_small, sized (length v)))
      unfolding lookup_callback answer return_value
      answered = rw (
        extract-key boxed key-boxed,
        found,
        answer,
        get_into-Holds boxed p.value_len 4 (to_le_bytes capacity)
            (word-Holds mem p.value_len capacity placed.len_fits)
            (sym (length-to_le_bytes capacity)),
        cast,
        set_word boxed p.value_len (length v) box-fits,
        capacity-read,
      )

      pub answered_fits :
          length v ≤ capacity → callback ≡ ok (success, overlay (sized (length v)) p.value v)
      answered_fits h =
          let room : p.value + length v ≤ length (sized (length v)) = omega (
            arith,
            placed.value_fits,
            size_word boxed p.value_len (length v) box-fits,
            size_word mem p.value_len capacity placed.len_fits,
          ) in
          answered ∙ rw (le→leb _ _ h, set_value-eq-ok (sized (length v)) p.value v room)

      pub answered_small : capacity < length v → callback ≡ ok (buffer_too_small, sized (length v))
      answered_small h = answered ∙ rw (leb_of_lt capacity (length v) h)

      -- After a success the module reads back the length and the value.
      pub value_read :
          length v ≤ capacity
          → (load_u32 (overlay (sized (length v)) p.value v) p.value_len ≡ ok (length v))
            × (load (overlay (sized (length v)) p.value v) p.value (length v) ≡ ok v)
      value_read h =
          let room : p.value + length v ≤ length (sized (length v)) = omega (
            arith,
            placed.value_fits,
            size_word boxed p.value_len (length v) box-fits,
            size_word mem p.value_len capacity placed.len_fits,
          ) in
          let word = to_le_bytes (length v) in
          (
            load_u32-Holds (overlay (sized (length v)) p.value v) p.value_len (length v) short (
                overlay-Holds_apart (sized (length v)) p.value p.value_len v word
                  (omega (arith, placed.off_value, length-to_le_bytes (length v)))
                  (word-Holds boxed p.value_len (length v) box-fits)),
            load-Holds _ p.value (length v) v (overlay-Holds (sized (length v)) p.value v room)
                refl,
          )

      pub size_read : load_u32 (sized (length v)) p.value_len ≡ ok (length v)
      size_read =
          load_u32-Holds (sized (length v)) p.value_len (length v) short
            (word-Holds boxed p.value_len (length v) box-fits)

      pub key-sized : Holds (sized (length v)) key_ptr key
      key-sized =
          word-Holds_apart boxed p.value_len (length v) box-fits key_ptr key placed.off_key
            key-boxed

      pub size_sized : length (sized (length v)) ≡ length mem
      size_sized =
          size_word boxed p.value_len (length v) box-fits
          ∙ size_word mem p.value_len capacity placed.len_fits

      pub size_filled : length (overlay (sized (length v)) p.value v) ≡ length mem
      size_filled = length-overlay (sized (length v)) p.value v ∙ size_sized

      module _ (q : ℕ) (cs : Bytes) (off : IsOff capacity p q (length cs))
          (h : Holds mem q cs) where
        pub sized-Holds : Holds (sized (length v)) q cs
        sized-Holds =
            word-Holds_apart boxed p.value_len (length v) box-fits q cs off.off_word
              (word-Holds_apart mem p.value_len capacity placed.len_fits q cs off.off_word h)

        pub filled-Holds : length v ≤ capacity → Holds (overlay (sized (length v)) p.value v) q cs
        filled-Holds fits =
            overlay-Holds_apart (sized (length v)) p.value q v cs (omega (arith, off.off_buffer))
              sized-Holds
