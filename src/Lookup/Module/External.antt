-- ===== src/Lookup/Module/External.antt =====
-- `lookup_ext` against the host's map: the first attempt succeeds, or asks for the right size.
use wasm_shared_buffers.Base.{
  ℕ, suc, ◌≡◌, ◌≤◌, ◌<◌, inl, inr, refl, ◌∙◌, true, Bool-cases, Option, Option-cases, none, some,
  List, Run, ok, length, leb, leb→le, arith,
}
use wasm_shared_buffers.Word.{u32_mod, to_le_bytes}
use wasm_shared_buffers.Memory.{Memory, store, overlay, Holds}
use wasm_shared_buffers.Lookup.Entry.{Bytes, KeyValue, find}
use wasm_shared_buffers.Lookup.Module.{Context}
use wasm_shared_buffers.Lookup.Module.Calls.{CallBuffers, Allocator, attempts, lookup_ext}
use wasm_shared_buffers.Lookup.Utf8.{is_utf8}
use wasm_shared_buffers.Lookup.Module.Call.{
  IsPlaced, store_word, boxed, sized, callback-none, answered_fits, answered_small, value_read,
  size_read, size_sized, key-sized, size_filled, sized-Holds, filled-Holds, IsOff, word-Holds_apart,
  size_word,
}

-- From `mem` to `m` the size is kept, and what lies apart from the blocks `p` too.
record Keeps (mem m : Memory) (capacity : ℕ) (p : CallBuffers) : Type 0 where
  pub size : length m ≡ length mem
  pub holds : (q : ℕ) (cs : Bytes) → IsOff capacity p q (length cs) → Holds mem q cs → Holds m q cs

-- One attempt, on each answer of the host.
module _ (lookup : List KeyValue) (key : Bytes) (key_ptr : ℕ) (utf8 : is_utf8 key ≡ true)
    (alloc : Allocator) (n capacity : ℕ) (mem : Memory)
    (placed : IsPlaced (length mem) key_ptr (length key) capacity (alloc n capacity))
    (held : Holds mem key_ptr key) (bounded : capacity < u32_mod) where
  abbrev buffers : CallBuffers
  buffers = alloc n capacity

  abbrev attempt : Run (Option Bytes × Memory)
  attempt = attempts lookup alloc (length key) key_ptr (suc n) capacity mem

  stored :
      store mem buffers.value_len (to_le_bytes capacity)
      ≡ ok (boxed lookup key key_ptr utf8 mem capacity buffers placed held bounded)
  stored = store_word mem buffers.value_len capacity placed.len_fits

  attempt-none :
      find key lookup ≡ none
      → (m : Memory) × (attempt ≡ ok (none, m)) × Keeps mem m capacity buffers
  unfolding attempts
  attempt-none e = (
    boxed lookup key key_ptr utf8 mem capacity buffers placed held bounded,
    rw (stored, callback-none lookup key key_ptr utf8 mem capacity buffers placed held bounded e),
    record {
      size = size_word mem buffers.value_len capacity placed.len_fits;
      holds = λ q cs off.
          word-Holds_apart mem buffers.value_len capacity placed.len_fits q cs off.off_word;
    },
  )

  module _ (v : Bytes) (found : find key lookup ≡ some v) (short : length v < u32_mod) where
    abbrev with_length : Memory
    with_length = sized lookup key key_ptr utf8 mem capacity buffers placed held bounded (length v)

    attempt-fits :
        length v ≤ capacity
        → (m : Memory) × (attempt ≡ ok (some v, m)) × Keeps mem m capacity buffers
    unfolding attempts
    attempt-fits h =
        let (len, value) =
          value_read lookup key key_ptr utf8 mem capacity buffers placed held bounded v found short
            h in
        (
          overlay with_length buffers.value v,
          rw (
            stored,
            answered_fits lookup key key_ptr utf8 mem capacity buffers placed held bounded v found
                short h,
            len,
            value,
          ),
          record {
            size =
                size_filled lookup key key_ptr utf8 mem capacity buffers placed held bounded v found
                  short;
            holds = λ q cs off k.
                filled-Holds lookup key key_ptr utf8 mem capacity buffers placed held bounded v
                  found short q cs off k h;
          },
        )

    -- A small buffer leads to the next attempt, at the value's length.
    attempt-small :
        capacity < length v
        → (m : Memory) × (attempt ≡ attempts lookup alloc (length key) key_ptr n (length v) m)
          × Keeps mem m capacity buffers
          × Holds m key_ptr key
    unfolding attempts
    attempt-small h = (
      with_length,
      rw (
        stored,
        answered_small lookup key key_ptr utf8 mem capacity buffers placed held bounded v found
            short h,
        size_read lookup key key_ptr utf8 mem capacity buffers placed held bounded v found short,
      ),
      record {
        size =
            size_sized lookup key key_ptr utf8 mem capacity buffers placed held bounded v found
              short;
        holds = λ q cs off k.
            sized-Holds lookup key key_ptr utf8 mem capacity buffers placed held bounded v found
              short q cs off k;
      },
      key-sized lookup key key_ptr utf8 mem capacity buffers placed held bounded v found short,
    )

-- What both attempts keep.
pub record KeepsBoth (mem m : Memory) (alloc : Allocator) (capacity : ℕ) (found : Option Bytes)
    : Type 0 where
  pub size : length m ≡ length mem
  pub holds :
      (q : ℕ) (cs : Bytes)
      → IsOff capacity (alloc 1 capacity) q (length cs)
      → ((v : Bytes)
          → found ≡ some v
          → capacity < length v
          → IsOff (length v) (alloc 0 (length v)) q (length cs))
      → Holds mem q cs
      → Holds m q cs

module _ (lookup : List KeyValue) (alloc : Allocator) (key : Bytes) (key_ptr : ℕ) (ctx : Context)
    (mem : Memory) (utf8 : is_utf8 key ≡ true) (held : Holds mem key_ptr key)
    (bounded : ctx.default_msg_bytes < u32_mod)
    (placed : IsPlaced
      (length mem)
      key_ptr
      (length key)
      ctx.default_msg_bytes
      (alloc 1 ctx.default_msg_bytes))
    (retry : (v : Bytes)
      → find key lookup ≡ some v
      → (length v < u32_mod)
        × (ctx.default_msg_bytes < length v
            → IsPlaced (length mem) key_ptr (length key) (length v) (alloc 0 (length v)))) where
  abbrev capacity : ℕ
  capacity = ctx.default_msg_bytes

  attempts-some :
      (v : Bytes)
      → find key lookup ≡ some v
      → (m : Memory) × (attempts lookup alloc (length key) key_ptr 2 capacity mem ≡ ok (some v, m))
        × KeepsBoth mem m alloc capacity (some v)
  attempts-some v e =
      let (short, again) = retry v e in
      elim (Bool-cases (leb (length v) capacity)) [
        | inl fits ↦
            let (m, run, keeps) =
              attempt-fits lookup key key_ptr utf8 alloc 1 capacity mem placed held bounded v e
                short (leb→le _ _ fits) in
            (m, run, record { size = keeps.size; holds = λ q cs off _. keeps.holds q cs off })
        | inr small ↦
            let larger : capacity < length v = ground arith in
            let (m, run, keeps, held') =
              attempt-small lookup key key_ptr utf8 alloc 1 capacity mem placed held bounded v e
                short larger in
            let (m', run', keeps') =
              attempt-fits lookup key key_ptr utf8 alloc 0 (length v) m
                (rw keeps.size (again larger)) held' short v e short (omega arith) in
            (
              m',
              run ∙ run',
              record {
                size = keeps'.size ∙ keeps.size;
                holds = λ q cs off off' h.
                    keeps'.holds q cs (off' v refl larger) (keeps.holds q cs off h);
              },
            )
      ]

  -- `lookup_ext` returns what the host's map holds under the key, and writes to its own blocks only.
  pub lookup_ext-KeepsBoth :
      (m : Memory) × (lookup_ext lookup alloc (length key) key_ptr ctx mem
        ≡ ok (find key lookup, m))
      × KeepsBoth mem m alloc capacity (find key lookup)
  unfolding lookup_ext
  lookup_ext-KeepsBoth = elim (Option-cases (find key lookup)) [
    | inl e ↦ rw e (
        let (m, run, keeps) =
          attempt-none lookup key key_ptr utf8 alloc 1 capacity mem placed held bounded e in
        (m, run, record { size = keeps.size; holds = λ q cs off _. keeps.holds q cs off }))
    | inr (v, e) ↦ rw e (attempts-some v e)
  ]

-- `lookup_ext` returns what the host's map holds under the key: at the first attempt if the
-- default size is enough, else at the second, whose buffer has the length of the value.
pub lookup_ext-find :
    (lookup : List KeyValue) (alloc : Allocator) (key : Bytes) (key_ptr : ℕ) (ctx : Context)
    (mem : Memory)
    → is_utf8 key ≡ true
    → Holds mem key_ptr key
    → ctx.default_msg_bytes < u32_mod
    → IsPlaced
        (length mem)
        key_ptr
        (length key)
        ctx.default_msg_bytes
        (alloc 1 ctx.default_msg_bytes)
    → ((v : Bytes)
        → find key lookup ≡ some v
        → (length v < u32_mod)
          × (ctx.default_msg_bytes < length v
              → IsPlaced (length mem) key_ptr (length key) (length v) (alloc 0 (length v))))
    → (m : Memory) × (lookup_ext lookup alloc (length key) key_ptr ctx mem
        ≡ ok (find key lookup, m))
lookup_ext-find lookup alloc key key_ptr ctx mem utf8 held bounded placed retry =
    let (m, run, _) =
      lookup_ext-KeepsBoth lookup alloc key key_ptr ctx mem utf8 held bounded placed retry in
    (m, run)
