-- ===== src/Lookup/Module/Calls.antt =====
-- `lookup_ext` of rust/lookup/src/reader.rs, over the host's `lookup_callback`.
use wasm_shared_buffers.Base.{
  ℕ, zero, suc, Bool, true, false, Option, none, some, List, [], ◌∷◌, Run, ok, panic, explicit,
  unwrap, assert, not, take, ◌>>=◌, ◌>>◌, length, ◌==◌, if◌then◌else◌,
}
use wasm_shared_buffers.Word.{to_le_bytes, from_le_bytes}
use wasm_shared_buffers.Memory.{Memory, load, store}
use wasm_shared_buffers.Lookup.Callback.{success, buffer_too_small, not_found, lookup_callback}
use wasm_shared_buffers.Lookup.Entry.{Bytes, KeyValue, eq_bytes}
use wasm_shared_buffers.Lookup.Module.{Context, Str, lookup_int}

-- Where the module's allocator puts the boxed length and the value buffer of an attempt.
pub record CallBuffers : Type 0 where
  pub value_len : ℕ
  pub value : ℕ

-- The allocator, asked for a buffer of a capacity; the first number is that of the attempts left.
abbrev pub Allocator : Type 0
Allocator = ℕ → ℕ → CallBuffers

-- `*value_len`
unfoldable pub load_u32 : Memory → ℕ → Run ℕ
load_u32 mem p = do bytes ← load mem p 4; ok (from_le_bytes bytes)

-- The host answers the module's calls from the entries `lookup`. The key's bytes stand in the
-- module's memory at `key_ptr`.
module _ (lookup : List KeyValue) (alloc : Allocator) (key_len key_ptr : ℕ) where
  -- The loop, with the number of attempts left.
  unfoldable pub attempts : ℕ → (capacity : ℕ) → Memory → Run (Option Bytes × Memory)
  unfolding load_u32
  attempts zero capacity mem = panic explicit
  attempts (suc n) capacity mem = do
    let p = alloc n capacity
    mem₁ ← store mem p.value_len (to_le_bytes capacity)
    (res, mem₂) ← lookup_callback lookup mem₁ key_len key_ptr p.value_len p.value
    if res == success
        then (do len ← load_u32 mem₂ p.value_len; s ← load mem₂ p.value len; ok (some s, mem₂))
        else if res == buffer_too_small
        then (do capacity' ← load_u32 mem₂ p.value_len; attempts n capacity' mem₂)
        else if res == not_found
        then ok (none, mem₂)
        else panic explicit

  unfoldable pub lookup_ext : Context → Memory → Run (Option Bytes × Memory)
  lookup_ext ctx mem = attempts 2 ctx.default_msg_bytes mem

-- `unwrap` on an option, and the tests of `assert!`.
abbrev pub unwrapped {ℓ} : {A : Type ℓ} → Option A → Run A
unwrapped none = panic unwrap
unwrapped (some a) = ok a

abbrev pub is_some {ℓ} : {A : Type ℓ} → Option A → Bool
is_some none = false
is_some (some _) = true

-- `lookup_ext` at a string in the memory.
abbrev pub call_ext :
    List KeyValue → Allocator → Context → Str → Memory → Run (Option Bytes × Memory)
call_ext lookup alloc ctx key mem = lookup_ext lookup alloc (length key.bytes) key.ptr ctx mem

-- The exported tests. `missing` is the string constant "404 not found".
module _ (hash : Bytes → ℕ) (lookup : List KeyValue) (alloc : Allocator) where
  unfoldable pub verify_keys : Context → List Str → Memory → Run Memory
  verify_keys ctx [] mem = ok mem
  verify_keys ctx (key ∷ keys) mem = do
    found_int ← lookup_int mem hash ctx key.bytes
    value_int ← unwrapped found_int
    (found_ext, mem') ← call_ext lookup alloc ctx key mem
    value_ext ← unwrapped found_ext
    assert (eq_bytes value_int value_ext)
    verify_keys ctx keys mem'

  unfoldable pub verify_lookups : Str → Context → Memory → Run Memory
  unfolding verify_keys
  verify_lookups missing ctx mem = do
    mem₁ ← verify_keys ctx (take 10 ctx.test_keys) mem
    found_int ← lookup_int mem₁ hash ctx missing.bytes
    assert (not (is_some found_int))
    (found_ext, mem₂) ← call_ext lookup alloc ctx missing mem₁
    assert (not (is_some found_ext))
    ok mem₂

  unfoldable pub test_internal : Context → List Str → Memory → Run (Unit {0})
  test_internal ctx [] mem = ok tt
  test_internal ctx (key ∷ keys) mem = do
    found ← lookup_int mem hash ctx key.bytes
    assert (is_some found)
    test_internal ctx keys mem

  unfoldable pub performance_test_internal : Context → Memory → Run (Unit {0})
  unfolding test_internal
  performance_test_internal ctx mem = test_internal ctx ctx.test_keys mem

  unfoldable pub test_external : Context → List Str → Memory → Run Memory
  test_external ctx [] mem = ok mem
  test_external ctx (key ∷ keys) mem = do
    (found, mem') ← call_ext lookup alloc ctx key mem
    assert (is_some found)
    test_external ctx keys mem'

  unfoldable pub performance_test_external : Context → Memory → Run Memory
  unfolding test_external
  performance_test_external ctx mem = test_external ctx ctx.test_keys mem
