-- ===== src/Lookup/Callback.antt =====
-- The functions that the host offers to the module: `Externs` of rust/lookup/src/main.rs.
-- The host's map is the list of its entries; the module's memory is passed along.
use wasm_shared_buffers.Base.{
  ℕ, zero, suc, ◌%◌, Option, none, some, List, [], Run, ok, panic, unwrap, explicit, check, ◌>>=◌,
  ◌>>◌, length, leb, if◌then◌else◌,
}
use wasm_shared_buffers.Word.{u32_mod, to_le_bytes, from_le_bytes}
use wasm_shared_buffers.Memory.{Memory, get_into, set_value}
use wasm_shared_buffers.Lookup.Entry.{Bytes, KeyValue, find}
use wasm_shared_buffers.Lookup.Utf8.{is_utf8}

abbrev pub success : ℕ
success = 0

abbrev pub buffer_too_small : ℕ
buffer_too_small = 1

abbrev pub not_found : ℕ
not_found = 2

unfoldable pub extract_str : Memory → (len ptr : ℕ) → Run Bytes
extract_str mem len ptr = do buf ← get_into mem ptr len; check (is_utf8 buf) unwrap; ok buf

-- The answer to a found value: its length goes to `value_len_ptr`, and the value itself to
-- `value_ptr` if the length that stood there is enough.
unfoldable pub return_value : Memory → (value_len_ptr value_ptr : ℕ) → Bytes → Run (ℕ × Memory)
return_value mem value_len_ptr value_ptr result = do
  buf ← get_into mem value_len_ptr 4
  mem₁ ← set_value mem value_len_ptr (to_le_bytes (length result % u32_mod))
  if leb (length result) (from_le_bytes buf)
      then (do mem₂ ← set_value mem₁ value_ptr result; ok (success, mem₂))
      else ok (buffer_too_small, mem₁)

-- The `match` on what the map holds.
unfoldable pub answer : Memory → (value_len_ptr value_ptr : ℕ) → Option Bytes → Run (ℕ × Memory)
answer mem value_len_ptr value_ptr (some result) = return_value mem value_len_ptr value_ptr result
answer mem value_len_ptr value_ptr none = ok (not_found, mem)

-- The code that the module receives, and the memory.
unfoldable pub lookup_callback :
    List KeyValue → Memory → (key_len key value_len_ptr value_ptr : ℕ) → Run (ℕ × Memory)
lookup_callback lookup mem key_len key value_len_ptr value_ptr = do
  k ← extract_str mem key_len key
  answer mem value_len_ptr value_ptr (find k lookup)

-- What a call of an imported function does: the value that it returns, the memory, and the text
-- that the host prints.
pub record Reply : Type 0 where
  pub value : Option ℕ
  pub memory : Memory
  pub printed : Bytes

-- `invoke_index`: the functions are numbered 0 (`print_callback`) and 1 (`lookup_callback`). The
-- arguments are read by position, as far as the function takes them.
unfoldable pub invoke_index : List KeyValue → ℕ → Memory → (arg₀ arg₁ arg₂ arg₃ : ℕ) → Run Reply
invoke_index lookup zero mem len msg _ _ = do
  text ← extract_str mem len msg
  ok (record { value = none; memory = mem; printed = text })
invoke_index lookup (suc zero) mem key_len key value_len_ptr value_ptr = do
  (code, mem') ← lookup_callback lookup mem key_len key value_len_ptr value_ptr
  ok (record { value = some code; memory = mem'; printed = [] })
invoke_index lookup (suc (suc n)) mem _ _ _ _ = panic explicit
