-- ===== src/Lookup/Imports.antt =====
-- The functions that the module imports: `Resolver` of rust/lookup/src/main.rs, which numbers them,
-- and `Externs`, which calls them by their numbers.
use wasm_shared_buffers.Base.{
  ℕ, ◌≡◌, sym, ◌≢◌, inl, inr, false, none, some, List, [], ◌∷◌, Run, ok, panic, explicit, ◌>>=◌,
  if◌then◌else◌, Bool-cases,
}
use mathlib.Core.Path.{subst}
use wasm_shared_buffers.Memory.{Memory}
use wasm_shared_buffers.Lookup.Callback.{Reply, extract_str, lookup_callback, invoke_index}
use wasm_shared_buffers.Lookup.Entry.{Bytes, KeyValue, eq_bytes, eq_bytes_iff}

abbrev pub print_callback_name : Bytes
print_callback_name =
    b'p' ∷ b'r' ∷ b'i' ∷ b'n' ∷ b't' ∷ b'_' ∷ b'c' ∷ b'a' ∷ b'l' ∷ b'l' ∷ b'b' ∷ b'a' ∷ b'c' ∷ b'k'
    ∷ []

abbrev pub lookup_callback_name : Bytes
lookup_callback_name =
    b'l' ∷ b'o' ∷ b'o' ∷ b'k' ∷ b'u' ∷ b'p' ∷ b'_' ∷ b'c' ∷ b'a' ∷ b'l' ∷ b'l' ∷ b'b' ∷ b'a' ∷ b'c'
    ∷ b'k' ∷ []

abbrev pub print_callback_index : ℕ
print_callback_index = 0

abbrev pub lookup_callback_index : ℕ
lookup_callback_index = 1

-- The number that a function of the module `env` gets.
unfoldable pub resolve_func : Bytes → Run ℕ
resolve_func field_name =
    if eq_bytes field_name print_callback_name
    then ok print_callback_index
    else if eq_bytes field_name lookup_callback_name
    then ok lookup_callback_index
    else panic explicit

-- Linking an import, and a call of the function. The code links when it loads the module.
unfoldable pub call_import : List KeyValue → Bytes → Memory → (arg₀ arg₁ arg₂ arg₃ : ℕ) → Run Reply
call_import lookup field_name mem arg₀ arg₁ arg₂ arg₃ = do
  index ← resolve_func field_name
  invoke_index lookup index mem arg₀ arg₁ arg₂ arg₃

-- How the host answers to a name: with the callback of that name, or by refusing to link.
pub data Dispatched (lookup : List KeyValue) (mem : Memory) (a b c d : ℕ)
    : Bytes → Run Reply → Type 0 where
  prints :
      Dispatched lookup mem a b c d print_callback_name (
        extract_str mem a b
        >>= (λ text. ok (record { value = none; memory = mem; printed = text })))
  looks_up : Dispatched lookup mem a b c d lookup_callback_name (
      lookup_callback lookup mem a b c d
      >>= (λ r. ok (record { value = some r.0; memory = r.1; printed = [] })))
  refused :
      {name : Bytes}
      → name ≢ print_callback_name
      → name ≢ lookup_callback_name
      → Dispatched lookup mem a b c d name (panic explicit)

differs : (a b : Bytes) → eq_bytes a b ≡ false → a ≢ b
differs a b e d = let same = (eq_bytes_iff a b).1 d in cc (same, e)

module _ (lookup : List KeyValue) (mem : Memory) (a b c d : ℕ) where
  printed :
      Dispatched lookup mem a b c d print_callback_name
        (call_import lookup print_callback_name mem a b c d)
  unfolding call_import resolve_func invoke_index eq_bytes
  printed = prints

  looked_up :
      Dispatched lookup mem a b c d lookup_callback_name
        (call_import lookup lookup_callback_name mem a b c d)
  unfolding call_import resolve_func invoke_index eq_bytes
  looked_up = looks_up

  unknown :
      (name : Bytes)
      → eq_bytes name print_callback_name ≡ false
      → eq_bytes name lookup_callback_name ≡ false
      → Dispatched lookup mem a b c d name (call_import lookup name mem a b c d)
  unfolding call_import resolve_func
  unknown name e f =
      rw (e, f) (refused (differs name print_callback_name e) (differs name lookup_callback_name f))

-- Every import that the host links is answered by the callback of its name, and never by the panic
-- for an unknown number; a module that imports another name is refused.
pub call_import-Dispatched :
    (lookup : List KeyValue) (name : Bytes) (mem : Memory) (a b c d : ℕ)
    → Dispatched lookup mem a b c d name (call_import lookup name mem a b c d)
call_import-Dispatched lookup name mem a b c d =
    elim (Bool-cases (eq_bytes name print_callback_name)) [
      | inl e ↦
          subst (λ n. Dispatched lookup mem a b c d n (call_import lookup n mem a b c d))
            (sym ((eq_bytes_iff name print_callback_name).0 e)) (printed lookup mem a b c d)
      | inr e ↦ elim (Bool-cases (eq_bytes name lookup_callback_name)) [
        | inl f ↦
            subst (λ n. Dispatched lookup mem a b c d n (call_import lookup n mem a b c d))
              (sym ((eq_bytes_iff name lookup_callback_name).0 f)) (looked_up lookup mem a b c d)
        | inr f ↦ unknown lookup mem a b c d name e f
      ]
    ]
