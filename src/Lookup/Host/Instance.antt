-- ===== src/Lookup/Host/Instance.antt =====
-- The host's calls of the loaded module: `wasm_alloc`, `wasm_call`, `get_linear_memory` and
-- `store_test_keys` of rust/lookup/src/main.rs, on the instance that the interpreter gives.
-- wasmi is a parameter: `S` is the state of the instance, and a number is a bit pattern.
use wasm_shared_buffers.Base.{
  ℕ, ◌+◌, ◌^◌, ◌≤◌, ◌<◌, ◌∙◌, >>=-eq-ok, ◌%◌, ◌≡◌, refl, ap, Option, none, some, List, [], ◌∷◌, Run,
  ok, panic, explicit, unwrap, ◌>>=◌, length,
}
use wasm_shared_buffers.Word.{u32_mod}
use wasm_shared_buffers.Memory.{Memory, Holds}
use wasm_shared_buffers.Lookup.Host.CopyKeys.{store_test_keys-Holds}
use wasm_shared_buffers.Lookup.Entry.{Bytes, KeyValue}
use wasm_shared_buffers.Lookup.Host.{Malloc, sign_extend, copy_bytes, store_test_keys}

pub data RuntimeValue : Type 0 where
  i32 i64 f32 f64 : ℕ → RuntimeValue

pub data ExternVal : Type 0 where
  memory_export : Memory → ExternVal
  other_export : ExternVal

-- A call of an export gets the map and the memory that `Externs` has, and `none` is an error. The
-- host writes through the reference to the memory that an export gives.
pub record ModuleInstance (S : Type 0) : Type 0 where
  pub export_by_name : Bytes → S → Option ExternVal
  pub invoke_export :
      Bytes → List RuntimeValue → List KeyValue → Memory → S → Option (Option RuntimeValue × S)
  pub write_memory : Memory → S → S

abbrev pub memory_name : Bytes
memory_name = b'm' ∷ b'e' ∷ b'm' ∷ b'o' ∷ b'r' ∷ b'y' ∷ []

abbrev pub malloc_name : Bytes
malloc_name = b'm' ∷ b'a' ∷ b'l' ∷ b'l' ∷ b'o' ∷ b'c' ∷ b'_' ∷ []

-- `.expect(...)`, then `.as_memory().unwrap()`.
abbrev pub as_memory : Option ExternVal → Run Memory
as_memory (some (memory_export m)) = ok m
as_memory (some other_export) = panic unwrap
as_memory none = panic unwrap

abbrev pub unless_failed {ℓ} : {A : Type ℓ} → Option A → Run A
unless_failed (some r) = ok r
unless_failed none = panic explicit

-- The result of `malloc_`.
abbrev pub as_index : Option RuntimeValue → Run ℕ
as_index (some (i32 v)) = ok v
as_index (some (i64 v)) = panic explicit
as_index (some (f32 v)) = panic explicit
as_index (some (f64 v)) = panic explicit
as_index none = panic unwrap

module _ {S : Type 0} (instance_ : ModuleInstance S) (lookup : List KeyValue) where
  unfoldable pub get_linear_memory : S → Run Memory
  get_linear_memory s = as_memory (instance_.export_by_name memory_name s)

  unfoldable pub wasm_call : Bytes → List RuntimeValue → S → Run (Option RuntimeValue × S)
  wasm_call name args s = do
    memory ← get_linear_memory s
    unless_failed (instance_.invoke_export name args lookup memory s)

  unfoldable pub wasm_alloc : ℕ → S → Run (ℕ × S)
  wasm_alloc size s = do
    (wasm_alloc_res, s₁) ← wasm_call malloc_name (i32 size ∷ []) s
    v ← as_index wasm_alloc_res
    ok (v, s₁)

  unfoldable pub store_keys : Bytes → S → Run (ℕ × S)
  store_keys test_keys s = do
    (alloc_index, s₁) ← wasm_alloc (length test_keys % u32_mod) s
    buf ← get_linear_memory s₁
    buf' ← copy_bytes buf (sign_extend alloc_index) test_keys
    ok (alloc_index, instance_.write_memory buf' s₁)

-- What the interpreter documents of an instance whose memory is exported and whose `malloc_` is
-- `malloc`, an `i32` function that returns: `view` is the memory of a state.
pub record IsInstance {S : Type 0} (instance_ : ModuleInstance S) (view : S → Memory)
    (malloc : Malloc) : Type 0 where
  pub exports : (s : S) → instance_.export_by_name memory_name s ≡ some (memory_export (view s))
  pub allocates :
      (n : ℕ) (lookup : List KeyValue) (s : S)
      → (s' : S) × (instance_.invoke_export malloc_name (i32 n ∷ []) lookup (view s) s
          ≡ some (some (i32 (malloc n (view s)).0), s'))
        × (view s' ≡ (malloc n (view s)).1)
  pub writes : (m : Memory) (s : S) → view (instance_.write_memory m s) ≡ m

module _ {S : Type 0} (instance_ : ModuleInstance S) (view : S → Memory) (malloc : Malloc)
    (i : IsInstance instance_ view malloc) (lookup : List KeyValue) where
  -- The bytes of the outcome as the calls of the module leave them.
  copied :
      (r : Run Memory) (index : ℕ) (s : S)
      → (◌>>=◌ {B = ℕ × S} r (λ buf. ok (index, instance_.write_memory buf s)) >>= λ x.
          ok (x.0, view x.1))
        ≡ ◌>>=◌ {B = ℕ × Memory} r (λ buf. ok (index, buf))
  copied (ok m) index s = ap (λ v. ok (index, v)) (i.writes m s)
  copied (panic why) index s = refl

  -- The calls through the interpreter do what the allocation does as a function on the memory.
  store_keys-store_test_keys :
      (test_keys : Bytes) (s : S)
      → (do (index, s') ← store_keys instance_ lookup test_keys s; ok (index, view s'))
        ≡ store_test_keys malloc test_keys (view s)
  unfolding store_keys wasm_alloc wasm_call get_linear_memory store_test_keys
  store_keys-store_test_keys test_keys s =
      let (s₁, e, v) = i.allocates (length test_keys % u32_mod) lookup s in
      rw (i.exports s, e, i.exports s₁, v) (copied (copy_bytes _ _ test_keys) _ s₁)

  -- On such an instance, if `malloc_` returns a block that lies in the memory, below 2^31: `store_keys`
  -- does not panic, returns the block's index, and leaves a memory, as long as after the allocation, in
  -- which the keys stand there.
  pub store_keys-Holds :
      (test_keys : Bytes) (s : S) (mem₁ : Memory) (i : ℕ)
      → malloc (length test_keys % u32_mod) (view s) ≡ (i, mem₁)
      → i < 2 ^ 31
      → i + length test_keys ≤ length mem₁
      → (s' : S) × (store_keys instance_ lookup test_keys s ≡ ok (i, s'))
        × Holds (view s') i test_keys
        × (length (view s') ≡ length mem₁)
  store_keys-Holds test_keys s mem₁ i e low fits =
      let (m, run, held, size) =
        store_test_keys-Holds malloc test_keys (view s) mem₁ i e low fits in
      let ((j, s'), stored, end) =
        >>=-eq-ok {B = ℕ × Memory} (store_keys instance_ lookup test_keys s)
          (λ x. ok (x.0, view x.1)) (store_keys-store_test_keys test_keys s ∙ run) in
      let index : j ≡ i = cc end in
      let same : view s' ≡ m = cc end in
      (s', stored ∙ ap (λ n. ok (n, s')) index, rw same held, ap length same ∙ size)
