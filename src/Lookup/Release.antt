-- ===== src/Lookup/Release.antt =====
-- The end of the host's context: `Drop` of rust/lookup/src/main.rs. What it prints is left out.
use wasm_shared_buffers.Base.{
  ℕ, ◌%◌, ◌<◌, ◌≡◌, refl, sym, ap, ◌∙◌, Bool, true, Option, none, List, [], ◌∷◌, arith, ltb, ◌==◌,
  ==_iff, lt→ltb, if◌then◌else◌, length, Run, ok, panic, false, ◌>>=◌, ◌>>◌, assert,
}
use wasm_shared_buffers.Memory.{Memory}
use wasm_shared_buffers.Page.{page_align-boundary}
use wasm_shared_buffers.Posix.{Flag, Libc, cstring}
use wasm_shared_buffers.Posix.Pages.{IsLibc, covers, Unmaps}
use wasm_shared_buffers.Lookup.Entry.{Bytes, KeyValue}
use wasm_shared_buffers.Lookup.Host.{Malloc, Mmap, Params, Initialised, initialise_wasm}
use wasm_shared_buffers.Lookup.Module.{Context}
use wasm_shared_buffers.Lookup.Store.Format.{stored_table}
use wasm_shared_buffers.Lookup.Store.Locate.{length-stored_table}

-- "/lookup"
abbrev pub mmap_name : Bytes
mmap_name = b'/' ∷ b'l' ∷ b'o' ∷ b'o' ∷ b'k' ∷ b'u' ∷ b'p' ∷ []

module _ {W : Type 0} (libc : Libc W) where
  unfoldable pub drop : (buffer buffer_size : ℕ) → W → Run W
  drop buffer buffer_size w = if buffer == 0 then ok w else do
    assert (ltb 0 buffer_size)
    cname ← cstring mmap_name
    let w₁ = (libc.munmap buffer buffer_size w).1
    ok (libc.shm_unlink cname w₁).1

-- The end of `initialise_wasm`, for any outcome of the call of `create_context`.
placed-boundary :
    (same : Bool) (buffer size : ℕ) (made : Run Context) (mem : Memory) (s : Initialised)
    → (same ≡ true → buffer % 4096 ≡ 0)
    → (assert same
        >> (made >>= λ ctx.
            ok (record { buffer = buffer; buffer_size = size; wasm_context = ctx; memory = mem })))
      ≡ ok s
    → (s.buffer % 4096 ≡ 0) × (s.buffer_size ≡ size)
placed-boundary true buffer size (ok ctx) mem s round run =
    let left : Initialised = record {
      buffer = buffer;
      buffer_size = size;
      wasm_context = ctx;
      memory = mem;
    } in
    let same : left ≡ s = cc run in
    (ap (λ r. r.buffer % 4096) (sym same) ∙ round refl, ap (λ r. r.buffer_size) (sym same))
placed-boundary true buffer size (panic why) mem s round run = absurd (cc run)
placed-boundary false buffer size made mem s round run = absurd (cc run)

-- The buffer that a successful `initialise_wasm` leaves is at a page boundary, and has the size of
-- the file.
initialise_wasm-boundary :
    (malloc : Malloc) (mmap : Mmap) (base : ℕ) (params : Params) (file : Bytes)
    (keys_index keys_bytes : ℕ) (mem : Memory) (s : Initialised)
    → initialise_wasm malloc mmap base params file keys_index keys_bytes mem ≡ ok s
    → (s.buffer % 4096 ≡ 0) × (s.buffer_size ≡ length file)
unfolding initialise_wasm
initialise_wasm-boundary malloc mmap base params file keys_index keys_bytes mem s run =
    placed-boundary _ _ (length file) _ _ s
      (λ e. ap (λ a. a % 4096) ((==_iff _ _).0 e) ∙ page_align-boundary _) run

module _ {W : Type 0} (libc : Libc W) (page : W → ℕ → Option (List Flag)) (i : IsLibc libc page)
    (never : Unmaps libc) where
  -- Before the file is mapped, the end of the context does nothing. After `initialise_wasm` has mapped
  -- a stored table at an address that is not null, it never meets the failing `assert!`, and gives
  -- back exactly the pages of the table.
  pub drop-Releases :
      (malloc : Malloc) (mmap : Mmap) (base : ℕ) (params : Params) (t : List (List KeyValue))
      (keys_index keys_bytes : ℕ) (mem : Memory) (s : Initialised) (w : W)
      → initialise_wasm malloc mmap base params (stored_table t) keys_index keys_bytes mem ≡ ok s
      → 0 < s.buffer
      → (drop libc 0 0 w ≡ ok w)
        × (w' : W) × (drop libc s.buffer s.buffer_size w ≡ ok w')
        × ((q : ℕ)
            → page w' q ≡ (if covers s.buffer (length (stored_table t)) q then none else page w q))
  unfolding drop cstring
  drop-Releases malloc mmap base params t keys_index keys_bytes mem s w run placed =
      let (round, size) =
        initialise_wasm-boundary malloc mmap base params (stored_table t) keys_index keys_bytes mem
          s run in
      let w₁ = (libc.munmap s.buffer (length (stored_table t)) w).1 in
      let positive : 0 < length (stored_table t) = omega (arith, length-stored_table t) in
      let there : (s.buffer == 0) ≡ false = nonzero s.buffer placed in
      (
        refl,
        (libc.shm_unlink mmap_name w₁).1,
        rw (there, size, lt→ltb 0 (length (stored_table t)) positive) refl,
        (λ q.
            i.unlinks mmap_name w₁ q
            ∙ i.unmaps s.buffer (length (stored_table t)) w q round
                (never s.buffer (length (stored_table t)) w round positive)),
      )
    where
      nonzero : (a : ℕ) → 0 < a → (a == 0) ≡ false
      nonzero a h = ground arith
