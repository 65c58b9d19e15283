-- ===== src/Lookup/Host/CopyKeys.antt =====
-- `store_test_keys` copies the packed keys into the block that the module's allocator gave.
use wasm_shared_buffers.Base.{
  ℕ, zero, suc, ◌+◌, ◌≡◌, ◌≤◌, ◌<◌, ◌^◌, ◌%◌, refl, sym, ap, [], ◌∷◌, ok, length, lt→ltb, arith,
}
use wasm_shared_buffers.Word.{u32_mod}
use wasm_shared_buffers.Memory.{Memory, Holds, overlay, overlay-Holds, length-overlay}
use wasm_shared_buffers.Lookup.Entry.{Bytes}
use wasm_shared_buffers.Lookup.Host.{set_byte, copy_bytes, Malloc, store_test_keys}

set_byte-overlay :
    (m : Memory) (i b : ℕ) → i < length m → set_byte m i b ≡ ok (overlay m i (b ∷ []))
unfolding set_byte overlay
set_byte-overlay [] i b h = absurd (omega arith)
set_byte-overlay (x ∷ []) zero b h = refl
set_byte-overlay (x ∷ y ∷ m) zero b h = refl
set_byte-overlay (x ∷ m) (suc i) b h = rw (set_byte-overlay m i b (omega arith))

overlay-nil : (m : Memory) (i : ℕ) → overlay m i [] ≡ m
unfolding overlay
overlay-nil [] i = refl
overlay-nil (x ∷ m) zero = refl
overlay-nil (x ∷ m) (suc i) = ap (λ t. x ∷ t) (overlay-nil m i)

overlay-cons :
    (m : Memory) (i j b : ℕ) (bs : Bytes)
    → j ≡ suc i
    → overlay (overlay m i (b ∷ [])) j bs ≡ overlay m i (b ∷ bs)
unfolding overlay
overlay-cons [] i j b bs e = refl
overlay-cons (x ∷ m) zero zero b bs e = absurd (omega arith)
overlay-cons (x ∷ m) zero (suc j) b bs e = let z : j ≡ 0 = omega arith in rw (z, overlay-nil m 0)
overlay-cons (x ∷ m) (suc i) zero b bs e = absurd (omega arith)
overlay-cons (x ∷ m) (suc i) (suc j) b bs e =
    ap (λ t. x ∷ t) (overlay-cons m i j b bs (omega arith))

-- In range the loop writes the bytes at the index, and does not panic.
pub copy_bytes-overlay :
    (m : Memory) (i : ℕ) (bs : Bytes)
    → i + length bs ≤ length m
    → copy_bytes m i bs ≡ ok (overlay m i bs)
unfolding copy_bytes
copy_bytes-overlay m i [] h = ap ok (sym (overlay-nil m i))
copy_bytes-overlay m i (b ∷ bs) h =
    let m₁ = overlay m i (b ∷ []) in
    let fits : i + 1 + length bs ≤ length m₁ = omega (arith, length-overlay m i (b ∷ [])) in
    rw (set_byte-overlay m i b (omega arith), copy_bytes-overlay m₁ (i + 1) bs fits)
      (ap ok (overlay-cons m i (i + 1) b bs (omega arith)))

-- If the allocated block lies in the memory, below 2^31, the keys stand there afterwards.
pub store_test_keys-Holds :
    (malloc : Malloc) (test_keys : Bytes) (mem mem₁ : Memory) (i : ℕ)
    → malloc (length test_keys % u32_mod) mem ≡ (i, mem₁)
    → i < 2 ^ 31
    → i + length test_keys ≤ length mem₁
    → (m : Memory) × (store_test_keys malloc test_keys mem ≡ ok (i, m))
      × Holds m i test_keys
      × (length m ≡ length mem₁)
unfolding store_test_keys
store_test_keys-Holds malloc test_keys mem mem₁ i e low fits = (
  overlay mem₁ i test_keys,
  rw (e, lt→ltb i (2 ^ 31) low, copy_bytes-overlay mem₁ i test_keys fits),
  overlay-Holds mem₁ i test_keys fits,
  length-overlay mem₁ i test_keys,
)
