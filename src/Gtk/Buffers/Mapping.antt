-- ===== src/Gtk/Buffers/Mapping.antt =====
-- How `map_buffer` and `create_shared_buffer` end.
use wasm_shared_buffers.Base.{
  ℕ, ◌%◌, ◌≡◌, refl, sym, ap, ◌∙◌, ◌≢◌, inl, inr, Bool, true, false, ◌||◌, Option, none, some, List,
  [], ◌∷◌, arith, ◌==◌, if◌then◌else◌, ==_iff, Bool-cases, Run, ok, panic, explicit, assertion,
}
use wasm_shared_buffers.Int.{ℤ}
use mathlib.Core.Path.{subst}
use wasm_shared_buffers.Posix.{
  Bytes, Flag, Libc, minus_one, s_irusr, s_iwusr, map_fixed, map_shared, prot_read, prot_write,
  o_creat, o_trunc, o_rdwr, AreNonzero, cstring-AreNonzero,
}
use wasm_shared_buffers.Posix.Pages.{IsLibc, covers, map_failed}
use wasm_shared_buffers.Gtk.Buffers.{open_flags, map_flags, map_buffer, create_shared_buffer}

module _ {W : Type 0} (libc : Libc W) (page : W → ℕ → Option (List Flag)) where
  -- The calls of `map_buffer`, each with what it returns and leaves.
  module _ (ptr : ℕ) (name : Bytes) (size : ℕ) (read_only : Bool) (w : W) where
    abbrev opening : ℤ × W
    opening = libc.shm_open name (open_flags read_only) (s_irusr ∷ s_iwusr ∷ []) w

    abbrev mapping : ℕ × W
    mapping =
        libc.mmap ptr size (map_flags read_only) (map_fixed ∷ map_shared ∷ []) opening.0 opening.1

    abbrev closing : ℤ × W
    closing = libc.close opening.0 mapping.1

    pub data Maps : Run (ℕ × W) → Type 0 where
      mapped :
          {w' : W}
          → minus_one opening.0 ≡ false
          → mapping.0 ≡ ptr
          → minus_one closing.0 ≡ false
          → ((q : ℕ)
              → page w' q ≡ (if covers ptr size q then some (map_flags read_only) else page w q))
          → Maps (ok (ptr, w'))
      not_opened : minus_one opening.0 ≡ true → Maps (panic explicit)
      misplaced : minus_one opening.0 ≡ false → mapping.0 ≢ ptr → Maps (panic assertion)
      not_closed :
          minus_one opening.0 ≡ false
          → mapping.0 ≡ ptr
          → minus_one closing.0 ≡ true
          → Maps (panic explicit)

    placed_pages :
        IsLibc libc page
        → ptr % 4096 ≡ 0
        → mapping.0 ≡ ptr
        → (q : ℕ)
        → page closing.1 q ≡ (if covers ptr size q then some (map_flags read_only) else page w q)
    placed_pages i aligned at q =
        i.closes opening.0 mapping.1 q
        ∙ i.maps ptr size (map_flags read_only) (map_fixed ∷ map_shared ∷ []) opening.0 opening.1 q
            (λ e. omega (arith, e, at, aligned))
        ∙ ap (λ a. if covers a size q then some (map_flags read_only) else page opening.1 q) at
        ∙ ap (λ m. if covers ptr size q then some (map_flags read_only) else m)
            (i.opens name (open_flags read_only) (s_irusr ∷ s_iwusr ∷ []) w q)

    -- `map_buffer`, at a page boundary and with a name without zero bytes, returns the address when
    -- all three calls succeed and `mmap` has put the buffer there: exactly the pages of the buffer
    -- have then changed, and can be written unless the buffer is read-only. Otherwise it panics: by
    -- the `assert!` when the buffer is elsewhere, explicitly when a file operation fails.
    pub map_buffer-Maps :
        IsLibc libc page
        → ptr % 4096 ≡ 0
        → AreNonzero name
        → Maps (map_buffer libc ptr name size read_only w)
    unfolding map_buffer
    map_buffer-Maps i aligned nz =
        rw (cstring-AreNonzero name nz) (elim (Bool-cases (minus_one opening.0)) [
          | inl e ↦ rw e (not_opened e)
          | inr e ↦ rw e (elim (Bool-cases (mapping.0 == ptr)) [
            | inl at ↦
                let there = (==_iff mapping.0 ptr).0 at in
                rw at (elim (Bool-cases (minus_one closing.0)) [
                  | inl c ↦ rw c (not_closed e there c)
                  | inr c ↦ rw c (
                      subst (λ a. Maps (ok (a, closing.1))) (sym there)
                        (mapped e there c (placed_pages i aligned there)))
                ])
            | inr at ↦ rw at (misplaced e (differs mapping.0 ptr at))
          ])
        ])
      where
        differs : (a b : ℕ) → (a == b) ≡ false → a ≢ b
        differs a b e d = ground arith

  module _ (name : Bytes) (size : ℕ) (w : W) where
    abbrev creating : ℤ × W
    creating = libc.shm_open name (o_creat ∷ o_trunc ∷ o_rdwr ∷ []) (s_irusr ∷ s_iwusr ∷ []) w

    abbrev sizing : ℤ × W
    sizing = libc.ftruncate creating.0 size creating.1

    abbrev placing : ℕ × W
    placing = libc.mmap 0 size (prot_read ∷ prot_write ∷ []) (map_shared ∷ []) creating.0 sizing.1

    abbrev finishing : ℤ × W
    finishing = libc.close creating.0 placing.1

    abbrev panics : Bool
    panics = (minus_one creating.0 || minus_one sizing.0) || minus_one finishing.0

    -- How `create_shared_buffer` ends. A failed `mmap` does not stop it.
    pub data Creates : Run (ℕ × W) → Type 0 where
      created :
          {buf : ℕ} {w' : W}
          → panics ≡ false
          → buf ≢ map_failed
          → ((q : ℕ)
              → page w' q
                ≡ (if covers buf size q then some (prot_read ∷ prot_write ∷ []) else page w q))
          → ((q : ℕ) → covers buf size q ≡ true → page w q ≡ none)
          → Creates (ok (buf, w'))
      unmapped : {w' : W} → panics ≡ false → placing.0 ≡ map_failed → Creates (ok (map_failed, w'))
      failed : panics ≡ true → Creates (panic explicit)

    before : IsLibc libc page → (q : ℕ) → page sizing.1 q ≡ page w q
    before i q =
        i.truncates creating.0 size creating.1 q
        ∙ i.opens name (o_creat ∷ o_trunc ∷ o_rdwr ∷ []) (s_irusr ∷ s_iwusr ∷ []) w q

    placed : IsLibc libc page → panics ≡ false → Creates (ok (placing.0, finishing.1))
    placed i e = elim (Bool-cases (placing.0 == map_failed)) [
      | inl f ↦
          let none_mapped = (==_iff placing.0 map_failed).0 f in
          subst (λ a. Creates (ok (a, finishing.1))) (sym none_mapped) (unmapped e none_mapped)
      | inr f ↦
          let there : placing.0 ≢ map_failed = λ d. cc ((==_iff placing.0 map_failed).1 d, f) in
          created e there
            (λ q.
              i.closes creating.0 placing.1 q
              ∙ i.maps 0 size (prot_read ∷ prot_write ∷ []) (map_shared ∷ []) creating.0 sizing.1 q
                  there
              ∙ ap (λ m. if covers placing.0 size q then some (prot_read ∷ prot_write ∷ []) else m)
                  (before i q))
            (λ q c.
              sym (before i q)
              ∙ i.fresh size (prot_read ∷ prot_write ∷ []) creating.0 sizing.1 q there c)
    ]

    -- `create_shared_buffer`, with a name without zero bytes, panics exactly when the file cannot
    -- be made, given its size or closed. Otherwise it returns pages that were free before and can
    -- be written now, and all other pages are kept; but when `mmap` fails it returns MAP_FAILED
    -- as the buffer.
    pub create_shared_buffer-Creates :
        IsLibc libc page → AreNonzero name → Creates (create_shared_buffer libc name size w)
    unfolding create_shared_buffer
    create_shared_buffer-Creates i nz =
        rw (cstring-AreNonzero name nz) (elim (Bool-cases (minus_one creating.0)) [
          | inl e ↦ rw e (failed (rw e refl))
          | inr e ↦ rw e (elim (Bool-cases (minus_one sizing.0)) [
            | inl f ↦ rw f (failed (rw (e, f) refl))
            | inr f ↦ rw f (elim (Bool-cases (minus_one finishing.0)) [
              | inl c ↦ rw c (failed (rw (e, f, c) refl))
              | inr c ↦ rw c (placed i (rw (e, f, c) refl))
            ])
          ])
        ])
