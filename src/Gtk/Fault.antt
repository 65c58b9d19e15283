-- ===== src/Gtk/Fault.antt =====
-- A store through the context of a module: `Context::new_unowned` and `skip_hunter` of
-- rust/gtk/src/module_common.rs as addresses, `create_context`, `update_context` and `modify_grid` of
-- rust/gtk/src/modules/hunter.rs and runner.rs. A store to a page without `prot_write` is a fault.
use wasm_shared_buffers.Base.{
  ℕ, ◌+◌, ◌/◌, ◌%◌, ◌<◌, ◌≡◌, refl, Bool, true, false, Option, none, some, List, [], ◌∷◌, arith,
  ◌==◌, ◌||◌, if◌then◌else◌, Run, ok, panic, trap, check, ◌>>◌,
}
use wasm_shared_buffers.Posix.{Bytes, Flag, Libc, prot_write, AreNonzero}
use wasm_shared_buffers.Posix.Pages.{IsLibc, covers}
use wasm_shared_buffers.Gtk.Buffers.{map_flags, map_buffer, read_only_buf_size}
use wasm_shared_buffers.Gtk.Buffers.Mapping.{
  Maps, mapped, not_opened, misplaced, not_closed, map_buffer-Maps,
}

-- The references of `Context`, as addresses.
pub record Pointers : Type 0 where
  pub grid : ℕ
  pub hunter : ℕ
  pub runners : ℕ

-- `size_of::<Hunter>()` is 8 on wasm32.
unfoldable pub skip_hunter : ℕ → ℕ
skip_hunter ptr = ptr + 8

unfoldable pub create_context : (ro_ptr rw_ptr : ℕ) → Pointers
create_context ro_ptr rw_ptr = record {
  grid = ro_ptr;
  hunter = rw_ptr;
  runners = skip_hunter rw_ptr;
}

unfoldable pub update_context : Pointers → (ro_ptr rw_ptr : ℕ) → Pointers
update_context ctx ro_ptr rw_ptr = record ctx {
  grid = ro_ptr;
  hunter = rw_ptr;
  runners = skip_hunter rw_ptr;
}

-- What may be done with each page, and the word at each address.
pub record Space : Type 0 where
  pub page : ℕ → Option (List Flag)
  pub word : ℕ → ℕ

abbrev pub is_prot_write : Flag → Bool
is_prot_write prot_write = true
is_prot_write _ = false

abbrev pub may_write : List Flag → Bool
may_write [] = false
may_write (f ∷ fs) = is_prot_write f || may_write fs

abbrev pub is_writable : Option (List Flag) → Bool
is_writable none = false
is_writable (some prot) = may_write prot

-- A store of an aligned word.
unfoldable pub store_word : ℕ → ℕ → Space → Run Space
store_word at v m = do
  check (is_writable (m.page (at / 4096))) trap
  ok (record m { word = λ a. if a == at then v else m.word a })

-- `modify_grid` of the hunter: `ctx.grid[0][0] = 2`.
unfoldable pub hunter_modify_grid : Pointers → Space → Run Space
hunter_modify_grid ctx m = store_word ctx.grid 2 m

-- `modify_grid` of the runners is not implemented.
unfoldable pub runner_modify_grid : Pointers → Space → Run Space
runner_modify_grid ctx m = ok m

first_page : (ptr size : ℕ) → 0 < size → covers ptr size (ptr / 4096) ≡ true
first_page ptr size h = ground arith

protected :
    (read_only : Bool) → may_write (map_flags read_only) ≡ (if read_only then false else true)
protected true = refl
protected false = refl

-- The outcome of the store, from the flags of the page.
stored :
    (at : ℕ) (m : Space) (read_only : Bool)
    → m.page (at / 4096) ≡ some (map_flags read_only)
    → store_word at 2 m ≡ (
        if read_only
        then panic trap
        else ok (record m { word = λ a. if a == at then 2 else m.word a }))
unfolding store_word
stored at m true e = rw e refl
stored at m false e = rw e refl

module _ {W : Type 0} (libc : Libc W) (page : W → ℕ → Option (List Flag)) where
  Maps-page :
      (ptr : ℕ) (name : Bytes) (size : ℕ) (read_only : Bool) (w : W) {r : Run (ℕ × W)} (buf : ℕ)
      (w' : W)
      → 0 < size
      → Maps libc page ptr name size read_only w r
      → r ≡ ok (buf, w')
      → page w' (buf / 4096) ≡ some (map_flags read_only)
  Maps-page ptr name size read_only w buf w' h (mapped {w' = w''} o at c all) e =
      let there : ptr ≡ buf = cc e in
      let left : w'' ≡ w' = cc e in
      let whole : covers ptr size (ptr / 4096) ≡ true = first_page ptr size h in
      rw (← there, ← left, all (ptr / 4096), whole) refl
  Maps-page ptr name size read_only w buf w' h (not_opened o) e = absurd (cc e)
  Maps-page ptr name size read_only w buf w' h (misplaced o at) e = absurd (cc e)
  Maps-page ptr name size read_only w buf w' h (not_closed o at c) e = absurd (cc e)

  -- When `map_buffer` has mapped the grid's buffer at a page boundary, the hunter's `modify_grid`,
  -- through a context that `create_context` has made or `update_context` has changed, faults and
  -- leaves all as it was if the mapping is read-only, and otherwise puts 2 into the first cell of
  -- the grid and changes no other word. The runners' `modify_grid` changes nothing in either case.
  pub modify_grid-map_buffer :
      (ptr : ℕ) (name : Bytes) (read_only : Bool) (w : W) (buf : ℕ) (w' : W) (rw_ptr : ℕ)
      (old : Pointers) (word : ℕ → ℕ)
      → IsLibc libc page
      → ptr % 4096 ≡ 0
      → AreNonzero name
      → map_buffer libc ptr name read_only_buf_size read_only w ≡ ok (buf, w')
      → (hunter_modify_grid (create_context buf rw_ptr) (record { page = page w'; word = word }) ≡ (
          if read_only
          then panic trap
          else ok (record { page = page w'; word = λ a. if a == buf then 2 else word a })))
        × (hunter_modify_grid
              (update_context old buf rw_ptr)
              (record { page = page w'; word = word })
            ≡ (if read_only
                then panic trap
                else ok (record { page = page w'; word = λ a. if a == buf then 2 else word a })))
        × (runner_modify_grid (create_context buf rw_ptr) (record { page = page w'; word = word })
            ≡ ok (record { page = page w'; word = word }))
  unfolding hunter_modify_grid runner_modify_grid create_context update_context
  modify_grid-map_buffer ptr name read_only w buf w' rw_ptr old word i aligned nz run =
      let access =
        Maps-page ptr name read_only_buf_size read_only w buf w' (omega arith)
          (map_buffer-Maps libc page ptr name read_only_buf_size read_only w i aligned nz) run in
      let outcome = stored buf (record { page = page w'; word = word }) read_only access in
      (outcome, outcome, refl)
