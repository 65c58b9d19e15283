-- ===== src/Gtk/Tests/Buffers.antt =====
-- The shared buffers in a concrete process.
use wasm_shared_buffers.Base.{
  ◌+◌, ◌%◌, ◌≤◌, ℕ, ◌≡◌, refl, true, ◌||◌, none, some, [], ◌∷◌, ok, panic, trap, arith,
  if◌then◌else◌,
}
use wasm_shared_buffers.Posix.{AreNonzero, prot_read, prot_write, cstring}
use wasm_shared_buffers.Posix.Tests.{
  Process, nothing_mapped, put, system, page, system-IsLibc, system-Unmaps,
}
use wasm_shared_buffers.Gtk.Buffers.{
  map_buffer, create_shared_buffer, drop_buffers, read_only_buf_name, read_only_buf_size,
  read_write_buf_size,
}
use wasm_shared_buffers.Posix.Pages.{covers}
use wasm_shared_buffers.Gtk.Buffers.Mapping.{
  Maps, Creates, map_buffer-Maps, create_shared_buffer-Creates,
}
use wasm_shared_buffers.Gtk.Buffers.Opened.{
  Fork, parent, fork_container, open_host, Opens, open_host-Opens,
}
use wasm_shared_buffers.Page.{page_size}
use wasm_shared_buffers.Gtk.Buffers.Align.{page_align, in_pages, wasm_alloc_size, page_align-fits}
use wasm_shared_buffers.Gtk.Fault.{
  Pointers, create_context, update_context, hunter_modify_grid, runner_modify_grid,
  modify_grid-map_buffer,
}
use wasm_shared_buffers.Gtk.Buffers.Dropped.{Ends, drop-Unmaps}

name-AreNonzero : AreNonzero read_only_buf_name
name-AreNonzero = (
  omega arith,
  (
    omega arith,
    (
      omega arith,
      (
        omega arith,
        (
          omega arith,
          (omega arith, (omega arith, (omega arith, (omega arith, (omega arith, tt))))),
        ),
      ),
    ),
  ),
)

map_buffer-Maps_example :
    Maps system page 8192 read_only_buf_name 6000 true nothing_mapped
      (map_buffer system 8192 read_only_buf_name 6000 true nothing_mapped)
map_buffer-Maps_example =
    map_buffer-Maps system page 8192 read_only_buf_name 6000 true nothing_mapped system-IsLibc refl
      name-AreNonzero

create_shared_buffer-Creates_example :
    Creates system page read_only_buf_name 6000 nothing_mapped
      (create_shared_buffer system read_only_buf_name 6000 nothing_mapped)
create_shared_buffer-Creates_example =
    create_shared_buffer-Creates system page read_only_buf_name 6000 nothing_mapped system-IsLibc
      name-AreNonzero

drop-Unmaps_example :
    ((q : ℕ)
      → page
          (drop_buffers system
            (record { shared_ro = 8192; shared_rw = 20480; index = 0; signal = 20480 })
            nothing_mapped)
          q
        ≡ (if covers 20480 read_write_buf_size q || covers 8192 read_only_buf_size q
            then none
            else page nothing_mapped q))
    × Ends system page system-IsLibc system-Unmaps (λ k. (0, 0)) 8192 20480 nothing_mapped
drop-Unmaps_example =
    drop-Unmaps system page system-IsLibc system-Unmaps (λ k. (0, 0)) 8192 20480 0 20480
      nothing_mapped (omega arith) (omega arith) refl refl

abbrev with_grid : Process
with_grid = put nothing_mapped 8192 read_only_buf_size (some (prot_read ∷ []))

map_once :
    map_buffer system 8192 read_only_buf_name read_only_buf_size true nothing_mapped
    ≡ ok (8192, with_grid)
unfolding map_buffer cstring
map_once = refl

abbrev null : Pointers
null = record { grid = 0; hunter = 0; runners = 0 }

modify_grid-map_buffer_example :
    (hunter_modify_grid
        (create_context 8192 20484)
        (record { page = page with_grid; word = λ a. 0 })
      ≡ panic trap)
    × (hunter_modify_grid
          (update_context null 8192 20484)
          (record { page = page with_grid; word = λ a. 0 })
        ≡ panic trap)
    × (runner_modify_grid
          (create_context 8192 20484)
          (record { page = page with_grid; word = λ a. 0 })
        ≡ ok (record { page = page with_grid; word = λ a. 0 }))
modify_grid-map_buffer_example =
    modify_grid-map_buffer system page 8192 read_only_buf_name true nothing_mapped 8192 with_grid
      20484 null (λ a. 0) system-IsLibc refl name-AreNonzero map_once

-- A system in which both forks succeed.
abbrev forks : Process → Fork × Process
forks w = (parent, w)

abbrev with_buffers : Process
with_buffers =
    put (put nothing_mapped 4096 read_only_buf_size (some (prot_read ∷ prot_write ∷ []))) 16384
      read_write_buf_size (some (prot_read ∷ prot_write ∷ []))

opened_once : open_host system forks nothing_mapped ≡ ok ((4096, 16384), with_buffers)
unfolding open_host create_shared_buffer fork_container cstring
opened_once = refl

open_host-Opens_example : Opens system page nothing_mapped with_buffers 4096 16384
open_host-Opens_example =
    open_host-Opens system page forks nothing_mapped with_buffers 4096 16384 system-IsLibc
      (λ w q. refl) opened_once (λ e. omega (arith, e)) (λ e. omega (arith, e))

page_align-fits_example :
    (page_align 70000 % page_size ≡ 0)
    × (page_align (page_align 70000 + read_only_buf_size) % page_size ≡ 0)
    × (70000 ≤ page_align 70000)
    × (page_align 70000 + in_pages read_only_buf_size
        ≤ page_align (page_align 70000 + read_only_buf_size))
    × (page_align (page_align 70000 + read_only_buf_size) + in_pages read_write_buf_size
        ≤ 70000 + wasm_alloc_size)
page_align-fits_example = page_align-fits 70000 (omega arith) (omega arith)
