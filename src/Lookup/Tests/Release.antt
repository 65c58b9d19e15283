-- ===== src/Lookup/Tests/Release.antt =====
-- The end of the host's context after the table of two entries was mapped.
use wasm_shared_buffers.Base.{ℕ, ◌≡◌, refl, inl, none, [], ok, arith, length, if◌then◌else◌}
use wasm_shared_buffers.Posix.Pages.{covers}
use wasm_shared_buffers.Posix.Tests.{
  Process, nothing_mapped, system, page, system-IsLibc, system-Unmaps,
}
use wasm_shared_buffers.Lookup.Host.{Initialised}
use wasm_shared_buffers.Lookup.Host.Initialise.{initial, initialise_wasm-initial}
use wasm_shared_buffers.Lookup.Module.TestKeys.{packed_strs}
use wasm_shared_buffers.Lookup.Release.{drop, drop-Releases}
use wasm_shared_buffers.Lookup.Store.Format.{stored_table}
use wasm_shared_buffers.Lookup.Tests.{two_table}
use wasm_shared_buffers.Lookup.Tests.Setup.{
  mmap_bytes, copying-IsMmap, test_keys, grown, malloc_behind, params, keys_bytes, table_bytes,
  grown_bytes, keys_held,
}

abbrev set_up : Initialised
set_up =
    initial malloc_behind mmap_bytes 1 (params 2) two_table test_keys 0 [] grown 11 copying-IsMmap
      refl refl (omega (arith, grown_bytes, table_bytes)) (omega (arith, grown_bytes)) (omega arith)
      (omega (arith, grown_bytes)) keys_held (inl (omega (arith, keys_bytes)))

drop-Releases_example :
    (drop system 0 0 nothing_mapped ≡ ok nothing_mapped)
    × (w' : Process) × (drop system set_up.buffer set_up.buffer_size nothing_mapped ≡ ok w')
    × ((q : ℕ)
        → page w' q ≡ (
            if covers set_up.buffer (length (stored_table two_table)) q
            then none
            else page nothing_mapped q))
drop-Releases_example =
    drop-Releases system page system-IsLibc system-Unmaps malloc_behind mmap_bytes 1 (params 2)
      two_table 0 (length (packed_strs test_keys)) [] set_up nothing_mapped
      (initialise_wasm-initial malloc_behind mmap_bytes 1 (params 2) two_table test_keys 0 [] grown
        11 copying-IsMmap refl refl (omega (arith, grown_bytes, table_bytes))
        (omega (arith, grown_bytes)) (omega arith) (omega (arith, grown_bytes)) keys_held
        (inl (omega (arith, keys_bytes))) refl)
      (omega arith)
