-- ===== src/Lookup/Tests/Order.antt =====
-- The table of two entries, in either order of the map.
use native.Mathlib.Nat.{dvd_of_mod-eq-zero}
use mathlib.Core.List.Perm
use mathlib.Core.Quot
use wasm_shared_buffers.Base.{◌≡◌, ◌<◌, refl, sym, ◌∙◌, List, [], ◌∷◌, arith, ok}
use wasm_shared_buffers.Lookup.Entry.{KeyValue, Distinct, find}
use wasm_shared_buffers.Lookup.HashMap.{HashMap, get, file_of, file_of_inj}
use wasm_shared_buffers.Lookup.Store.Canonical.{stored_file, stored_file-perm}
use wasm_shared_buffers.Lookup.Tests.{
  entry, two, two_packed, two-Distinct, two_stored, two_size, by_length,
}

abbrev owt : List KeyValue
owt = entry (b'a' ∷ []) (b'q' ∷ []) ∷ entry (b'a' ∷ b'b' ∷ []) (b'x' ∷ b'y' ∷ b'z' ∷ []) ∷ []

stored_file-perm_example : stored_file by_length 2 two ≡ stored_file by_length 2 owt
stored_file-perm_example =
    stored_file-perm by_length 2 two owt (omega arith) (omega arith) (Perm.swap _ _ [])

slots_pos : 0 < 2
slots_pos = omega arith

two_map : HashMap
two_map = Quot.mk (two, two-Distinct, omega arith)

abbrev owt-Distinct : Distinct owt
owt-Distinct = unfold find in (refl, (refl, tt))

owt_map : HashMap
owt_map = Quot.mk (owt, owt-Distinct, omega arith)

two_file : file_of by_length 2 slots_pos two_map ≡ ok two_packed.file.bytes
unfolding file_of two_map
two_file = rw two_stored refl

owt_file : file_of by_length 2 slots_pos owt_map ≡ ok two_packed.file.bytes
unfolding file_of owt_map
owt_file =
    sym (stored_file-perm by_length 2 two owt (omega arith) (omega arith) (Perm.swap _ _ []))
    ∙ rw two_stored refl

file_of_inj_example : get (b'a' ∷ []) two_map ≡ get (b'a' ∷ []) owt_map
file_of_inj_example =
    file_of_inj by_length 2 slots_pos two_map owt_map two_packed.file.bytes (b'a' ∷ [])
      (dvd_of_mod-eq-zero 2 refl) (omega (arith, two_size)) two_file owt_file
