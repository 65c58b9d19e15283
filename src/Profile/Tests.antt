-- ===== src/Profile/Tests.antt =====
-- The containers of profile/src-rust at concrete values.
use wasm_shared_buffers.Base.{◌≡◌, refl, inr, ok}
use wasm_shared_buffers.Int.{release}
use wasm_shared_buffers.Profile.{Container, start, run, wasmer_step, wasmi_step}
use wasm_shared_buffers.Profile.Synced.{IsSynced, containers-IsSynced}

-- The counts have wrapped around.
containers-IsSynced_example :
    (s : Container) × (run (wasmer_step release) 5000000000 start ≡ ok s)
    × (run (wasmi_step release) 5000000000 start ≡ ok s)
    × IsSynced release 5000000000 5000000000 s
containers-IsSynced_example = containers-IsSynced release 5000000000 (inr refl)
