-- ===== src/Examples/Copies.antt =====
-- A copy from a device to the host.
use backend_radius_ai.Prelude.{◌≡◌, refl, true, false, []}
use backend_radius_ai.Triton.{gpu, cpu, err, internal}
use backend_radius_ai.Machine.{Machine, Transfer}
use backend_radius_ai.Copy.{Cuda, Place, copy_buffer}
use backend_radius_ai.Copy.Effects.{copy_buffer-err}

abbrev absent : Cuda
absent = record { enabled = false; succeeds = λ m call. true }

abbrev device_place : Place
device_place = record { memory_type = gpu; memory_type_id = 1 }

abbrev host_place : Place
host_place = record { memory_type = cpu; memory_type_id = 0 }

abbrev machine : Machine
machine = record { mem = λ a. a; stream = [] }

abbrev block : Transfer
block = record { dst = 100; src = 200; size = 4 }

absent-err : (copy_buffer absent device_place host_place block true machine).0 ≡ err internal
unfolding copy_buffer
absent-err = refl

copy_buffer-err_example :
    copy_buffer absent device_place host_place block true machine ≡ (err internal, false, machine)
copy_buffer-err_example =
    copy_buffer-err absent device_place host_place block true machine internal absent-err
