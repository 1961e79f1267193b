-- ===== src/Examples/Staging.antt =====
-- Two host inputs on their way to a device through pinned memory.
use backend_radius_ai.Prelude.{ℕ, ◌≡◌, ◌≢◌, refl, true, false, [], ◌∷◌, arith}
use backend_radius_ai.Triton.{cpu, gpu, ok}
use backend_radius_ai.Machine.{Machine, Transfer, synchronize}
use backend_radius_ai.Machine.Bytes.{bytes_at}
use backend_radius_ai.Copy.{copy_buffer}
use backend_radius_ai.BackendMemory.{
  BackendMemory, host_pinned, host_pinned_pool, create_any, create,
}
use backend_radius_ai.Collector.Iterator.Coalesce.{single}
use backend_radius_ai.Collector.State.{Target, Settings, Collector}
use backend_radius_ai.Collector.Tensor.{flush_pending_pinned, pinned_place}
use backend_radius_ai.Collector.Tensor.Staged.{flush_pending_pinned-bytes}
use backend_radius_ai.Collector.Process.Writes.{write_inputs}
use backend_radius_ai.Examples.Setting.{host_buffer, responses, settings, collector}

abbrev gpu_settings : Settings ℕ
gpu_settings = record settings {
  pinned_enabled = true;
  cuda = record { enabled = true; succeeds = λ m call. true };
}

abbrev pending : Collector ℕ
pending = record collector {
  pending_pinned_byte_size = 5;
  pending_pinned_offset = 2;
  pending_pinned_input_buffers = single 0 (host_buffer 100 3) ∷ single 1 (host_buffer 200 2) ∷ [];
}

abbrev tensor : Target
tensor = record {
  buffer = 1000;
  byte_size = 9;
  place = record { memory_type = gpu; memory_type_id = 0 };
}

abbrev pinned : BackendMemory
pinned = record {
  alloc_type = host_pinned_pool;
  memory_type_id = 0;
  buffer = 64;
  byte_size = 5;
  owns_buffer = true;
}

abbrev out : Transfer
out = record { dst = 1002; src = 64; size = 5 }

abbrev staged : Machine
staged = record {
  mem = write_inputs pending.pending_pinned_input_buffers 64 pending.machine.mem;
  stream = [];
}

pinned-made :
    create_any gpu_settings.alloc 0 (host_pinned_pool ∷ host_pinned ∷ []) 0 5 ≡ (ok pinned, 0)
unfolding create_any create
pinned-made = refl

out-ok : (copy_buffer gpu_settings.cuda pinned_place tensor.place out false staged).0 ≡ ok tt
unfolding copy_buffer
out-ok = refl

cpu≢gpu : cpu ≢ gpu
cpu≢gpu e = cc

flush_pending_pinned-bytes_example :
    (bytes_at (synchronize (flush_pending_pinned gpu_settings tensor pending).1.machine).mem 1002 5
      ≡ 100 ∷ 101 ∷ 102 ∷ 200 ∷ 201 ∷ [])
    × ((flush_pending_pinned gpu_settings tensor pending).1.pending_pinned_byte_size ≡ 0)
    × ((flush_pending_pinned gpu_settings tensor pending).1.responses ≡ responses)
flush_pending_pinned-bytes_example =
    flush_pending_pinned-bytes gpu_settings tensor pending pinned 0 out staged refl refl
      (omega arith) refl pinned-made (λ e. omega (arith, e))
      (
        (cpu≢gpu, (λ e. omega (arith, e)), λ a p q r s. omega arith),
        ((cpu≢gpu, (λ e. omega (arith, e)), λ a p q r s. omega arith), tt),
      )
      refl refl out-ok
