-- ===== src/Collector/Tensor/Direct.antt =====
-- Direct copies of inputs between host buffers, made at once.
use backend_radius_ai.Prelude.{ℕ, ◌+◌, ◌≤◌, ◌≡◌, ◌≢◌, refl, Bool, false, ltb, List, [], ◌∷◌, arith}
use backend_radius_ai.Triton.{cpu_pinned, gpu}
use backend_radius_ai.Machine.{Memory, transfer, null}
use backend_radius_ai.Copy.Effects.{copy_buffer_host}
use backend_radius_ai.Collector.Iterator.{ContiguousBuffer}
use backend_radius_ai.Collector.State.{Target, Settings, Collector, fail_inputs_if_error}
use backend_radius_ai.Collector.Tensor.{copy_direct, set_input_tensor, set_input_tensors, place_of}
use backend_radius_ai.Collector.Process.Writes.{write, write_inputs, total_size}
use backend_radius_ai.Collector.Process.Payload.{AllInputs}

abbrev pub with_mem : {H : Type 0} → Collector H → Memory → Collector H
with_mem c mem = record c { machine = record c.machine { mem = mem } }

module _ {H : Type 0} (settings : Settings H) (no_stream : settings.copy_on_stream ≡ false)
    (target : Target) (host : target.place.memory_type ≢ gpu) (valid : target.buffer ≢ null) where
  copy_direct_host :
      (input : ContiguousBuffer) (offset : ℕ) (c : Collector H)
      → input.memory_desc.memory_type ≢ gpu
      → input.memory_desc.buffer ≢ null
      → copy_direct settings input target offset c
        ≡ (false, with_mem c (transfer (write input (target.buffer + offset)) c.machine.mem))
  unfolding copy_direct fail_inputs_if_error
  copy_direct_host input offset c cpu_input nonnull = rw (
      copy_buffer_host settings.cuda (place_of input.memory_desc) target.place
        (write input (target.buffer + offset)) settings.copy_on_stream c.machine cpu_input host
        nonnull (λ e. omega (arith, valid)) no_stream)

  pub set_input_tensor_host :
      (offset : ℕ) (input : ContiguousBuffer) (use_kernel : Bool) (c : Collector H)
      → use_kernel ≡ false
      → input.memory_desc.memory_type ≢ gpu
      → input.memory_desc.buffer ≢ null
      → offset + input.memory_desc.byte_size ≤ target.byte_size
      → set_input_tensor settings input target offset cpu_pinned use_kernel c
        ≡ (false, with_mem c (transfer (write input (target.buffer + offset)) c.machine.mem))
  unfolding set_input_tensor
  set_input_tensor_host offset input use_kernel c off cpu_input nonnull fits =
      let room : ltb target.byte_size (offset + input.memory_desc.byte_size) ≡ false =
        ground arith in
      rw (room, off) (copy_direct_host input offset c cpu_input nonnull)

  pub set_input_tensors_host :
      (n : ℕ) (inputs : List ContiguousBuffer) (offset : ℕ) (c : Collector H)
      → AllInputs target.buffer n inputs
      → offset + total_size inputs ≤ target.byte_size
      → set_input_tensors settings inputs target offset c
        ≡ (false, with_mem c (write_inputs inputs (target.buffer + offset) c.machine.mem))
  unfolding set_input_tensors
  set_input_tensors_host n [] offset c h fits = refl
  set_input_tensors_host n (input ∷ inputs) offset c h fits =
      let size = input.memory_desc.byte_size in
      let there : target.buffer + offset + size ≡ target.buffer + (offset + size) = omega arith in
      let c' = with_mem c (transfer (write input (target.buffer + offset)) c.machine.mem) in
      let here = set_input_tensor_host offset input false c refl h.0.0 h.0.1 (omega arith) in
      let rest = set_input_tensors_host n inputs (offset + size) c' h.1 (omega arith) in
      rw (here, there) (rw rest refl)
