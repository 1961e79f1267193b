-- ===== src/Collector/Process/Direct.antt =====
-- A tensor whose copies are all direct ones between host buffers, input by input.
use backend_radius_ai.Prelude.{
  ℕ, ◌+◌, ◌≤◌, ◌≡◌, ◌≢◌, refl, ap, ◌∙◌, Bool, true, false, ◌||◌, ◌==◌, List, [], ◌∷◌, arith, not,
}
use backend_radius_ai.Triton.{cpu_pinned, gpu}
use backend_radius_ai.Machine.{Machine, Transfer, transfer, null}
use backend_radius_ai.Collector.Iterator.{ContiguousBuffer}
use backend_radius_ai.Collector.State.{Target, Settings, Collector}
use backend_radius_ai.Collector.Tensor.{flush_pending_pinned}
use backend_radius_ai.Collector.Tensor.Direct.{with_mem, set_input_tensor_host}
use backend_radius_ai.Collector.Process.{
  noting, flush_before, flush_pinned_before, flush_kernel_before, flush_pending_copy_kernel,
  process_input, flush_all,
}
use backend_radius_ai.Collector.Process.Writes.{write, write_inputs, total_size}
use backend_radius_ai.Collector.Process.Payload.{AllInputs}
use backend_radius_ai.Collector.Process.Run.{process_inputs}

-- No copy is pending.
pub record Idle {H : Type 0} (c : Collector H) : Type 0 where
  pub no_pinned : c.pending_pinned_byte_size ≡ 0
  pub no_pinned_inputs : c.pending_pinned_input_buffers ≡ []
  pub no_kernel : c.pending_copy_kernel_buffer_byte_size ≡ 0
  pub no_kernel_inputs : c.pending_copy_kernel_input_buffers ≡ []

-- Neither pinned memory nor the copy kernel is used, and host copies are made at once.
pub record IsDirect {H : Type 0} (settings : Settings H) : Type 0 where
  pub no_pinned : settings.pinned_enabled ≡ false
  pub no_kernel : settings.kernel_buffer_threshold ≡ 0
  pub no_stream : settings.copy_on_stream ≡ false

or-false : (b : Bool) → b || false ≡ b
or-false true = refl
or-false false = refl

module _ {H : Type 0} (settings : Settings H) (launches : Machine → List Transfer → Bool)
    (d : IsDirect settings) (target : Target) (host : target.place.memory_type ≢ gpu)
    (valid : target.buffer ≢ null) where
  flush_before-Idle :
      (offset : ℕ) (c : Collector H) → Idle c → flush_before settings launches target offset c ≡ c
  unfolding flush_before flush_pinned_before flush_kernel_before
  flush_before-Idle offset c idle =
      rw (idle.no_pinned, flush_pinned_before) (rw (idle.no_kernel, flush_kernel_before) refl)

  process_input_direct :
      (offset : ℕ) (input : ContiguousBuffer) (c : Collector H)
      → Idle c
      → input.memory_desc.memory_type ≢ gpu
      → input.memory_desc.buffer ≢ null
      → offset + input.memory_desc.byte_size ≤ target.byte_size
      → process_input settings launches target cpu_pinned offset input c
        ≡ with_mem c (transfer (write input (target.buffer + offset)) c.machine.mem)
  unfolding process_input
  process_input_direct offset input c idle cpu_input nonnull fits =
      let off : not (settings.kernel_buffer_threshold == 0) ≡ false = rw d.no_kernel refl in
      let mem' = transfer (write input (target.buffer + offset)) c.machine.mem in
      rw (flush_before-Idle offset c idle) (
        ap (noting settings launches) (
          set_input_tensor_host settings d.no_stream target host valid offset input
            (not (settings.kernel_buffer_threshold == 0)) c off cpu_input nonnull fits)
        ∙ ap (λ (b : Bool). record (with_mem c mem') { need_sync = b }) (or-false c.need_sync))

  pub process_inputs_direct :
      (n : ℕ) (inputs : List ContiguousBuffer) (offset : ℕ) (c : Collector H)
      → Idle c
      → AllInputs target.buffer n inputs
      → offset + total_size inputs ≤ target.byte_size
      → process_inputs settings launches target cpu_pinned offset inputs c
        ≡ with_mem c (write_inputs inputs (target.buffer + offset) c.machine.mem)
  process_inputs_direct n [] offset c idle h fits = refl
  process_inputs_direct n (input ∷ inputs) offset c idle h fits =
      let size = input.memory_desc.byte_size in
      let there : target.buffer + offset + size ≡ target.buffer + (offset + size) = omega arith in
      let c' = with_mem c (transfer (write input (target.buffer + offset)) c.machine.mem) in
      let idle' : Idle c' = record {
        no_pinned = idle.no_pinned;
        no_pinned_inputs = idle.no_pinned_inputs;
        no_kernel = idle.no_kernel;
        no_kernel_inputs = idle.no_kernel_inputs;
      } in
      rw (process_input_direct offset input c idle h.0.0 h.0.1 (omega arith), there)
        (process_inputs_direct n inputs (offset + size) c' idle' h.1 (omega arith))

  pub flush_all-Idle :
      (c : Collector H)
      → Idle c
      → ((flush_all settings launches target c).machine ≡ c.machine)
        × ((flush_all settings launches target c).responses ≡ c.responses)
  unfolding flush_all flush_pending_pinned flush_pending_copy_kernel
  flush_all-Idle c idle =
      rw (idle.no_pinned, idle.no_pinned_inputs, idle.no_kernel_inputs) (refl, refl)
