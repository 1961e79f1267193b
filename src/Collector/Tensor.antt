-- ===== src/Collector/Tensor.antt =====
-- `SetInputTensor` and `FlushPendingPinned` of src/backend_input_collector.cc, for a collector that
-- makes its host copies itself (`use_async_cpu_copy_` is false). Offsets and sizes are of buffers in
-- memory and do not wrap.
pub mod Once
pub mod Direct
pub mod Staged
use Prim.Native.String.{String}
use backend_radius_ai.Prelude.{
  ℕ, zero, suc, ◌+◌, ◌-◌, ◌*◌, Bool, true, false, not, ◌&&◌, ◌||◌, Option, none, some, List, [],
  ◌∷◌, ◌++◌, ltb, leb, ◌==◌, if◌then◌else◌,
}
use backend_radius_ai.Triton.{
  MemoryType, cpu, cpu_pinned, gpu, eq_memory, Result, ok, err, ErrorCode, invalid_arg, internal,
  unsupported,
}
use backend_radius_ai.Machine.{Transfer, Machine, synchronize}
use backend_radius_ai.Copy.{Cuda, Place, copy_buffer}
use backend_radius_ai.BackendMemory.{
  BackendMemory, AllocationType, host, host_pinned, device, host_pinned_pool, device_pool,
  Allocators, create_any,
}
use backend_radius_ai.Server.{Server, MemoryDesc}
use backend_radius_ai.Collector.Iterator.{
  ContiguousBuffer, Source, Iterator, start, get_next_contiguous_input,
}
use backend_radius_ai.Collector.State.{
  Target, DeferredPinned, Settings, Collector, fail_input, fail_inputs, fail_inputs_if_error,
}

-- `GetUsePinnedMemoryType` of src/backend_common.cc.
unfoldable pub get_use_pinned_memory_type : MemoryType → MemoryType
get_use_pinned_memory_type cpu_pinned = cpu_pinned
get_use_pinned_memory_type cpu = gpu
get_use_pinned_memory_type gpu = cpu

abbrev pub place_of : MemoryDesc → Place
place_of d = record { memory_type = d.memory_type; memory_type_id = d.memory_type_id }

abbrev pub pinned_place : Place
pinned_place = record { memory_type = cpu_pinned; memory_type_id = 0 }

module _ {H : Type 0} (settings : Settings H) where
  open settings use {pinned_enabled, kernel_buffer_threshold, copy_on_stream, cuda, alloc}

  -- The input becomes one more pending pinned copy.
  pub pend_pinned : ContiguousBuffer → ℕ → Collector H → Collector H
  pend_pinned input offset c = record c {
    pending_pinned_offset =
        if c.pending_pinned_byte_size == 0 then offset else c.pending_pinned_offset;
    pending_pinned_byte_size = c.pending_pinned_byte_size + input.memory_desc.byte_size;
    pending_pinned_input_buffers = c.pending_pinned_input_buffers ++ input ∷ [];
  }

  -- The input becomes one more pending input of the copy kernel.
  pub pend_copy_kernel : ContiguousBuffer → ℕ → Collector H → Collector H
  pend_copy_kernel input offset c = record c {
    pending_copy_kernel_buffer_offset =
        if c.pending_copy_kernel_buffer_byte_size == 0
        then offset
        else c.pending_copy_kernel_buffer_offset;
    pending_copy_kernel_buffer_byte_size =
        c.pending_copy_kernel_buffer_byte_size + input.memory_desc.byte_size;
    pending_copy_kernel_input_buffer_counts = c.pending_copy_kernel_input_buffer_counts + 1;
    pending_copy_kernel_input_buffers = c.pending_copy_kernel_input_buffers ++ input ∷ [];
  }

  -- Direct copy without intermediate pinned memory.
  unfoldable pub copy_direct : ContiguousBuffer → Target → ℕ → Collector H → Bool × Collector H
  copy_direct input target offset c =
      let t : Transfer = record {
        dst = target.buffer + offset;
        src = input.memory_desc.buffer;
        size = input.memory_desc.byte_size;
      } in
      let (answer, cuda_used, m) =
        copy_buffer cuda (place_of input.memory_desc) target.place t copy_on_stream c.machine in
      (cuda_used, fail_inputs_if_error (input ∷ []) answer (record c { machine = m }))

  abbrev pub takes_kernel : ContiguousBuffer → Target → Bool → Bool
  takes_kernel input target use_kernel =
      use_kernel
      && not (eq_memory input.memory_desc.memory_type cpu)
      && eq_memory target.place.memory_type gpu
      && (not (eq_memory input.memory_desc.memory_type gpu)
          || input.memory_desc.memory_type_id == target.place.memory_type_id)

  abbrev pub takes_pinned : ContiguousBuffer → MemoryType → Bool
  takes_pinned input use_pinned =
      not (eq_memory use_pinned cpu_pinned) && eq_memory input.memory_desc.memory_type use_pinned

  -- The result is `cuda_copy`.
  unfoldable pub set_input_tensor :
      ContiguousBuffer → Target → ℕ → MemoryType → Bool → Collector H → Bool × Collector H
  unfolding pend_pinned pend_copy_kernel copy_direct
  set_input_tensor input target offset use_pinned use_kernel c =
      if ltb target.byte_size (offset + input.memory_desc.byte_size)
      then (false, fail_input input invalid_arg c)
      else if takes_pinned input use_pinned
      then (false, pend_pinned input offset c)
      else if takes_kernel input target use_kernel
      then (false, pend_copy_kernel input offset c)
      else copy_direct input target offset c

  -- The loops that call it for pending inputs, from `offset` on: neither pinned nor by kernel.
  unfoldable pub set_input_tensors :
      List ContiguousBuffer → Target → ℕ → Collector H → Bool × Collector H
  unfolding set_input_tensor
  set_input_tensors [] target offset c = (false, c)
  set_input_tensors (input ∷ inputs) target offset c =
      let (used, c') = set_input_tensor input target offset cpu_pinned false c in
      let (used', c'') =
        set_input_tensors inputs target (offset + input.memory_desc.byte_size) c' in
      (used || used', c'')

  -- The tensor's bytes come out of the pinned buffer.
  pub copy_from_pinned :
      List ContiguousBuffer → ℕ → ℕ → Target → ℕ → Bool → Collector H → Bool × Collector H
  copy_from_pinned inputs pinned size target offset on_stream c =
      let t : Transfer = record { dst = target.buffer + offset; src = pinned; size = size } in
      let (answer, cuda_used, m) =
        copy_buffer cuda pinned_place target.place t on_stream c.machine in
      (cuda_used, fail_inputs_if_error inputs answer (record c { machine = m }))

  pub defer : ℕ → Target → Collector H → Collector H
  defer pinned target c = record c {
    deferred_pinned =
        c.deferred_pinned
        ++ (record {
          pinned_memory = pinned;
          pinned_memory_size = c.pending_pinned_byte_size;
          target = target;
          tensor_buffer_offset = c.pending_pinned_offset;
          requests = c.pending_pinned_input_buffers;
        })
          ∷ [];
  }

  -- The branch with a pinned buffer: copies into it, and then out of it, at once or in `Finalize`.
  pub stage_pinned : ℕ → Target → Collector H → Bool × Collector H
  stage_pinned pinned target c =
      let staging : Target = record {
        buffer = pinned;
        byte_size = c.pending_pinned_byte_size;
        place = pinned_place;
      } in
      let (used, c') = set_input_tensors c.pending_pinned_input_buffers staging 0 c in
      if used
      then (true, defer pinned target c')
      else copy_from_pinned c.pending_pinned_input_buffers pinned c.pending_pinned_byte_size target
          c.pending_pinned_offset copy_on_stream c'

  pub clear_pinned : Collector H → Collector H
  clear_pinned c = record c {
    pending_pinned_byte_size = 0;
    pending_pinned_offset = 0;
    pending_pinned_input_buffers = [];
  }

  -- The pinned buffer that was allocated, if it was and its pointer is not null.
  pinned_of : Result BackendMemory → Option BackendMemory
  pinned_of (ok b) = if b.buffer == 0 then none else some b
  pinned_of (err e) = none

  pub allocate_pinned : Collector H → Option BackendMemory × Collector H
  unfolding pinned_of
  allocate_pinned c =
      let (answer, h) =
        create_any alloc c.heap (host_pinned_pool ∷ host_pinned ∷ []) 0
          c.pending_pinned_byte_size in
      if ltb 0 c.pending_pinned_byte_size
      then (pinned_of answer, record c { heap = h })
      else (none, c)

  unfoldable pub flush_pending_pinned : Target → Collector H → Bool × Collector H
  unfolding set_input_tensors copy_from_pinned defer stage_pinned clear_pinned allocate_pinned
  flush_pending_pinned target c =
      let (pinned, c') = allocate_pinned c in
      let direct =
        set_input_tensors c'.pending_pinned_input_buffers target c'.pending_pinned_offset c' in
      elim pinned [
        | none ↦ (direct.0, clear_pinned direct.1)
        | some b ↦
            let (used, c'') = stage_pinned b.buffer target c' in
            (used, record (clear_pinned c'') { in_use_memories = c''.in_use_memories ++ b ∷ [] })
      ]
