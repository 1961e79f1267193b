-- ===== src/Collector/Process.antt =====
-- `FlushPendingCopyKernel`, `LaunchCopyKernel`, `ProcessTensor` and `Finalize` of
-- src/backend_input_collector.cc. A launched gather kernel is the row of copies that it
-- makes (src/kernel.cu); the arrays of pointers, sizes and offsets that it reads are allocated as in
-- the code, and are taken to hold what was put into them. Waiting on the collector's event is
-- modelled as waiting on its stream.
pub mod Once
pub mod Ends
pub mod Writes
pub mod Run
pub mod Payload
pub mod Direct
pub mod Contents
use Prim.Native.String.{String}
use backend_radius_ai.Prelude.{
  ℕ, zero, suc, ◌+◌, ◌-◌, ◌*◌, Bool, true, false, not, ◌&&◌, ◌||◌, Option, none, some, List, [],
  ◌∷◌, ◌++◌, ltb, leb, ◌==◌, if◌then◌else◌, length,
}
use backend_radius_ai.Triton.{
  MemoryType, cpu, cpu_pinned, gpu, eq_memory, Result, ok, err, ErrorCode, invalid_arg, internal,
  unsupported,
}
use backend_radius_ai.Machine.{Transfer, Machine, synchronize}
use backend_radius_ai.Copy.{Cuda, Place, copy_buffer}
use backend_radius_ai.BackendMemory.{
  BackendMemory, AllocationType, host, host_pinned, device, host_pinned_pool, device_pool,
  Allocators, create_any, alloc_type_to_memory_type,
}
use backend_radius_ai.Server.{Server, MemoryDesc}
use backend_radius_ai.Responses.{Responses}
use backend_radius_ai.Collector.Iterator.{
  ContiguousBuffer, Source, Iterator, start, get_next_contiguous_input,
}
use backend_radius_ai.Collector.State.{
  Target, DeferredPinned, Settings, Collector, fail_inputs_if_error,
}
use backend_radius_ai.Collector.Tensor.{
  get_use_pinned_memory_type, pinned_place, set_input_tensor, set_input_tensors,
  flush_pending_pinned, copy_from_pinned,
}

-- The `switch` on a memory type that gives the allocation types to try.
unfoldable pub alloc_types : MemoryType → List AllocationType
alloc_types gpu = device_pool ∷ device ∷ []
alloc_types cpu_pinned = host_pinned_pool ∷ host_pinned ∷ []
alloc_types cpu = host ∷ []

-- What the kernel copies: each input behind the one before it.
unfoldable pub gather : List ContiguousBuffer → ℕ → List Transfer
gather [] dst = []
gather (input ∷ inputs) dst =
    (record { dst = dst; src = input.memory_desc.buffer; size = input.memory_desc.byte_size })
    ∷ gather inputs (dst + input.memory_desc.byte_size)

-- The next step, unless the one before it returned an error.
abbrev pub and_then :
    {H : Type 0}
    → Result (Unit {0}) × Collector H
    → (Collector H → Result (Unit {0}) × Collector H)
    → Result (Unit {0}) × Collector H
and_then (ok _, c) next = next c
and_then (err e, c) next = (err e, c)

module _ {H : Type 0} (settings : Settings H) (launches : Machine → List Transfer → Bool) where
  open settings use {pinned_enabled, kernel_buffer_threshold, copy_on_stream, cuda, alloc}

  -- One of the kernel's arrays: `count` entries of 8 bytes at the tensor's place.
  pub kernel_array : Target → Collector H → Result (Unit {0}) × Collector H
  unfolding alloc_types alloc_type_to_memory_type
  kernel_array target c =
      let (answer, h) =
        create_any alloc c.heap (alloc_types target.place.memory_type) target.place.memory_type_id
          (c.pending_copy_kernel_input_buffer_counts * 8) in
      elim answer [
        | err e ↦ (err internal, record c { heap = h })
        | ok b ↦
            let c' = record c { heap = h; in_use_memories = c.in_use_memories ++ b ∷ [] } in
            if eq_memory (alloc_type_to_memory_type b.alloc_type) target.place.memory_type
              && (b.memory_type_id == target.place.memory_type_id)
            then (ok tt, c')
            else (err internal, c')
      ]

  pub run_gather : Target → Collector H → Result (Unit {0}) × Collector H
  unfolding gather
  run_gather target c =
      let copies =
        gather c.pending_copy_kernel_input_buffers
          (target.buffer + c.pending_copy_kernel_buffer_offset) in
      if launches c.machine copies
      then (ok tt, record c { machine = record c.machine { stream = c.machine.stream ++ copies } })
      else (err internal, c)

  -- `launches` says whether `RunGatherKernel` succeeds.
  unfoldable pub launch_copy_kernel : Target → Collector H → Result (Unit {0}) × Collector H
  unfolding kernel_array run_gather
  launch_copy_kernel target c =
      let pointers = kernel_array target c in
      let sizes = and_then pointers (kernel_array target) in
      let offsets = and_then sizes (kernel_array target) in
      let launched = and_then offsets (run_gather target) in
      if cuda.enabled then launched else (err unsupported, c)

  pub clear_copy_kernel : Collector H → Collector H
  clear_copy_kernel c = record c {
    pending_copy_kernel_buffer_byte_size = 0;
    pending_copy_kernel_buffer_offset = 0;
    pending_copy_kernel_input_buffer_counts = 0;
    pending_copy_kernel_input_buffers = [];
  }

  -- The direct copies where no kernel is launched.
  pub kernel_fallback : Target → Collector H → Bool × Collector H
  kernel_fallback target c =
      set_input_tensors settings c.pending_copy_kernel_input_buffers target
        c.pending_copy_kernel_buffer_offset c

  unfoldable pub flush_pending_copy_kernel : Target → Collector H → Bool × Collector H
  unfolding launch_copy_kernel clear_copy_kernel kernel_fallback
  flush_pending_copy_kernel target c =
      let (launched, c₁) = launch_copy_kernel target c in
      let direct = kernel_fallback target c in
      let after = kernel_fallback target c₁ in
      if length c.pending_copy_kernel_input_buffers == 0
      then (false, c)
      else if leb kernel_buffer_threshold c.pending_copy_kernel_input_buffer_counts
      then (elim launched [
        | ok _ ↦ (true, clear_copy_kernel c₁)
        | err e ↦ (after.0, clear_copy_kernel after.1)
      ])
      else (direct.0, clear_copy_kernel direct.1)

  -- `need_sync_ |= …`
  abbrev pub noting : Bool × Collector H → Collector H
  noting r = record r.1 { need_sync = r.1.need_sync || r.0 }

  -- The pending copies that the next input does not continue are made.
  pub flush_pinned_before : Target → ℕ → Collector H → Collector H
  flush_pinned_before target buffer_offset c =
      if ltb 0 c.pending_pinned_byte_size
        && not (buffer_offset == c.pending_pinned_byte_size + c.pending_pinned_offset)
      then noting (flush_pending_pinned settings target c)
      else c

  pub flush_kernel_before : Target → ℕ → Collector H → Collector H
  unfolding flush_pending_copy_kernel
  flush_kernel_before target buffer_offset c =
      if ltb 0 c.pending_copy_kernel_buffer_byte_size
        && not (
            buffer_offset
            == c.pending_copy_kernel_buffer_byte_size + c.pending_copy_kernel_buffer_offset)
      then noting (flush_pending_copy_kernel target c)
      else c

  unfoldable pub flush_before : Target → ℕ → Collector H → Collector H
  unfolding flush_pinned_before flush_kernel_before
  flush_before target buffer_offset c =
      flush_kernel_before target buffer_offset (flush_pinned_before target buffer_offset c)

  -- The body of the loop of `ProcessTensor` for one input.
  unfoldable pub process_input :
      Target → MemoryType → ℕ → ContiguousBuffer → Collector H → Collector H
  unfolding flush_before
  process_input target use_pinned buffer_offset input c = noting (
      set_input_tensor settings input target buffer_offset use_pinned
        (not (kernel_buffer_threshold == 0)) (flush_before target buffer_offset c))

  -- The pending copies that are left at the end.
  unfoldable pub flush_all : Target → Collector H → Collector H
  unfolding flush_pending_copy_kernel
  flush_all target c =
      noting (flush_pending_copy_kernel target (noting (flush_pending_pinned settings target c)))

  pub use_pinned_memory_type : Target → MemoryType
  unfolding get_use_pinned_memory_type
  use_pinned_memory_type target =
      if pinned_enabled then get_use_pinned_memory_type target.place.memory_type else cpu_pinned

  module _ {server : Server} (src : Source server) (junk : MemoryDesc) where
    -- The loop, in which iterator and collector write to the same responses; `none` means that the
    -- fuel ran out.
    pub process_loop :
        ℕ → Target → ℕ → ContiguousBuffer → Iterator server → Collector H → Option (Collector H)
    process_loop zero target buffer_offset input it c = none
    process_loop (suc fuel) target buffer_offset input it c =
        elim (get_next_contiguous_input src junk input (record it { responses = c.responses })) [
          | none ↦ some c
          | some (next, it') ↦
              process_loop fuel target (buffer_offset + next.memory_desc.byte_size) next it' (
                process_input target (use_pinned_memory_type target) buffer_offset next
                  (record c { responses = it'.responses }))
        ]

    -- `ProcessTensor` into a given buffer. `first`, `count` and `input` are what the uninitialized
    -- variables hold.
    unfoldable pub process_tensor :
        ℕ → Server.Input server → ℕ → ContiguousBuffer → Target → Collector H → Option (Collector H)
    unfolding process_loop flush_all process_input use_pinned_memory_type
    process_tensor fuel first count input target c =
        let it = start src first count c.responses in
        elim (process_loop fuel target 0 input it (record c { responses = it.responses })) [
          | none ↦ none
          | some c' ↦ some (flush_all target c')
        ]

  -- `DeferredPinned::Finalize`: the copy is not on the stream.
  pub finalize_deferred : DeferredPinned → Collector H → Bool × Collector H
  finalize_deferred d c =
      copy_from_pinned settings d.requests d.pinned_memory d.pinned_memory_size d.target
        d.tensor_buffer_offset false c

  pub finalize_all : List DeferredPinned → Collector H → Collector H
  unfolding finalize_deferred
  finalize_all [] c = c
  finalize_all (d ∷ ds) c = finalize_all ds (noting (finalize_deferred d c))

  is_empty : List DeferredPinned → Bool
  is_empty [] = true
  is_empty (d ∷ ds) = false

  -- `Finalize`; its result is `need_sync` of the collector.
  unfoldable pub finalize : Collector H → Collector H
  unfolding finalize_all is_empty
  finalize c =
      let waited = record c { machine = synchronize c.machine; need_sync = false } in
      finalize_all c.deferred_pinned
        (if cuda.enabled && not (is_empty c.deferred_pinned) && c.need_sync then waited else c)
