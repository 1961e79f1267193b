-- ===== src/Collector/State.antt =====
-- The members of `BackendInputCollector` that the copying of tensors uses
-- (include/triton/backend/backend_input_collector.h). The buffer-ready event orders the
-- collector's copies behind the caller's own work and is not modelled.
use backend_radius_ai.Prelude.{ℕ, ◌+◌, ◌-◌, Bool, List, [], ◌∷◌}
use backend_radius_ai.Triton.{ErrorCode, Result, ok, err}
use backend_radius_ai.Machine.{Machine}
use backend_radius_ai.Copy.{Cuda, Place}
use backend_radius_ai.BackendMemory.{BackendMemory, Allocators}
use backend_radius_ai.Responses.{Responses, respond_range}
use backend_radius_ai.Collector.Iterator.{ContiguousBuffer}

-- The buffer of a tensor: the parameters `tensor_buffer`, `tensor_buffer_byte_size`,
-- `tensor_memory_type` and `tensor_memory_type_id` of the methods.
pub record Target : Type 0 where
  pub buffer : ℕ
  pub byte_size : ℕ
  pub place : Place

-- Copies out of a pinned buffer that wait for the copies into it.
pub record DeferredPinned : Type 0 where
  pub pinned_memory : ℕ
  pub pinned_memory_size : ℕ
  pub target : Target
  pub tensor_buffer_offset : ℕ
  pub requests : List ContiguousBuffer

-- The constant members, and the libraries called.
pub record Settings (H : Type 0) : Type 0 where
  pub pinned_enabled : Bool
  pub kernel_buffer_threshold : ℕ
  pub copy_on_stream : Bool
  pub cuda : Cuda
  pub alloc : Allocators H

pub record Collector (H : Type 0) : Type 0 where
  pub need_sync : Bool
  pub responses : Responses
  pub machine : Machine
  pub heap : H
  pub pending_pinned_byte_size : ℕ
  pub pending_pinned_offset : ℕ
  pub pending_pinned_input_buffers : List ContiguousBuffer
  pub pending_copy_kernel_buffer_byte_size : ℕ
  pub pending_copy_kernel_buffer_offset : ℕ
  pub pending_copy_kernel_input_buffer_counts : ℕ
  pub pending_copy_kernel_input_buffers : List ContiguousBuffer
  pub deferred_pinned : List DeferredPinned
  pub in_use_memories : List BackendMemory

-- The loop that sends an error to every response of a contiguous buffer.
unfoldable pub fail_input : {H : Type 0} → ContiguousBuffer → ErrorCode → Collector H → Collector H
fail_input input e c = record c {
  responses =
      respond_range (input.end_request_idx + 1 - input.start_request_idx) input.start_request_idx e
        c.responses;
}

-- The same for a list of them.
unfoldable pub fail_inputs :
    {H : Type 0} → List ContiguousBuffer → ErrorCode → Collector H → Collector H
unfolding fail_input
fail_inputs [] e c = c
fail_inputs (input ∷ inputs) e c = fail_inputs inputs e (fail_input input e c)

unfoldable pub fail_inputs_if_error :
    {H : Type 0} → List ContiguousBuffer → Result (Unit {0}) → Collector H → Collector H
unfolding fail_inputs
fail_inputs_if_error inputs (ok _) c = c
fail_inputs_if_error inputs (err e) c = fail_inputs inputs e c
