-- ===== src/Responder/Process/Arrival.antt =====
-- `ProcessTensor` and `Finalize` over requests whose outputs are all granted.
use Prim.Native.String.{String}
use native.Mathlib.Nat.{add-zero}
use backend_radius_ai.Prelude.{ℕ, ◌+◌, ◌≤◌, ◌<◌, ◌≡◌, ◌≢◌, ◌∙◌, refl, true, false, List, [], ◌∷◌}
use backend_radius_ai.Prelude.Int.{ℤ, pos, u64_mod, i64_half}
use backend_radius_ai.Triton.{DataType, cpu_pinned, gpu, ok}
use backend_radius_ai.Machine.{Machine, synchronize, null}
use backend_radius_ai.Machine.Bytes.{bytes_at}
use backend_radius_ai.Copy.{CudaCall}
use backend_radius_ai.Responder.State.{ResponsesList, Settings, Responder, Tensor}
use backend_radius_ai.Responder.Flush.{finalize}
use backend_radius_ai.Responder.Scatter.{output_size, output_bytes, AwayFrom, AllAway, HostOutputs}
use backend_radius_ai.Responder.Delivered.{flush_pending_pinned-finalize}
use backend_radius_ai.Responder.Process.{process_output_tensor}
use backend_radius_ai.Responder.Process.Short.{total_rows}
use backend_radius_ai.Responder.Process.Rows.{Granted, LiveFrom}
use backend_radius_ai.Responder.Process.Delivery.{all_pending, process_output_tensor-Granted}

module _ {H : Type 0} (settings : Settings H) (enabled : settings.cuda.enabled ≡ true)
    (launches : (m : Machine) (call : CudaCall) → settings.cuda.succeeds m call ≡ true)
    (off : settings.copy_on_stream ≡ false) (pinned : settings.pinned_enabled ≡ true)
    (batching : settings.first_dim_batching ≡ true) (tensor : Tensor)
    (device : tensor.place.memory_type ≡ gpu) (valid : tensor.buffer ≢ null) where
  open settings use {api}
  open api use {Request}

  -- The build has CUDA, every launch succeeds, copies between host buffers are made at once,
  -- pinned memory and first-dimension batching are enabled, and the tensor is in device memory at
  -- a valid pointer. Nothing is pending or deferred in the responder, no copy is in the stream,
  -- all responses are live, and the rows of the requests are no more than the tensor's, which fit
  -- an `int64_t`. For each request the server gives a buffer in host memory of the size of its
  -- rows, in a state that follows on the one before, where the output named as the tensor is among
  -- those of the request. These buffers are at valid pointers, their sizes have a sum that fits in
  -- 64 bits, and they share no byte with each other, with as many bytes of the tensor, and with a
  -- pinned buffer that the server gives. Then after `ProcessTensor`, `Finalize` and a
  -- synchronization the buffers hold, in the order of the requests, the bytes of the tensor.
  pub process_output_tensor-bytes :
      (name : String) (datatype : DataType) (requests : List Request) (ns : List ℕ) (b : ℕ)
      (ds : List ℤ) (r : Responder H) (h : H) (outs : ResponsesList)
      → r.machine.stream ≡ []
      → r.deferred_pinned ≡ []
      → r.pending_pinned_offset ≡ 0
      → r.pending_pinned_byte_size ≡ 0
      → r.pending_pinned_outputs ≡ []
      → b < i64_half
      → total_rows ns ≤ b
      → LiveFrom settings tensor name datatype r.responses 0 requests
      → Granted settings tensor name datatype requests ns 0 ds r.heap h outs
      → output_size outs < u64_mod
      → HostOutputs outs
      → AllAway outs
      → AwayFrom tensor.buffer (output_size outs) outs
      → ((ptr : ℕ)
          → (api.manager_allocate h cpu_pinned 0 (output_size outs)).0 ≡ ok ptr
          → AwayFrom ptr (output_size outs) outs)
      → output_bytes
          (synchronize
            (finalize settings
              (process_output_tensor settings tensor requests name datatype
                (pos b ∷ ds)
                r).1).machine).mem
          outs
        ≡ bytes_at r.machine.mem tensor.buffer (output_size outs)
  process_output_tensor-bytes name datatype requests ns b ds r h outs idle fresh at_start nothing
        none_yet b_fits room live grants small host apart away pinned_away =
      let granted =
        process_output_tensor-Granted settings tensor name datatype requests ns b ds r h outs device
          pinned batching b_fits room live grants at_start nothing none_yet small in
      let q = all_pending settings tensor name datatype r h outs in
      let base : tensor.buffer + r.pending_pinned_offset ≡ tensor.buffer =
        rw at_start (add-zero tensor.buffer) in
      rw granted (
        flush_pending_pinned-finalize settings enabled launches tensor device valid q idle fresh
          host off refl apart (rw (at_start, add-zero) away) pinned_away
        ∙ rw base refl)
