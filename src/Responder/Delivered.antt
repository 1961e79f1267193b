-- ===== src/Responder/Delivered.antt =====
-- A device tensor reaches host outputs, through pinned memory or directly.
use backend_radius_ai.Prelude.{
  ℕ, ◌+◌, ◌≡◌, ◌≢◌, refl, ap, ◌∙◌, Bool, true, false, ◌||◌, [], arith, none, some, inl, inr,
}
use backend_radius_ai.Triton.{cpu_pinned, gpu, ok}
use backend_radius_ai.Machine.{Transfer, Machine, transfer, run_stream, synchronize, null}
use backend_radius_ai.Machine.Bytes.{bytes_at, bytes_at-transfer}
use backend_radius_ai.Copy.{CudaCall}
use backend_radius_ai.Responder.State.{Settings, Responder, Tensor}
use backend_radius_ai.Responder.Flush.{
  allocate_pinned, defer, clear_pinned, flush_pending_pinned, noting, finalize,
}
use backend_radius_ai.Responder.Scatter.{
  output_writes, output_size, output_bytes, AwayFrom, AllAway, HostOutputs,
  output_bytes-output_writes,
}
use backend_radius_ai.Responder.Deferred.{
  scatter_device, flush_direct, stage_deferred, flush_deferred, allocate_pinned-cases,
  finalize_nothing, finalize_one,
}

or_true : (b : Bool) → (b || true) ≡ true
or_true true = refl
or_true false = refl

module _ {H : Type 0} (settings : Settings H) (enabled : settings.cuda.enabled ≡ true)
    (launches : (m : Machine) (call : CudaCall) → settings.cuda.succeeds m call ≡ true)
    (tensor : Tensor) (device : tensor.place.memory_type ≡ gpu) (valid : tensor.buffer ≢ null)
    (r : Responder H) (idle : r.machine.stream ≡ []) (fresh : r.deferred_pinned ≡ [])
    (host : HostOutputs r.pending_pinned_outputs) where
  open settings use {copy_on_stream, api}

  -- The machine after the flush and `Finalize`, where there is no pinned buffer.
  machine_direct :
      (h : H)
      → allocate_pinned settings r ≡ (none, record r { heap = h })
      → (finalize settings (noting (flush_pending_pinned settings tensor r))).machine
        ≡ record r.machine {
          stream = output_writes (tensor.buffer + r.pending_pinned_offset) r.pending_pinned_outputs;
        }
  unfolding clear_pinned
  machine_direct h e =
      let base = tensor.buffer + r.pending_pinned_offset in
      let r' = record r { heap = h } in
      let copied =
        scatter_device settings enabled launches tensor.place base r.pending_pinned_outputs r'
          device (λ z. omega (arith, valid)) host in
      let flushed = flush_direct settings enabled launches tensor r r' e in
      finalize_nothing settings enabled launches (noting (flush_pending_pinned settings tensor r))
        (rw (flushed, copied, fresh) refl)
      ∙ ap (λ (x : Responder H). x.machine) flushed
      ∙ ap (λ (x : Responder H). x.machine) copied
      ∙ rw (idle) refl

  -- The machine after the flush and `Finalize`, through the pinned buffer at `ptr`.
  machine_deferred :
      (h : H) (ptr : ℕ) (t : Transfer)
      → copy_on_stream ≡ false
      → ptr ≢ null
      → allocate_pinned settings r ≡ (some ptr, record r { heap = h })
      → t ≡ record {
        dst = ptr;
        src = tensor.buffer + r.pending_pinned_offset;
        size = r.pending_pinned_byte_size;
      }
      → (finalize settings (noting (flush_pending_pinned settings tensor r))).machine ≡ record {
        mem = run_stream (output_writes ptr r.pending_pinned_outputs) (transfer t r.machine.mem);
        stream = [];
      }
  unfolding clear_pinned defer run_stream
  machine_deferred h ptr t off given e is_t =
      let r' = record r { heap = h } in
      let staged = stage_deferred settings enabled launches ptr tensor r' device valid given in
      let flushed = flush_deferred settings enabled launches tensor r r' _ ptr e staged in
      finalize_one settings enabled launches (noting (flush_pending_pinned settings tensor r)) ptr
        r.pending_pinned_byte_size r.pending_pinned_outputs off (rw flushed (or_true r.need_sync))
        (rw (flushed, fresh) refl) given host
      ∙ rw (flushed, idle, is_t) refl

  -- The build has CUDA, every launch succeeds, copies between host buffers are made at once, the
  -- tensor is in device memory at a valid pointer, no copy is in the stream, nothing is deferred,
  -- and the pending outputs are at valid pointers in host memory, have the pending size in sum, and
  -- share no byte with each other, with the pending part of the tensor, and with a pinned buffer
  -- that the server gives. Then after `FlushPendingPinned`, `Finalize` and a synchronization the
  -- outputs hold the pending part of the tensor in order, whether or not the pinned buffer was
  -- given.
  pub flush_pending_pinned-finalize :
      copy_on_stream ≡ false
      → r.pending_pinned_byte_size ≡ output_size r.pending_pinned_outputs
      → AllAway r.pending_pinned_outputs
      → AwayFrom
          (tensor.buffer + r.pending_pinned_offset)
          r.pending_pinned_byte_size
          r.pending_pinned_outputs
      → ((ptr : ℕ)
          → (api.manager_allocate r.heap cpu_pinned 0 r.pending_pinned_byte_size).0 ≡ ok ptr
          → AwayFrom ptr r.pending_pinned_byte_size r.pending_pinned_outputs)
      → output_bytes
          (synchronize
            (finalize settings (noting (flush_pending_pinned settings tensor r))).machine).mem
          r.pending_pinned_outputs
        ≡ bytes_at r.machine.mem
            (tensor.buffer + r.pending_pinned_offset)
            r.pending_pinned_byte_size
  unfolding synchronize
  flush_pending_pinned-finalize off sizes apart away pinned_away =
      let outputs = r.pending_pinned_outputs in
      let base = tensor.buffer + r.pending_pinned_offset in
      elim (allocate_pinned-cases settings enabled launches r) [
        | inl (h, e) ↦
            rw (machine_direct h e, sizes)
              (output_bytes-output_writes outputs base r.machine.mem apart (rw sizes at away))
        | inr (h, ptr, given, made, e) ↦
            let t : Transfer = record {
              dst = ptr;
              src = base;
              size = r.pending_pinned_byte_size;
            } in
            rw (machine_deferred h ptr t off given e refl) (
              output_bytes-output_writes outputs ptr (transfer t r.machine.mem) apart
                (rw sizes at (pinned_away ptr made))
              ∙ rw (← sizes) (bytes_at-transfer r.machine.mem t))
      ]
